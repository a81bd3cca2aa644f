-- ===== src/Wire/Fragments/Slots.antt =====
-- The slots of a message of BlockChainCommon/IncomingMessage.cpp, of which some are filled.
use decentralized_cloud.Base.{
  ℕ, zero, suc, ◌+◌, ◌≤◌, ◌<◌, ◌≡◌, refl, ap, some, Bool, true, false, ◌&&◌, ◌||◌, List, [], ◌∷◌,
  Text, nat_beq, if◌then◌else◌, length, set, get_elem?, arith,
}

-- The fragments `fs` from the index `k` on, where only those that `p` holds of are there.
abbrev pub mask : (ℕ → Bool) → ℕ → List Text → List Text
mask p k [] = []
mask p k (f ∷ fs) = (if p k then f else []) ∷ mask p (k + 1) fs

unfoldable pub count : (ℕ → Bool) → ℕ → ℕ → ℕ
count p k zero = 0
count p k (suc n) = (if p k then 1 else 0) + count p (k + 1) n

-- `p` holds of all `n` indices from `k` on.
abbrev pub all_of : (ℕ → Bool) → ℕ → ℕ → Bool
all_of p k zero = true
all_of p k (suc n) = p k && all_of p (k + 1) n

-- `p` and the index `i`.
abbrev pub mark : ℕ → (ℕ → Bool) → ℕ → Bool
mark i p j = nat_beq i j || p j

pub length-mask : (p : ℕ → Bool) (k : ℕ) (fs : List Text) → length (mask p k fs) ≡ length fs
length-mask p k [] = refl
length-mask p k (f ∷ fs) = ap suc (length-mask p (k + 1) fs)

pub get_elem?-mask :
    (p : ℕ → Bool) (k i j : ℕ) (fs : List Text) {f : Text}
    → k + i ≡ j
    → get_elem? fs i ≡ some f
    → get_elem? (mask p k fs) i ≡ some (if p j then f else [])
get_elem?-mask p k i j [] e h = cc
get_elem?-mask p k zero j (f ∷ fs) e h = let same : k ≡ j = omega arith in ground (arith, ap p same)
get_elem?-mask p k (suc i) j (f ∷ fs) e h = get_elem?-mask p (k + 1) i j fs (omega arith) h

pub mask-all :
    (p : ℕ → Bool) (k : ℕ) (fs : List Text) → all_of p k (length fs) ≡ true → mask p k fs ≡ fs
mask-all p k [] all = refl
mask-all p k (f ∷ fs) all = ground (arith, mask-all p (k + 1) fs)

mask-mark_below :
    (p : ℕ → Bool) (i k : ℕ) (fs : List Text) → i < k → mask (mark i p) k fs ≡ mask p k fs
mask-mark_below p i k [] below = refl
mask-mark_below p i k (f ∷ fs) below = ground (arith, mask-mark_below p i (k + 1) fs)

pub set-mask :
    (p : ℕ → Bool) (k i j : ℕ) (fs : List Text) {f : Text}
    → k + i ≡ j
    → get_elem? fs i ≡ some f
    → set (mask p k fs) i f ≡ mask (mark j p) k fs
set-mask p k i j [] e h = cc
set-mask p k zero j (g ∷ fs) e h = ground (arith, mask-mark_below p j (k + 1) fs)
set-mask p k (suc i) j (g ∷ fs) e h = ground (arith, set-mask p (k + 1) i j fs (omega arith) h)

count-mark_below : (p : ℕ → Bool) (i k n : ℕ) → i < k → count (mark i p) k n ≡ count p k n
unfolding count
count-mark_below p i k zero below = refl
count-mark_below p i k (suc n) below = ground (arith, count-mark_below p i (k + 1) n)

pub count-mark :
    (p : ℕ → Bool) (k i j n : ℕ)
    → k + i ≡ j
    → i < n
    → p j ≡ false
    → count (mark j p) k n ≡ suc (count p k n)
unfolding count
count-mark p k i j zero e h new = absurd (omega arith)
count-mark p k zero j (suc n) e h new =
    let same : k ≡ j = omega arith in ground (arith, ap p same, count-mark_below p j (k + 1) n)
count-mark p k (suc i) j (suc n) e h new = ground (arith, count-mark p (k + 1) i j n)

count-le : (p : ℕ → Bool) (k n : ℕ) → count p k n ≤ n
unfolding count
count-le p k zero = omega arith
count-le p k (suc n) = ground (arith, count-le p (k + 1) n)

pub count_full : (p : ℕ → Bool) (k n : ℕ) → all_of p k n ≡ true → count p k n ≡ n
unfolding count
count_full p k zero all = refl
count_full p k (suc n) all = ground (arith, count_full p (k + 1) n)

pub count_short : (p : ℕ → Bool) (k n : ℕ) → all_of p k n ≡ false → count p k n < n
unfolding count
count_short p k zero all = cc
count_short p k (suc n) all = ground (arith, count_short p (k + 1) n, count-le p (k + 1) n)

pub all_of-congr : (p q : ℕ → Bool) (k n : ℕ) → ((j : ℕ) → p j ≡ q j) → all_of p k n ≡ all_of q k n
all_of-congr p q k zero same = refl
all_of-congr p q k (suc n) same = ground (arith, same k, all_of-congr p q (k + 1) n same)

pub all_of-false :
    (p : ℕ → Bool) (k i j n : ℕ) → k + i ≡ j → i < n → p j ≡ false → all_of p k n ≡ false
all_of-false p k i j zero e h new = absurd (omega arith)
all_of-false p k zero j (suc n) e h new =
    let same : k ≡ j = omega arith in ground (arith, ap p same)
all_of-false p k (suc i) j (suc n) e h new = ground (arith, all_of-false p (k + 1) i j n)

pub all_of-or :
    (p q : ℕ → Bool) (k n : ℕ) → all_of p k n ≡ true → all_of (λ j. q j || p j) k n ≡ true
all_of-or p q k zero all = refl
all_of-or p q k (suc n) all = ground (arith, all_of-or p q (k + 1) n)

pub count_none : (k n : ℕ) → count (λ j. false) k n ≡ 0
unfolding count
count_none k zero = refl
count_none k (suc n) = ground (arith, count_none (k + 1) n)
