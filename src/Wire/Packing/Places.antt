-- ===== src/Wire/Packing/Places.antt =====
-- The places of the zeros of a text, as `compressString` writes them and `decompressString` reads them
-- (BlockChainCommon/functions.cpp).
use mathlib.Core.List.{append_assoc, append-nil}
use decentralized_cloud.Base.{
  ℕ, suc, ◌+◌, ◌^◌, ◌≤◌, ◌<◌, ◌≡◌, refl, sym, ◌∙◌, ap, true, false, List, [], ◌∷◌, ◌++◌, Text,
  nat_beq, ltb, is_empty, if◌then◌else◌, length, map, arith, All, Bool-cases, inl, inr,
  length-append, take-append, drop-append, ◌||◌,
}
use decentralized_cloud.Base.Decimal.{to_string, put_digits_head}
use decentralized_cloud.Wire.{remove_null_terminators}
use decentralized_cloud.Wire.Escapes.{has_char}
use decentralized_cloud.Wire.Plain.{put_digits-has_char}
use decentralized_cloud.Wire.Splits.{separated}
use decentralized_cloud.Wire.Numbers.{stoi-to_string}
use decentralized_cloud.Wire.Packing.{Zlib, add_header, take_zeros, insert_zero, rejoin, put_zeros}

-- Where the zeros stand in a text that begins at `n`.
pub places : ℕ → Text → List ℕ
places n [] = []
places n (c ∷ s) = let rest = places (n + 1) s in if nat_beq c 0 then n ∷ rest else rest

-- The headers with those of `ns` added.
unfoldable pub headers_of : Text → List ℕ → Text
unfolding add_header
headers_of h [] = h
headers_of h (n ∷ ns) = headers_of (add_header h n) ns

pub take_zeros_lem :
    (n : ℕ) (s h : Text) → take_zeros n s h ≡ (headers_of h (places n s), remove_null_terminators s)
unfolding take_zeros headers_of places remove_null_terminators
take_zeros_lem n [] h = refl
take_zeros_lem n (c ∷ s) h =
    ground (arith, take_zeros_lem (n + 1) s (add_header h n), take_zeros_lem (n + 1) s h)

-- The headers are the places with a comma before each but the first.
pub to_string-ne : (n : ℕ) (t : Text) → is_empty (t ++ to_string n) ≡ false
unfolding to_string
to_string-ne n (c ∷ t) = refl
to_string-ne n [] = let (c, s, e, d) = put_digits_head (suc n) n [] (omega arith) in ap is_empty e

pub headers_of-separated :
    (h : Text) (ns : List ℕ)
    → is_empty h ≡ false
    → headers_of h ns ≡ h ++ separated b',' (map to_string ns)
unfolding headers_of add_header
headers_of-separated h [] full = sym (append-nil h)
headers_of-separated h (n ∷ ns) full = rw full (
    headers_of-separated ((h ++ b',' ∷ []) ++ to_string n) ns (to_string-ne n (h ++ b',' ∷ []))
    ∙ append_assoc (h ++ b',' ∷ []) (to_string n) (separated b',' (map to_string ns))
    ∙ append_assoc h (b',' ∷ []) (to_string n ++ separated b',' (map to_string ns)))

pub to_string-clean : (d n : ℕ) → ltb d 48 || ltb 57 d ≡ true → has_char d (to_string n) ≡ false
unfolding to_string
to_string-clean d n other = put_digits-has_char d (suc n) n [] other refl

pub numbers_clean :
    (d : ℕ) (ns : List ℕ)
    → ltb d 48 || ltb 57 d ≡ true
    → All (λ q. has_char d q ≡ false) (map to_string ns)
numbers_clean d [] other = tt
numbers_clean d (n ∷ ns) other = (to_string-clean d n other, numbers_clean d ns other)

pub rejoin-separated : (ps : List Text) (s : Text) → rejoin ps s ≡ s ++ separated b'_' ps
unfolding rejoin
rejoin-separated [] s = sym (append-nil s)
rejoin-separated (p ∷ ps) s =
    rejoin-separated ps (s ++ b'_' ∷ p) ∙ append_assoc s (b'_' ∷ p) (separated b'_' ps)

-- The places put the zeros back, from the left to the right.
put_zero :
    (zlib : Zlib) (n : ℕ) (head rest : Text) (later : List Text)
    → length head ≡ n
    → n < 2 ^ 31
    → put_zeros zlib (to_string n ∷ later) (head ++ rest) ≡ put_zeros zlib later (head ++ 0 ∷ rest)
unfolding put_zeros insert_zero
put_zero zlib n head rest later e small = rw (← e) (
    ground (
      arith,
      stoi-to_string (length head),
      take-append head rest,
      drop-append head rest,
      length-append head rest,
    ))

pub put_zeros-places :
    (zlib : Zlib) (n : ℕ) (s head : Text)
    → length head ≡ n
    → n + length s ≤ 2 ^ 31
    → put_zeros zlib (map to_string (places n s)) (head ++ remove_null_terminators s)
      ≡ put_zeros zlib [] (head ++ s)
unfolding places remove_null_terminators
put_zeros-places zlib n [] head e small = refl
put_zeros-places zlib n (c ∷ s) head e small =
    let ih =
      ap (put_zeros zlib (map to_string (places (n + 1) s)))
        (sym (append_assoc head (c ∷ []) (remove_null_terminators s)))
      ∙ put_zeros-places zlib (n + 1) s (head ++ c ∷ [])
          (omega (arith, e, length-append head (c ∷ []))) (omega arith)
      ∙ ap (put_zeros zlib []) (append_assoc head (c ∷ []) s) in
    elim (Bool-cases (nat_beq c 0)) [
      | inl null ↦
          let is_zero : c ≡ 0 = ground arith in
          rw null (
            put_zero zlib n head (remove_null_terminators s) (map to_string (places (n + 1) s)) e
              (omega arith)
            ∙ ap
                (λ d.
                  put_zeros zlib (map to_string (places (n + 1) s))
                    (head ++ d ∷ remove_null_terminators s))
                (sym is_zero)
            ∙ ih)
      | inr other ↦ rw other ih
    ]

-- What the places of a text say of its zeros.
pub places_none : (n : ℕ) (s : Text) → has_char 0 s ≡ false → places n s ≡ []
unfolding places
places_none n [] none_there = refl
places_none n (c ∷ s) none_there = ground (arith, places_none (n + 1) s)

pub places_some :
    (n : ℕ) (s : Text) → has_char 0 s ≡ true → (m : ℕ) × (ns : List ℕ) × (places n s ≡ m ∷ ns)
unfolding places
places_some n [] there = cc
places_some n (c ∷ s) there = elim (Bool-cases (nat_beq c 0)) [
  | inl null ↦ (n, places (n + 1) s, rw null refl)
  | inr other ↦ rw other (places_some (n + 1) s (ground arith))
]
