-- ===== src/Base/Sort.antt =====
-- `std::sort` by a number of the elements: what the program relies on, and a sort that has it.
use Prim.Native.Nat.{ℕ, ◌≤◌}
use mathlib.Core.Logic.{inl, inr}
use mathlib.Core.List.{List, [], ◌∷◌, Perm}
use mathlib.Core.List.Perm
use native.Mathlib.Omega.{arith}
use decentralized_cloud.Base.Tests.{leb, if◌then◌else◌, Bool-cases}
use decentralized_cloud.Base.Lists.{All, All-imp}

module _ {ℓ} {A : Type ℓ} (key : A → ℕ) where
  abbrev pub SortedBy : List A → Type 0
  SortedBy [] = Unit {0}
  SortedBy (x ∷ xs) = All (λ y. key x ≤ key y) xs × SortedBy xs

  pub record Sorts (sort : List A → List A) : Type ℓ where
    pub ascending : (xs : List A) → SortedBy (sort xs)
    pub same : (xs : List A) → Perm (sort xs) xs

  unfoldable pub insert_by : A → List A → List A
  insert_by x [] = x ∷ []
  insert_by x (y ∷ ys) =
      let rest = insert_by x ys in if leb (key x) (key y) then x ∷ y ∷ ys else y ∷ rest

  unfoldable pub sort_by : List A → List A
  unfolding insert_by
  sort_by [] = []
  sort_by (x ∷ xs) = insert_by x (sort_by xs)

  pub insert_by-same : (x : A) (ys : List A) → Perm (insert_by x ys) (x ∷ ys)
  unfolding insert_by
  insert_by-same x [] = Perm.refl _
  insert_by-same x (y ∷ ys) = elim (Bool-cases (leb (key x) (key y))) [
    | inl before ↦ rw before (Perm.refl _)
    | inr after ↦ rw after (Perm.trans (Perm.cons y (insert_by-same x ys)) (Perm.swap x y ys))
  ]

  pub All-insert_by {κ} :
      (P : A → Type κ) (x : A) (ys : List A) → P x → All P ys → All P (insert_by x ys)
  unfolding insert_by
  All-insert_by P x [] p h = (p, tt)
  All-insert_by P x (y ∷ ys) p h = elim (Bool-cases (leb (key x) (key y))) [
    | inl before ↦ rw before (p, h)
    | inr after ↦ rw after (h.0, All-insert_by P x ys p h.1)
  ]

  pub insert_by-SortedBy : (x : A) (ys : List A) → SortedBy ys → SortedBy (insert_by x ys)
  unfolding insert_by
  insert_by-SortedBy x [] h = (tt, tt)
  insert_by-SortedBy x (y ∷ ys) h = elim (Bool-cases (leb (key x) (key y))) [
    | inl before ↦
        let first : key x ≤ key y = ground arith in
        rw before ((first, All-imp (λ z le. omega arith) ys h.0), h)
    | inr after ↦
        let first : key y ≤ key x = ground arith in
        rw after (All-insert_by _ x ys first h.0, insert_by-SortedBy x ys h.1)
  ]

  sort_by-SortedBy : (xs : List A) → SortedBy (sort_by xs)
  unfolding sort_by
  sort_by-SortedBy [] = tt
  sort_by-SortedBy (x ∷ xs) = insert_by-SortedBy x (sort_by xs) (sort_by-SortedBy xs)

  sort_by-same : (xs : List A) → Perm (sort_by xs) xs
  unfolding sort_by
  sort_by-same [] = Perm.refl _
  sort_by-same (x ∷ xs) = Perm.trans (insert_by-same x (sort_by xs)) (Perm.cons x (sort_by-same xs))

  pub sort_by-Sorts : Sorts sort_by
  sort_by-Sorts = record { ascending = sort_by-SortedBy; same = sort_by-same }
