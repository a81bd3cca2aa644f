-- ===== src/Base/Perms.antt =====
-- Rearrangements and the length over the native numbers.
use Prim.Native.Nat.{suc}
use native.Mathlib.Nat.{ℕ_set}
use mathlib.Core.List.{List, [], ◌∷◌, ◌++◌, Perm, Permᴰ}
use mathlib.Core.List.Perm
use mathlib.Core.Logic.{∥∥₁_elim}
use mathlib.Core.Path.{◌≡◌, refl, sym, subst, ap, ◌∙◌}
use decentralized_cloud.Base.Lists.{length, All}

module _ {ℓ} {A : Type ℓ} where
  length-permᴰ : {xs ys : List A} → Permᴰ xs ys → length xs ≡ length ys
  length-permᴰ Permᴰ.nil = refl
  length-permᴰ (Permᴰ.cons x p) = ap suc (length-permᴰ p)
  length-permᴰ (Permᴰ.swap x y) = refl
  length-permᴰ (Permᴰ.trans p q) = length-permᴰ p ∙ length-permᴰ q

  pub length-perm : {xs ys : List A} → Perm xs ys → length xs ≡ length ys
  length-perm p = ∥∥₁_elim p (ℕ_set _ _) length-permᴰ

  pub middle-perm : (x : A) (xs ys : List A) → Perm (xs ++ (x ∷ ys)) (x ∷ (xs ++ ys))
  middle-perm x [] ys = Perm.refl _
  middle-perm x (b ∷ xs) ys =
      Perm.trans (Perm.cons b (middle-perm x xs ys)) (Perm.swap x b (xs ++ ys))

module _ {ℓ κ} {A : Type ℓ} (P : A → Type κ) where
  pub All-of_append : (xs ys : List A) → All P (xs ++ ys) → All P xs
  All-of_append [] ys h = tt
  All-of_append (x ∷ xs) ys h = (h.0, All-of_append xs ys h.1)

  All-permᴰ : {xs ys : List A} → Permᴰ xs ys → All P ys → All P xs
  All-permᴰ Permᴰ.nil h = h
  All-permᴰ (Permᴰ.cons x p) h = (subst P (sym x) h.0, All-permᴰ p h.1)
  All-permᴰ (Permᴰ.swap x y) h = (subst P (sym x) h.1.0, (subst P (sym y) h.0, h.1.1))
  All-permᴰ (Permᴰ.trans p q) h = All-permᴰ p (All-permᴰ q h)

  module _ (prop : (a : A) → IsProp (P a)) where
    All-prop : (xs : List A) → IsProp (All P xs)
    All-prop [] = λ a b. refl
    All-prop (x ∷ xs) = λ a b i. (prop x a.0 b.0 i, All-prop xs a.1 b.1 i)

    pub All-perm : (xs ys : List A) → Perm xs ys → All P ys → All P xs
    All-perm xs ys p h = ∥∥₁_elim p (All-prop xs) (λ d. All-permᴰ d h)
