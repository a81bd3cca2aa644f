-- ===== src/Base/Dict.antt =====
-- `std::map` and `std::unordered_map` as association lists: a map never holds a key twice, and what
-- the program computes does not depend on the order of iteration unless a definition says so.
use mathlib.Core.Path.{◌≡◌, refl}
use mathlib.Core.Bool.{Bool, true, false}
use mathlib.Core.Option.{Option, none, some}
use mathlib.Core.List.{List, [], ◌∷◌}
use native.Mathlib.Omega.{arith}
use decentralized_cloud.Base.Tests.{if◌then◌else◌}
use decentralized_cloud.Base.Class.{Comparable, ◌==◌, ==_iff}

abbrev pub Dict {ℓ κ} : Type ℓ → Type κ → Type (ℓ ⊔ κ)
Dict K V = List (K × V)

module _ {ℓ κ} {K : Type ℓ} {V : Type κ} ⦃e : Comparable K⦄ where
  -- `find`
  unfoldable pub find : K → Dict K V → Option V
  find k [] = none
  find k ((j, v) ∷ m) = if j == k then some v else find k m

  -- `find(k) != end()`
  unfoldable pub contains : K → Dict K V → Bool
  unfolding find
  contains k m = elim (find k m) [ none ↦ false | some _ ↦ true ]

  -- `m[k] = v`
  unfoldable pub assign : K → V → Dict K V → Dict K V
  assign k v [] = (k, v) ∷ []
  assign k v ((j, w) ∷ m) = if j == k then (j, v) ∷ m else (j, w) ∷ assign k v m

  -- `insert`: an entry that is there already stays.
  unfoldable pub insert : K → V → Dict K V → Dict K V
  insert k v [] = (k, v) ∷ []
  insert k v ((j, w) ∷ m) = if j == k then (j, w) ∷ m else (j, w) ∷ insert k v m

  -- `erase(k)`
  unfoldable pub erase : K → Dict K V → Dict K V
  erase k [] = []
  erase k ((j, v) ∷ m) = if j == k then m else (j, v) ∷ erase k m

  pub find-assign :
      (k j : K) (v : V) (m : Dict K V)
      → find j (assign k v m) ≡ (if k == j then some v else find j m)
  unfolding find assign
  find-assign k j v [] = refl
  find-assign k j v ((i, w) ∷ m) =
      ground (arith, ==_iff k j, ==_iff i k, ==_iff i j, find-assign k j v m)

  pub find-insert :
      (k j : K) (v : V) (m : Dict K V)
      → find j (insert k v m)
        ≡ (if k == j then elim (find j m) [ none ↦ some v | some w ↦ some w ] else find j m)
  unfolding find insert
  find-insert k j v [] = ground arith
  find-insert k j v ((i, w) ∷ m) =
      ground (arith, ==_iff k j, ==_iff i k, ==_iff i j, find-insert k j v m)

  -- To take a new key out again.
  pub erase-insert : (k : K) (v : V) (m : Dict K V) → find k m ≡ none → erase k (insert k v m) ≡ m
  unfolding find insert erase
  erase-insert k v [] h = ground (arith, ==_iff k k)
  erase-insert k v ((j, w) ∷ m) h = ground (arith, ==_iff k k, ==_iff j k, erase-insert k v m)

  pub find-erase_ne : (k j : K) (m : Dict K V) → (k == j) ≡ false → find j (erase k m) ≡ find j m
  unfolding find erase
  find-erase_ne k j [] h = refl
  find-erase_ne k j ((i, w) ∷ m) h =
      ground (arith, ==_iff k j, ==_iff i k, ==_iff i j, find-erase_ne k j m)
