-- ===== src/Storage/Search/Sorted.antt =====
-- Sorted documents in three parts, below, at and above a value, and one step of `getSearchIndex`
-- (StorageNode/StorageNode.cpp) in each of them.
use decentralized_cloud.Base.{
  ℕ, zero, suc, ◌+◌, ◌<◌, ◌≡◌, refl, ap, subst, ◌⊎◌, inl, inr, true, false, some, ◌&&◌, List, [],
  ◌∷◌, ◌++◌, length, get_elem?, All, All-imp, leb, ltb, Bool-cases, Comparable, ◌==◌, ==_iff, arith,
}
use decentralized_cloud.Storage.Order.{Ordered}

module _ {ℓ κ} {D : Type ℓ} {K : Type κ} (key : D → K) ⦃c : Comparable K⦄ ⦃o : Ordered K⦄ where
  -- No document stands after one with a greater key.
  abbrev pub Ascending : List D → Type 0
  Ascending [] = Unit {0}
  Ascending (d ∷ docs) = All (λ later. o.less (key later) (key d) ≡ false) docs × Ascending docs

  abbrev pub Below : K → D → Type 0
  Below v d = o.less (key d) v ≡ true

  abbrev pub At : K → D → Type 0
  At v d = (key d == v) ≡ true

  abbrev pub Above : K → D → Type 0
  Above v d = o.less v (key d) ≡ true

  pub record Parts (docs : List D) (v : K) : Type ℓ where
    pub low : List D
    pub same : List D
    pub high : List D
    pub whole : docs ≡ low ++ (same ++ high)
    pub low_Below : All (Below v) low
    pub same_At : All (At v) same
    pub high_Above : All (Above v) high

  position : (d : D) (v : K) → Below v d ⊎ (At v d ⊎ Above v d)
  position d v = elim (Bool-cases (o.less (key d) v)) [
    | inl below ↦ inl below
    | inr below ↦ elim (Bool-cases (o.less v (key d))) [
      | inl above ↦ inr (inr above)
      | inr above ↦ inr (inl ((==_iff (key d) v).1 (o.less_connected (key d) v below above)))
    ]
  ]

  later-Above :
      (v : K) (d : D) (docs : List D)
      → Above v d
      → All (λ later. o.less (key later) (key d) ≡ false) docs
      → All (Above v) docs
  later-Above v d docs above =
      All-imp
        (λ e later. elim (Bool-cases (o.less (key d) (key e))) [
          | inl between ↦ o.less_trans v (key d) (key e) above between
          | inr between ↦
              subst (λ k. o.less v k ≡ true) (o.less_connected (key d) (key e) between later) above
        ])
        docs

  -- Documents none of which is below the value.
  parts_from :
      (docs : List D) (v : K)
      → Ascending docs
      → All (λ d. o.less (key d) v ≡ false) docs
      → (same : List D) × (high : List D) × (docs ≡ same ++ high)
        × All (At v) same
        × All (Above v) high
  parts_from [] v h none_below = ([], [], refl, tt, tt)
  parts_from (d ∷ docs) v h none_below = elim (position d v) [
    | inl below ↦ cc
    | inr (inl at) ↦
        let (same, high, whole, same_At, high_Above) = parts_from docs v h.1 none_below.1 in
        (d ∷ same, high, ap (λ xs. d ∷ xs) whole, (at, same_At), high_Above)
    | inr (inr above) ↦ ([], d ∷ docs, refl, tt, (above, later-Above v d docs above h.0))
  ]

  pub parts : (docs : List D) (v : K) → Ascending docs → Parts docs v
  parts [] v h = record {
    low = [];
    same = [];
    high = [];
    whole = refl;
    low_Below = tt;
    same_At = tt;
    high_Above = tt;
  }
  parts (d ∷ docs) v h = elim (position d v) [
    | inl below ↦
        let rest = parts docs v h.1 in
        record {
          low = d ∷ rest.low;
          same = rest.same;
          high = rest.high;
          whole = ap (λ xs. d ∷ xs) rest.whole;
          low_Below = (below, rest.low_Below);
          same_At = rest.same_At;
          high_Above = rest.high_Above;
        }
    | inr (inl at) ↦
        let key_of : key d ≡ v = (==_iff (key d) v).0 at in
        let (same, high, whole, same_At, high_Above) =
          parts_from docs v h.1
            (subst (λ k. All (λ e. o.less (key e) k ≡ false) docs) key_of h.0) in
        record {
          low = [];
          same = d ∷ same;
          high = high;
          whole = ap (λ xs. d ∷ xs) whole;
          low_Below = tt;
          same_At = (at, same_At);
          high_Above = high_Above;
        }
    | inr (inr above) ↦ record {
      low = [];
      same = [];
      high = d ∷ docs;
      whole = refl;
      low_Below = tt;
      same_At = tt;
      high_Above = (above, later-Above v d docs above h.0);
    }
  ]

  -- What a read at an index finds, from the lengths of the first two parts.
  abbrev pub Reads : List D → K → ℕ → ℕ → Type ℓ
  Reads docs v lo hi =
      (i : ℕ)
      → i < length docs
      → (d : D) × (get_elem? docs i ≡ some d)
        × ((key d == v) ≡ (leb lo i && ltb i hi))
        × (o.less v (key d) ≡ leb hi i)

  -- The other tests on a document of each part.
  pub tests-Below :
      (v : K) (d : D) → Below v d → ((key d == v) ≡ false) × (o.less v (key d) ≡ false)
  tests-Below v d below =
      ground (arith, ==_iff (key d) v, o.less_irreflexive v, o.less_trans v (key d) v)

  pub tests-At : (v : K) (d : D) → At v d → (o.less (key d) v ≡ false) × (o.less v (key d) ≡ false)
  tests-At v d at = ground (arith, ==_iff (key d) v, o.less_irreflexive v)

  pub tests-Above :
      (v : K) (d : D) → Above v d → ((key d == v) ≡ false) × (o.less (key d) v ≡ false)
  tests-Above v d above =
      ground (arith, ==_iff (key d) v, o.less_irreflexive v, o.less_trans v (key d) v)

  pub reads :
      (low same high : List D) (v : K)
      → All (Below v) low
      → All (At v) same
      → All (Above v) high
      → Reads (low ++ (same ++ high)) v (length low) (length low + length same)
  reads (d ∷ low) same high v l s h zero bound =
      let (not_at, not_above) = tests-Below v d l.0 in
      (d, refl, ground (arith, not_at), ground (arith, not_above))
  reads (d ∷ low) same high v l s h (suc i) bound =
      let (e, read, at, above) = reads low same high v l.1 s h i (omega arith) in
      (e, read, ground (arith, at), ground (arith, above))
  reads [] (d ∷ same) high v l s h zero bound =
      (d, refl, ground (arith, s.0), ground (arith, tests-At v d s.0))
  reads [] (d ∷ same) high v l s h (suc i) bound =
      let (e, read, at, above) = reads [] same high v l s.1 h i (omega arith) in
      (e, read, ground (arith, at), ground (arith, above))
  reads [] [] (d ∷ high) v l s h zero bound =
      (d, refl, ground (arith, tests-Above v d h.0), ground (arith, h.0))
  reads [] [] (d ∷ high) v l s h (suc i) bound =
      let (e, read, at, above) = reads [] [] high v l s h.1 i (omega arith) in
      (e, read, ground (arith, at), ground (arith, above))
  reads [] [] [] v l s h i bound = elim bound [ ]
