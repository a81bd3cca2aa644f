-- ===== src/Storage/Search/Window.antt =====
-- What `getSearchIndex` of StorageNode/StorageNode.cpp finds in a part of documents of which the first
-- `lo` are below the value and those before `hi` are at most the value.
use decentralized_cloud.Base.{
  ℕ, zero, suc, ◌+◌, ◌-◌, ◌/◌, ◌≤◌, ◌<◌, ◌^◌, ◌≡◌, refl, subst, ◌∙◌, ◌⊎◌, inl, inr, none, List,
  length, get_elem?, get_elem?-of_ge, ltb, Bool-cases, Comparable, arith,
}
use decentralized_cloud.Storage.Order.{Ordered}
use decentralized_cloud.Storage.Search.{
  Search, found, absent, past_end, before, get_search_index, search_in,
}
use decentralized_cloud.Storage.Search.Sorted.{Reads}

module _ {ℓ κ} {D : Type ℓ} {K : Type κ} (key : D → K) ⦃c : Comparable K⦄ ⦃o : Ordered K⦄
    (docs : List D) (v : K) (lo hi : ℕ) (reads : Reads key docs v lo hi) (order : lo ≤ hi)
    (bound : hi ≤ length docs) (small : length docs < 2 ^ 31) where
  -- One step of the search, by the part in which the middle lies.
  step_absent : (fuel b e : ℕ) → e < b → get_search_index key (suc fuel) docs b e v ≡ absent
  unfolding get_search_index
  step_absent fuel b e h = ground arith

  step_low :
      (fuel b e : ℕ)
      → b ≤ e
      → b + (e - b) / 2 < lo
      → get_search_index key (suc fuel) docs b e v
        ≡ get_search_index key fuel docs (b + (e - b) / 2 + 1) e v
  unfolding get_search_index
  step_low fuel b e h low = ground (arith, reads (b + (e - b) / 2) (omega arith))

  step_found :
      (fuel b e : ℕ)
      → b ≤ e
      → lo ≤ b + (e - b) / 2
      → b + (e - b) / 2 < hi
      → get_search_index key (suc fuel) docs b e v ≡ found (b, b + (e - b) / 2, e)
  unfolding get_search_index
  step_found fuel b e h low high = ground (arith, reads (b + (e - b) / 2) (omega arith))

  step_high :
      (fuel b e : ℕ)
      → b ≤ e
      → e < length docs
      → hi ≤ b + (e - b) / 2
      → get_search_index key (suc fuel) docs b e v
        ≡ get_search_index key fuel docs b (before (b + (e - b) / 2)) v
  unfolding get_search_index
  step_high fuel b e h low high = ground (arith, reads (b + (e - b) / 2) (omega arith))

  -- A window that holds a document with the value.
  abbrev Hit : ℕ → ℕ → Search (ℕ × ℕ × ℕ) → Type 0
  Hit b e result =
      (first : ℕ) × (m : ℕ) × (last : ℕ) × (result ≡ found (first, m, last))
      × (lo ≤ m)
      × (m < hi)
      × (first ≤ m)
      × (m ≤ last)
      × (b ≤ first)
      × (last ≤ e)
      × ((first ≡ b) ⊎ (first ≤ lo))
      × ((last ≡ e) ⊎ (hi ≤ last + 1))

  search-Hit :
      (fuel b e : ℕ)
      → e + 1 < fuel + b
      → e < length docs
      → b ≤ e
      → lo ≤ e
      → b < hi
      → lo < hi
      → Hit b e (get_search_index key fuel docs b e v)
  search-Hit zero b e enough inside h1 h2 h3 h4 = absurd (omega arith)
  search-Hit (suc fuel) b e enough inside h1 h2 h3 h4 =
      elim (Bool-cases (ltb (b + (e - b) / 2) lo)) [
        | inl low ↦
            let (first, m, last, result, h5, h6, h7, h8, h9, h10, h11, h12) =
              search-Hit fuel (b + (e - b) / 2 + 1) e (ground arith) inside (ground arith) h2
                (ground arith) h4 in
            (
              first,
              m,
              last,
              step_low fuel b e h1 (ground arith) ∙ result,
              h5,
              h6,
              h7,
              h8,
              omega arith,
              ground arith,
              ground arith,
              ground arith,
            )
        | inr low ↦ elim (Bool-cases (ltb (b + (e - b) / 2) hi)) [
          | inl high ↦ (
            b,
            b + (e - b) / 2,
            e,
            step_found fuel b e h1 (ground arith) (ground arith),
            ground arith,
            ground arith,
            omega arith,
            omega arith,
            omega arith,
            omega arith,
            inl refl,
            inl refl,
          )
          | inr high ↦
              let (first, m, last, result, h5, h6, h7, h8, h9, h10, h11, h12) =
                search-Hit fuel b (before (b + (e - b) / 2)) (ground arith) (ground arith)
                  (ground arith) (ground arith) h3 h4 in
              (
                first,
                m,
                last,
                step_high fuel b e h1 inside (ground arith) ∙ result,
                h5,
                h6,
                h7,
                h8,
                omega arith,
                ground arith,
                ground arith,
                ground arith,
              )
        ]
      ]

  -- A window without such a document, not before the first document of all.
  search_miss :
      (fuel b e : ℕ)
      → 0 < fuel
      → e + 1 < fuel + b
      → e < length docs
      → (e < lo) ⊎ ((hi ≤ b) ⊎ (lo ≡ hi))
      → (0 < b) ⊎ (0 < lo)
      → get_search_index key fuel docs b e v ≡ absent
  search_miss zero b e positive enough inside apart start = elim positive [ ]
  search_miss (suc fuel) b e positive enough inside apart start = elim (Bool-cases (ltb e b)) [
    | inl none_left ↦ step_absent fuel b e (ground arith)
    | inr some_left ↦ elim (Bool-cases (ltb (b + (e - b) / 2) lo)) [
      | inl low ↦
          step_low fuel b e (ground arith) (ground arith)
          ∙ search_miss fuel (b + (e - b) / 2 + 1) e (ground arith) (ground arith) inside
              (ground arith) (inl (omega arith))
      | inr low ↦
          step_high fuel b e (ground arith) inside (ground arith)
          ∙ search_miss fuel b (before (b + (e - b) / 2)) (ground arith) (ground arith)
              (ground arith) (ground arith) start
    ]
  ]

  past : (i : ℕ) → length docs ≤ i → get_elem? docs i ≡ none
  past i = get_elem?-of_ge docs i

  step_past : (fuel : ℕ) → get_search_index key (suc fuel) docs 0 (2 ^ 32 - 1) v ≡ past_end
  unfolding get_search_index
  step_past fuel = ground (arith, past (2 ^ 31 - 1) (omega arith))

  -- Every document is above the value: the search runs past the array's end.
  search_wrap :
      (fuel e : ℕ)
      → e + 1 < fuel
      → e < length docs
      → hi ≡ 0
      → get_search_index key fuel docs 0 e v ≡ past_end
  search_wrap zero e enough inside low = elim enough [ ]
  search_wrap (suc zero) e enough inside low = absurd (omega arith)
  search_wrap (suc (suc fuel)) e enough inside low =
      step_high (suc fuel) 0 e (omega arith) inside (omega arith) ∙ elim (Bool-cases (ltb e 2)) [
        | inl first ↦
            subst (λ i. get_search_index key (suc fuel) docs 0 i v ≡ past_end) (ground arith)
              (step_past fuel)
        | inr first ↦
            search_wrap (suc fuel) (before (0 + (e - 0) / 2)) (ground arith) (ground arith) low
      ]

  pub search_in_miss :
      (b e : ℕ)
      → e < length docs
      → (e < lo) ⊎ ((hi ≤ b) ⊎ (lo ≡ hi))
      → (0 < b) ⊎ (0 < lo)
      → search_in key docs b e v ≡ absent
  unfolding search_in
  search_in_miss b e inside = search_miss (suc (length docs)) b e (omega arith) (omega arith) inside

  pub search_in-Hit :
      (b e : ℕ)
      → e < length docs
      → b ≤ e
      → lo ≤ e
      → b < hi
      → lo < hi
      → Hit b e (search_in key docs b e v)
  unfolding search_in
  search_in-Hit b e inside = search-Hit (suc (length docs)) b e (omega arith) inside

  pub search_in_wrap : (e : ℕ) → e < length docs → hi ≡ 0 → search_in key docs 0 e v ≡ past_end
  unfolding search_in
  search_in_wrap e inside = search_wrap (suc (length docs)) e (omega arith) inside
