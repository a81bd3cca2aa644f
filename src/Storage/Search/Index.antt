-- ===== src/Storage/Search/Index.antt =====
-- What `getlowerIndex` and `getUpperIndex` of StorageNode/StorageNode.cpp return on
-- documents of which the first `lo` are below the value and those before `hi` are at most the value.
use decentralized_cloud.Base.{
  ℕ, zero, suc, ◌+◌, ◌-◌, ◌%◌, ◌≤◌, ◌<◌, ◌^◌, ◌≡◌, refl, ap, ◌∙◌, inl, inr, List, length, ltb,
  nat_beq, Bool-cases, Comparable, arith,
}
use decentralized_cloud.Storage.Order.{Ordered}
use decentralized_cloud.Storage.Search.{
  found, absent, past_end, before, after, narrow, search_in, lower_from, get_lower_index,
  upper_from, get_upper_index,
}
use decentralized_cloud.Storage.Search.Sorted.{Reads}
use decentralized_cloud.Storage.Search.Window.{search_in_miss, search_in-Hit, search_in_wrap}

module _ {ℓ κ} {D : Type ℓ} {K : Type κ} (key : D → K) ⦃c : Comparable K⦄ ⦃o : Ordered K⦄
    (docs : List D) (v : K) (lo hi : ℕ) (reads : Reads key docs v lo hi) (order : lo ≤ hi)
    (bound : hi ≤ length docs) (small : length docs < 2 ^ 31) where
  lower_absent : (fuel last : ℕ) → 0 < fuel → lower_from key fuel docs v last absent ≡ found last
  unfolding lower_from
  lower_absent zero last h = elim h [ ]
  lower_absent (suc fuel) last h = refl

  upper_absent : (fuel last : ℕ) → 0 < fuel → upper_from key fuel docs v last absent ≡ found last
  unfolding upper_from
  upper_absent zero last h = elim h [ ]
  upper_absent (suc fuel) last h = refl

  lower_step :
      (fuel b m e last : ℕ)
      → 0 < m
      → lower_from key (suc fuel) docs v last (found (b, m, e))
        ≡ lower_from key fuel docs v m (search_in key docs b (before m) v)
  unfolding lower_from
  lower_step fuel b m e last h = ground arith

  -- The loops, from a hit.
  lower_loop :
      (fuel b m e previous : ℕ)
      → m < fuel
      → lo ≤ m
      → m < hi
      → b ≤ lo
      → lower_from key fuel docs v previous (found (b, m, e)) ≡ found lo
  unfolding lower_from
  lower_loop zero b m e previous enough h1 h2 h3 = elim enough [ ]
  lower_loop (suc fuel) b m e previous enough h1 h2 h3 = elim (Bool-cases (ltb lo m)) [
    | inl more ↦
        let (first, m', last, result, h5, h6, h7, h8, h9, h10, h11, h12) =
          search_in-Hit key docs v lo hi reads order bound small b (before m) (ground arith)
            (ground arith) (ground arith) (omega arith) (omega arith) in
        lower_step fuel b m e previous (ground arith)
        ∙ ap (lower_from key fuel docs v m) result
        ∙ lower_loop fuel first m' last m (ground arith) h5 h6 (ground arith)
    | inr more ↦ elim (Bool-cases (nat_beq m 0)) [
      | inl start ↦ ground arith
      | inr start ↦
          lower_step fuel b m e previous (ground arith)
          ∙ ap (lower_from key fuel docs v m) (
              search_in_miss key docs v lo hi reads order bound small b (before m) (ground arith)
                (inl (ground arith)) (inr (ground arith)))
          ∙ lower_absent fuel m (ground arith)
          ∙ ap found (ground arith)
    ]
  ]

  upper_loop :
      (fuel b m e previous : ℕ)
      → length docs < fuel + m
      → lo ≤ m
      → m < hi
      → hi ≤ e + 1
      → e < length docs
      → upper_from key fuel docs v previous (found (b, m, e)) ≡ found (hi - 1)
  unfolding upper_from
  upper_loop zero b m e previous enough h1 h2 h3 h4 = absurd (omega arith)
  upper_loop (suc fuel) b m e previous enough h1 h2 h3 h4 = elim (Bool-cases (ltb (m + 1) hi)) [
    | inl more ↦
        let (first, m', last, result, h5, h6, h7, h8, h9, h10, h11, h12) =
          search_in-Hit key docs v lo hi reads order bound small (after m) e h4 (ground arith)
            (ground arith) (ground arith) (omega arith) in
        ap (upper_from key fuel docs v m) result
        ∙ upper_loop fuel first m' last m (ground arith) h5 h6 (ground arith) (omega arith)
    | inr more ↦
        ap (upper_from key fuel docs v m) (
          search_in_miss key docs v lo hi reads order bound small (after m) e h4
            (inr (inl (ground arith))) (inl (ground arith)))
        ∙ upper_absent fuel m (ground arith)
        ∙ ap found (ground arith)
  ]

  last_index : 0 < length docs → before (length docs % 2 ^ 32) ≡ length docs - 1
  last_index h = omega arith

  -- The results: of a value that some document has,
  pub lower_found : lo < hi → get_lower_index key docs v ≡ found lo
  unfolding get_lower_index
  lower_found h =
      let (first, m, last, result, h5, h6, h7, h8, h9, h10, h11, h12) =
        search_in-Hit key docs v lo hi reads order bound small 0 (before (length docs % 2 ^ 32))
          (omega arith) (omega arith) (omega arith) (omega arith) h in
      ap (narrow (lower_from key (suc (length docs)) docs v)) result
      ∙ (lower_loop (suc (length docs)) first m last m (omega arith) h5 h6 (ground arith))

  pub upper_found : lo < hi → get_upper_index key docs v ≡ found (hi - 1)
  unfolding get_upper_index
  upper_found h =
      let (first, m, last, result, h5, h6, h7, h8, h9, h10, h11, h12) =
        search_in-Hit key docs v lo hi reads order bound small 0 (before (length docs % 2 ^ 32))
          (omega arith) (omega arith) (omega arith) (omega arith) h in
      ap (narrow (upper_from key (suc (length docs)) docs v)) result
      ∙ (upper_loop (suc (length docs)) first m last m (omega arith) h5 h6 (ground arith)
          (omega arith))

  -- of a value that none has, but some document is below,
  missed : lo ≡ hi → 0 < lo → search_in key docs 0 (before (length docs % 2 ^ 32)) v ≡ absent
  missed h low =
      search_in_miss key docs v lo hi reads order bound small 0 (before (length docs % 2 ^ 32))
        (omega arith) (inr (inr h)) (inr low)

  pub lower_absent_value : lo ≡ hi → 0 < lo → get_lower_index key docs v ≡ absent
  unfolding get_lower_index
  lower_absent_value h low = ap (narrow (lower_from key (suc (length docs)) docs v)) (missed h low)

  pub upper_absent_value : lo ≡ hi → 0 < lo → get_upper_index key docs v ≡ absent
  unfolding get_upper_index
  upper_absent_value h low = ap (narrow (upper_from key (suc (length docs)) docs v)) (missed h low)

  -- and of one that every document is above.
  wrapped :
      hi ≡ 0 → 0 < length docs → search_in key docs 0 (before (length docs % 2 ^ 32)) v ≡ past_end
  wrapped h some =
      search_in_wrap key docs v lo hi reads order bound small (before (length docs % 2 ^ 32))
        (omega arith) h

  pub lower_past_end : hi ≡ 0 → 0 < length docs → get_lower_index key docs v ≡ past_end
  unfolding get_lower_index
  lower_past_end h low = ap (narrow (lower_from key (suc (length docs)) docs v)) (wrapped h low)

  pub upper_past_end : hi ≡ 0 → 0 < length docs → get_upper_index key docs v ≡ past_end
  unfolding get_upper_index
  upper_past_end h low = ap (narrow (upper_from key (suc (length docs)) docs v)) (wrapped h low)
