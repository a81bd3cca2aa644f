-- ===== src/Storage/Search/Missing.antt =====
-- What the comparisons of StorageNode/StorageNode.cpp select from sorted documents, for a value that
-- no document has.
use decentralized_cloud.Base.{
  ◌+◌, ◌<◌, ◌^◌, ◌≡◌, refl, ◌≢◌, List, [], ◌++◌, length, filter, Comparable, arith,
}
use decentralized_cloud.Storage.Order.{Ordered}
use decentralized_cloud.Storage.Search.{
  Search, found, absent, past_end, get_lower_index, get_upper_index, not_equals, less_than,
  less_than_equals, greater_than_equals, greater_than, equals,
}
use decentralized_cloud.Storage.Search.Sorted.{Ascending, reads}
use decentralized_cloud.Storage.Search.Index.{
  lower_absent_value, upper_absent_value, lower_past_end, upper_past_end,
}
use decentralized_cloud.Storage.Search.Filters.{
  is_equal, is_less, docs, sizes, none_occurs, some_less, none_less,
}
use decentralized_cloud.Storage.Search.Comparisons.{by_parts}

module _ {ℓ κ} {D : Type ℓ} {K : Type κ} (key : D → K) ⦃c : Comparable K⦄ ⦃o : Ordered K⦄ where
  -- All six comparisons end the same way.
  abbrev pub AllSelect : Search (List D) → List D → K → Type ℓ
  AllSelect result ds v =
      (equals key ds v ≡ result)
      × (not_equals key ds v ≡ result)
      × (less_than key ds v ≡ result)
      × (less_than_equals key ds v ≡ result)
      × (greater_than_equals key ds v ≡ result)
      × (greater_than key ds v ≡ result)

  all_absent :
      (ds : List D) (v : K)
      → get_lower_index key ds v ≡ absent
      → get_upper_index key ds v ≡ absent
      → AllSelect (found []) ds v
  unfolding equals not_equals less_than less_than_equals greater_than_equals greater_than
  all_absent ds v lo up = (rw lo refl, rw lo refl, rw lo refl, rw up refl, rw up refl, rw up refl)

  all_past_end :
      (ds : List D) (v : K)
      → get_lower_index key ds v ≡ past_end
      → get_upper_index key ds v ≡ past_end
      → AllSelect past_end ds v
  unfolding equals not_equals less_than less_than_equals greater_than_equals greater_than
  all_past_end ds v lo up = (rw lo refl, rw lo refl, rw lo refl, rw up refl, rw up refl, rw up refl)

  -- On at most `2 ^ 31 - 1` documents sorted by an operand, none of which has the value, but some of
  -- which are below it, every comparison selects nothing, whichever documents are above or below.
  comparisons-absent :
      (ds : List D) (v : K)
      → Ascending key ds
      → length ds < 2 ^ 31
      → filter (is_equal key v) ds ≡ []
      → filter (is_less key v) ds ≢ []
      → AllSelect (found []) ds v
  unfolding docs
  comparisons-absent ds v ascending =
      by_parts key
        (λ ds.
          length ds < 2 ^ 31
          → filter (is_equal key v) ds ≡ []
          → filter (is_less key v) ds ≢ []
          → AllSelect (found []) ds v)
        v
        (λ low same high l s h small none_equal low_docs.
          let start = some_less key low same high v l s h low_docs in
          let none = none_occurs key low same high v l s h none_equal in
          let r = reads key low same high v l s h in
          all_absent (low ++ (same ++ high)) v
            (lower_absent_value key (low ++ (same ++ high)) v (length low)
              (length low + length same) r (omega arith)
              (omega (arith, sizes key low same high v l s h)) small (omega arith) start)
            (upper_absent_value key (low ++ (same ++ high)) v (length low)
              (length low + length same) r (omega arith)
              (omega (arith, sizes key low same high v l s h)) small (omega arith) start))
        ds ascending

  -- On one to `2 ^ 31 - 1` documents sorted by an operand, all of which are above the value, the index
  -- before the first wraps around and every comparison reads past the end of the array.
  pub comparisons-past_end :
      (ds : List D) (v : K)
      → Ascending key ds
      → length ds < 2 ^ 31
      → 0 < length ds
      → filter (is_equal key v) ds ≡ []
      → filter (is_less key v) ds ≡ []
      → AllSelect past_end ds v
  unfolding docs
  comparisons-past_end ds v ascending =
      by_parts key
        (λ ds.
          length ds < 2 ^ 31
          → 0 < length ds
          → filter (is_equal key v) ds ≡ []
          → filter (is_less key v) ds ≡ []
          → AllSelect past_end ds v)
        v
        (λ low same high l s h small some none_equal no_low.
          let start = none_less key low same high v l s h no_low in
          let none = none_occurs key low same high v l s h none_equal in
          let r = reads key low same high v l s h in
          all_past_end (low ++ (same ++ high)) v
            (lower_past_end key (low ++ (same ++ high)) v (length low) (length low + length same) r
              (omega arith) (omega (arith, sizes key low same high v l s h)) small (omega arith)
              some)
            (upper_past_end key (low ++ (same ++ high)) v (length low) (length low + length same) r
              (omega arith) (omega (arith, sizes key low same high v l s h)) small (omega arith)
              some))
        ds ascending
