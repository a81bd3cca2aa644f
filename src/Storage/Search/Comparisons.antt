-- ===== src/Storage/Search/Comparisons.antt =====
-- What the comparisons of StorageNode/StorageNode.cpp select from sorted documents, for a value that
-- some document has, and the end of their searches.
use decentralized_cloud.Base.{
  ◌⊎◌, ◌+◌, ◌<◌, ◌^◌, ◌≡◌, sym, subst, ◌≢◌, inl, inr, true, not, List, [], ◌∷◌, ◌++◌, length,
  filter, All, ltb, Bool-cases, Comparable, arith,
}
use decentralized_cloud.Storage.Order.{Ordered}
use decentralized_cloud.Storage.Search.{
  past_end, found, unfinished, get_lower_index, get_upper_index, not_equals, less_than,
  less_than_equals, greater_than_equals, greater_than, equals,
}
use decentralized_cloud.Storage.Search.Sorted.{Ascending, Below, At, Above, parts, reads}
use decentralized_cloud.Storage.Search.Index.{lower_absent_value, upper_absent_value}
use decentralized_cloud.Storage.Search.Filters.{
  is_equal, is_less, is_greater, docs, sizes, occurs, lower, upper, equals_parts, not_equals_parts,
  less_than_parts, less_than_equals_parts, greater_than_equals_parts, greater_than_parts, some_less,
}

module _ {ℓ κ} {D : Type ℓ} {K : Type κ} (key : D → K) ⦃c : Comparable K⦄ ⦃o : Ordered K⦄ where
  -- A property of sorted documents, from their three parts.
  pub by_parts {μ} :
      (P : List D → Type μ) (v : K)
      → ((low same high : List D)
          → All (Below key v) low
          → All (At key v) same
          → All (Above key v) high
          → P (low ++ (same ++ high)))
      → (docs : List D) → Ascending key docs
      → P docs
  by_parts P v h ds ascending =
      let p = parts key ds v ascending in
      subst P (sym p.whole) (h p.low p.same p.high p.low_Below p.same_At p.high_Above)

  -- On at most `2 ^ 31 - 1` documents sorted by an operand, of which some have the value, `=`, `<>`,
  -- `<` and `<=` select exactly the documents that a linear filter with the same test selects, in order.
  pub comparisons-filter :
      (ds : List D) (v : K)
      → Ascending key ds
      → length ds < 2 ^ 31
      → filter (is_equal key v) ds ≢ []
      → (equals key ds v ≡ found (filter (is_equal key v) ds))
        × (not_equals key ds v ≡ found (filter (λ d. not (is_equal key v d)) ds))
        × (less_than key ds v ≡ found (filter (is_less key v) ds))
        × (less_than_equals key ds v ≡ found (filter (λ d. not (is_greater key v d)) ds))
  unfolding docs
  comparisons-filter ds v ascending =
      by_parts
        (λ ds.
          length ds < 2 ^ 31
          → filter (is_equal key v) ds ≢ []
          → (equals key ds v ≡ found (filter (is_equal key v) ds))
            × (not_equals key ds v ≡ found (filter (λ d. not (is_equal key v d)) ds))
            × (less_than key ds v ≡ found (filter (is_less key v) ds))
            × (less_than_equals key ds v ≡ found (filter (λ d. not (is_greater key v d)) ds)))
        v
        (λ low same high l s h small occurring.
          let positive = occurs key low same high v l s h occurring in
          (
            equals_parts key low same high v l s h small positive,
            not_equals_parts key low same high v l s h small positive,
            less_than_parts key low same high v l s h small positive,
            less_than_equals_parts key low same high v l s h small positive,
          ))
        ds ascending

  -- On at most `2 ^ 31 - 1` documents sorted by an operand, of which some have the value, `>=` selects
  -- one document with the value, followed by those above it; `>` selects nothing if no document is
  -- above the value, and otherwise the same documents as `>=`, the one with the value included.
  pub greater_than-greater_than_equals :
      (ds : List D) (v : K)
      → Ascending key ds
      → length ds < 2 ^ 31
      → filter (is_equal key v) ds ≢ []
      → ((d : D) × (is_equal key v d ≡ true)
          × (greater_than_equals key ds v ≡ found (d ∷ filter (is_greater key v) ds)))
        × (filter (is_greater key v) ds ≡ [] → greater_than key ds v ≡ found [])
        × (filter (is_greater key v) ds ≢ [] → greater_than key ds v ≡ greater_than_equals key ds v)
  unfolding docs
  greater_than-greater_than_equals ds v ascending =
      by_parts
        (λ ds.
          length ds < 2 ^ 31
          → filter (is_equal key v) ds ≢ []
          → ((d : D) × (is_equal key v d ≡ true)
              × (greater_than_equals key ds v ≡ found (d ∷ filter (is_greater key v) ds)))
            × (filter (is_greater key v) ds ≡ [] → greater_than key ds v ≡ found [])
            × (filter (is_greater key v) ds ≢ []
                → greater_than key ds v ≡ greater_than_equals key ds v))
        v
        (λ low same high l s h small occurring.
          let positive = occurs key low same high v l s h occurring in
          let (none_above, some_above) =
            greater_than_parts key low same high v l s h small positive in
          (
            greater_than_equals_parts key low same high v l s h small positive,
            none_above,
            some_above,
          ))
        ds ascending

  -- On at most `2 ^ 31 - 1` documents sorted by an operand, of which some have the value or are below it,
  -- both index searches finish without a read past the end of the array: the loops and the recursion
  -- need no more steps than there are documents, and two.
  pub indices-finish :
      (ds : List D) (v : K)
      → Ascending key ds
      → length ds < 2 ^ 31
      → (filter (is_less key v) ds ≢ []) ⊎ (filter (is_equal key v) ds ≢ [])
      → (get_lower_index key ds v ≢ unfinished)
        × (get_lower_index key ds v ≢ past_end)
        × (get_upper_index key ds v ≢ unfinished)
        × (get_upper_index key ds v ≢ past_end)
  unfolding docs
  indices-finish ds v ascending =
      by_parts
        (λ ds.
          length ds < 2 ^ 31
          → (filter (is_less key v) ds ≢ []) ⊎ (filter (is_equal key v) ds ≢ [])
          → (get_lower_index key ds v ≢ unfinished)
            × (get_lower_index key ds v ≢ past_end)
            × (get_upper_index key ds v ≢ unfinished)
            × (get_upper_index key ds v ≢ past_end))
        v
        (λ low same high l s h small some. elim (Bool-cases (ltb 0 (length same))) [
          | inl occurring ↦
              let lo = lower key low same high v l s h small (ground arith) in
              let up = upper key low same high v l s h small (ground arith) in
              (λ e. cc, λ e. cc, λ e. cc, λ e. cc)
          | inr none ↦
              let start : 0 < length low = elim some [
                | inl below ↦ some_less key low same high v l s h below
                | inr at ↦
                    let there = occurs key low same high v l s h at in ground (arith, none, there)
              ] in
              let r = reads key low same high v l s h in
              let total = sizes key low same high v l s h in
              let lo =
                lower_absent_value key (low ++ (same ++ high)) v (length low)
                  (length low + length same) r (omega arith) (omega (arith, total)) small
                  (ground arith) start in
              let up =
                upper_absent_value key (low ++ (same ++ high)) v (length low)
                  (length low + length same) r (omega arith) (omega (arith, total)) small
                  (ground arith) start in
              (λ e. cc, λ e. cc, λ e. cc, λ e. cc)
        ])
        ds ascending
