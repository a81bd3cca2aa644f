-- ===== src/Storage/Search/Filters.antt =====
-- The comparisons of StorageNode/StorageNode.cpp against filters of the same documents.
use decentralized_cloud.Base.{
  ℕ, ◌+◌, ◌-◌, ◌<◌, ◌^◌, ◌≡◌, refl, sym, ap, ◌∙◌, ◌≢◌, Bool, true, false, not, List, [], ◌∷◌, ◌++◌,
  length, length-append, length_pos, take, drop, filter, filter-append, filter-uniform, take-append,
  drop_to_last, drop-append_more, drop-append, All, All-imp, nat_beq, if◌then◌else◌, Comparable,
  ◌==◌, arith,
}
use mathlib.Core.List.{append_assoc, append-nil}
use decentralized_cloud.Storage.Order.{Ordered}
use decentralized_cloud.Storage.Search.{
  found, get_lower_index, get_upper_index, not_equals, less_than, less_than_equals,
  greater_than_equals, greater_than, equals,
}
use decentralized_cloud.Storage.Search.Sorted.{
  Below, At, Above, reads, tests-Below, tests-At, tests-Above,
}
use decentralized_cloud.Storage.Search.Index.{lower_found, upper_found}

module _ {ℓ κ} {D : Type ℓ} {K : Type κ} (key : D → K) ⦃c : Comparable K⦄ ⦃o : Ordered K⦄ where
  -- The tests on a document that the comparisons stand for.
  abbrev pub is_equal : K → D → Bool
  is_equal v d = key d == v

  abbrev pub is_less : K → D → Bool
  is_less v d = o.less (key d) v

  abbrev pub is_greater : K → D → Bool
  is_greater v d = o.less v (key d)

  module _ (low same high : List D) (v : K) (l : All (Below key v) low) (s : All (At key v) same)
      (h : All (Above key v) high) where
    unfoldable pub docs : List D
    docs = low ++ (same ++ high)

    -- A filter that takes or leaves each of the three parts as a whole.
    filter_parts :
        (p : D → Bool) (b c d : Bool)
        → ((x : D) → Below key v x → p x ≡ b)
        → ((x : D) → At key v x → p x ≡ c)
        → ((x : D) → Above key v x → p x ≡ d)
        → filter p docs
          ≡ (if b then low else []) ++ ((if c then same else []) ++ (if d then high else []))
    unfolding docs
    filter_parts p b c d below at above =
        filter-append p low (same ++ high)
        ∙ ap (λ xs. filter p low ++ xs) (filter-append p same high)
        ∙ rw
            (
              filter-uniform p b low (All-imp below low l),
              filter-uniform p c same (All-imp at same s),
              filter-uniform p d high (All-imp above high h),
            )
            refl

    equal_docs : filter (is_equal v) docs ≡ same ++ []
    equal_docs =
        filter_parts (is_equal v) false true false (λ x b. (tests-Below key v x b).0) (λ x a. a)
          (λ x a. (tests-Above key v x a).0)

    not_equal_docs : filter (λ d. not (is_equal v d)) docs ≡ low ++ high
    not_equal_docs =
        filter_parts (λ d. not (is_equal v d)) true false true
          (λ x b. ap not (tests-Below key v x b).0) (λ x a. ap not a)
          (λ x a. ap not (tests-Above key v x a).0)

    less_docs : filter (is_less v) docs ≡ low ++ []
    less_docs =
        filter_parts (is_less v) true false false (λ x b. b) (λ x a. (tests-At key v x a).0)
          (λ x a. (tests-Above key v x a).1)

    greater_docs : filter (is_greater v) docs ≡ high
    greater_docs =
        filter_parts (is_greater v) false false true (λ x b. (tests-Below key v x b).1)
          (λ x a. (tests-At key v x a).1) (λ x a. a)

    not_greater_docs : filter (λ d. not (is_greater v d)) docs ≡ low ++ (same ++ [])
    not_greater_docs =
        filter_parts (λ d. not (is_greater v d)) true true false
          (λ x b. ap not (tests-Below key v x b).1) (λ x a. ap not (tests-At key v x a).1)
          (λ x a. ap not a)

    pub sizes : length docs ≡ length low + (length same + length high)
    unfolding docs
    sizes = length-append low (same ++ high) ∙ ap (λ n. length low + n) (length-append same high)

    front : take (length low + length same) docs ≡ low ++ same
    unfolding docs
    front =
        rw (sym (append_assoc low same high), sym (length-append low same))
          (take-append (low ++ same) high)

    back : drop (length low + length same) docs ≡ high
    unfolding docs
    back =
        rw (sym (append_assoc low same high), sym (length-append low same))
          (drop-append (low ++ same) high)

    first : take (length low) docs ≡ low
    unfolding docs
    first = take-append low (same ++ high)

    rest : drop (length low) docs ≡ same ++ high
    unfolding docs
    rest = drop-append low (same ++ high)

    last_drop : (n : ℕ) → drop (length low + n) docs ≡ drop n (same ++ high)
    unfolding docs
    last_drop n = drop-append_more n low (same ++ high)

    pub occurs : filter (is_equal v) docs ≢ [] → 0 < length same
    occurs h = length_pos same (λ none. h (equal_docs ∙ append-nil same ∙ none))

    pub none_occurs : filter (is_equal v) docs ≡ [] → length same ≡ 0
    none_occurs h = ap length (sym (equal_docs ∙ append-nil same) ∙ h)

    pub none_less : filter (is_less v) docs ≡ [] → length low ≡ 0
    none_less h = ap length (sym (less_docs ∙ append-nil low) ∙ h)

    pub some_less : filter (is_less v) docs ≢ [] → 0 < length low
    some_less h = length_pos low (λ none. h (less_docs ∙ append-nil low ∙ none))

    module _ (small : length docs < 2 ^ 31) (positive : 0 < length same) where
      pub lower : get_lower_index key docs v ≡ found (length low)
      unfolding docs
      lower =
          lower_found key docs v (length low) (length low + length same)
            (reads key low same high v l s h) (omega arith) (omega (arith, sizes)) small
            (omega arith)

      pub upper : get_upper_index key docs v ≡ found (length low + length same - 1)
      unfolding docs
      upper =
          upper_found key docs v (length low) (length low + length same)
            (reads key low same high v l s h) (omega arith) (omega (arith, sizes)) small
            (omega arith)

      last_same : length low + length same - 1 + 1 ≡ length low + length same
      last_same = omega arith

      pub equals_parts : equals key docs v ≡ found (filter (is_equal v) docs)
      unfolding equals
      equals_parts =
          rw (lower, upper)
            (ap (λ n. found (take n (drop (length low) docs))) (omega arith)
              ∙ ap found (
                  ap (take (length same)) rest
                  ∙ take-append same high
                  ∙ sym (equal_docs ∙ append-nil same)))

      pub not_equals_parts : not_equals key docs v ≡ found (filter (λ d. not (is_equal v d)) docs)
      unfolding not_equals
      not_equals_parts =
          rw (lower, upper)
            (ap (λ n. found (take (length low) docs ++ drop n docs)) last_same
              ∙ ap found (rw (back, first) (sym not_equal_docs)))

      pub less_than_parts : less_than key docs v ≡ found (filter (is_less v) docs)
      unfolding less_than
      less_than_parts = rw lower (ap found (first ∙ sym (less_docs ∙ append-nil low)))

      pub less_than_equals_parts :
          less_than_equals key docs v ≡ found (filter (λ d. not (is_greater v d)) docs)
      unfolding less_than_equals
      less_than_equals_parts = rw upper (
          ap (λ n. found (take n docs)) last_same
          ∙ ap found (front ∙ sym (not_greater_docs ∙ ap (λ xs. low ++ xs) (append-nil same))))

      pub greater_than_equals_parts :
          (d : D) × (At key v d)
          × (greater_than_equals key docs v ≡ found (d ∷ filter (is_greater v) docs))
      unfolding greater_than_equals
      greater_than_equals_parts =
          let (d, at, left) = drop_to_last (length same - 1) same high (omega arith) s in
          (
            d,
            at,
            rw upper (
                ap (λ n. found (drop n docs)) (omega arith)
                ∙ ap found
                    (last_drop (length same - 1) ∙ left ∙ ap (λ xs. d ∷ xs) (sym greater_docs))),
          )

      pub greater_than_parts :
          (filter (is_greater v) docs ≡ [] → greater_than key docs v ≡ found [])
          × (filter (is_greater v) docs ≢ []
              → greater_than key docs v ≡ greater_than_equals key docs v)
      unfolding greater_than greater_than_equals
      greater_than_parts = (
        λ none.
            let empty : length high ≡ 0 = ap length (sym greater_docs ∙ none) in
            let test : nat_beq (length low + length same - 1 + 1) (length docs) ≡ true =
              ground (arith, sizes) in
            rw (upper, test) refl,
        λ some_greater.
            let more : 0 < length high =
              length_pos high (λ none. some_greater (greater_docs ∙ none)) in
            let test : nat_beq (length low + length same - 1 + 1) (length docs) ≡ false =
              ground (arith, sizes) in
            rw (upper, test) refl,
      )
