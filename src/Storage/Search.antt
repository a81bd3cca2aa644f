-- ===== src/Storage/Search.antt =====
-- The searches of StorageNode/StorageNode.cpp in documents sorted by an operand: `getSearchIndex`,
-- `getlowerIndex`, `getUpperIndex` and the comparisons that use them. `key d` is `d[operand]`.
pub mod Sorted
pub mod Window
pub mod Index
pub mod Filters
pub mod Comparisons
pub mod Missing
use decentralized_cloud.Base.{
  ℕ, zero, suc, ◌+◌, ◌-◌, ◌/◌, ◌%◌, ◌^◌, Bool, true, false, none, some, List, [], ◌++◌, length,
  get_elem?, take, drop, ltb, nat_beq, if◌then◌else◌, Comparable, ◌==◌, arith,
}
use decentralized_cloud.Storage.Order.{Ordered}

-- What a search ends with: `boost::none` (or -1) is `absent`. `past_end` is a read after the last
-- element of the array, which nlohmann's `operator[]` answers by filling the array with nulls up to
-- that index; the comparison goes no further here. `unfinished` means that fuel is missing.
pub data Search {ℓ} (A : Type ℓ) : Type ℓ where
  found : A → Search A
  absent past_end unfinished : Search A

-- `i - 1` and `i + 1` on `uint32`.
abbrev pub before : ℕ → ℕ
before i = (i + 2 ^ 32 - 1) % 2 ^ 32

abbrev pub after : ℕ → ℕ
after i = (i + 1) % 2 ^ 32

-- The elements of a search with a result; `absent` selects nothing.
abbrev pub select {ℓ κ} : {A : Type ℓ} {D : Type κ} → Search A → (A → List D) → Search (List D)
select (found a) f = found (f a)
select absent f = found []
select past_end f = past_end
select unfinished f = unfinished

-- The elements of two searches, the second made when the first has a result.
abbrev pub between {κ} : {D : Type κ} → Search ℕ → Search ℕ → (ℕ → ℕ → List D) → Search (List D)
between (found first) last f = select last (f first)
between absent last f = found []
between past_end last f = past_end
between unfinished last f = unfinished

-- Goes on with a search that has found a document, from there.
abbrev pub narrow : (ℕ → Search (ℕ × ℕ × ℕ) → Search ℕ) → Search (ℕ × ℕ × ℕ) → Search ℕ
narrow loop (found (b, m, e)) = loop m (found (b, m, e))
narrow loop absent = absent
narrow loop past_end = past_end
narrow loop unfinished = unfinished

module _ {ℓ κ} {D : Type ℓ} {K : Type κ} (key : D → K) ⦃c : Comparable K⦄ ⦃o : Ordered K⦄ where
  unfoldable pub get_search_index : ℕ → List D → ℕ → ℕ → K → Search (ℕ × ℕ × ℕ)
  get_search_index zero docs begin_index end_index value = unfinished
  get_search_index (suc fuel) docs begin_index end_index value =
      let middle = begin_index + (end_index - begin_index) / 2 in
      elim (ltb end_index begin_index) [
        | true ↦ absent
        | false ↦ elim (get_elem? docs middle) [
          | none ↦ past_end
          | some d ↦ elim (key d == value) [
            | true ↦ found (begin_index, middle, end_index)
            | false ↦ elim (o.less value (key d)) [
              | true ↦ get_search_index fuel docs begin_index (before middle) value
              | false ↦ get_search_index fuel docs (after middle) end_index value
            ]
          ]
        ]
      ]

  -- A search in a part of the documents, with fuel for all of them.
  unfoldable pub search_in : List D → ℕ → ℕ → K → Search (ℕ × ℕ × ℕ)
  unfolding get_search_index
  search_in docs = get_search_index (suc (length docs)) docs

  -- The loop of `getlowerIndex`, from its result so far.
  unfoldable pub lower_from : ℕ → List D → K → ℕ → Search (ℕ × ℕ × ℕ) → Search ℕ
  unfolding search_in
  lower_from zero docs value last result = unfinished
  lower_from (suc fuel) docs value last absent = found last
  lower_from (suc fuel) docs value last past_end = past_end
  lower_from (suc fuel) docs value last unfinished = unfinished
  lower_from (suc fuel) docs value last (found (b, m, e)) = elim (nat_beq m 0) [
    | true ↦ found m
    | false ↦ lower_from fuel docs value m (search_in docs b (before m) value)
  ]

  unfoldable pub get_lower_index : List D → K → Search ℕ
  unfolding search_in lower_from
  get_lower_index docs value =
      narrow (lower_from (suc (length docs)) docs value)
        (search_in docs 0 (before (length docs % 2 ^ 32)) value)

  -- The loop of `getUpperIndex`.
  unfoldable pub upper_from : ℕ → List D → K → ℕ → Search (ℕ × ℕ × ℕ) → Search ℕ
  unfolding search_in
  upper_from zero docs value last result = unfinished
  upper_from (suc fuel) docs value last absent = found last
  upper_from (suc fuel) docs value last past_end = past_end
  upper_from (suc fuel) docs value last unfinished = unfinished
  upper_from (suc fuel) docs value last (found (b, m, e)) =
      upper_from fuel docs value m (search_in docs (after m) e value)

  unfoldable pub get_upper_index : List D → K → Search ℕ
  unfolding search_in upper_from
  get_upper_index docs value =
      narrow (upper_from (suc (length docs)) docs value)
        (search_in docs 0 (before (length docs % 2 ^ 32)) value)

  unfoldable pub not_equals : List D → K → Search (List D)
  unfolding get_lower_index get_upper_index
  not_equals docs value =
      between (get_lower_index docs value) (get_upper_index docs value)
        (λ first last. take first docs ++ drop (last + 1) docs)

  unfoldable pub less_than : List D → K → Search (List D)
  unfolding get_lower_index
  less_than docs value = select (get_lower_index docs value) (λ first. take first docs)

  unfoldable pub less_than_equals : List D → K → Search (List D)
  unfolding get_upper_index
  less_than_equals docs value = select (get_upper_index docs value) (λ last. take (last + 1) docs)

  unfoldable pub greater_than_equals : List D → K → Search (List D)
  unfolding get_upper_index
  greater_than_equals docs value = select (get_upper_index docs value) (λ last. drop last docs)

  unfoldable pub greater_than : List D → K → Search (List D)
  unfolding get_upper_index
  greater_than docs value =
      select (get_upper_index docs value)
        (λ last. if nat_beq (last + 1) (length docs) then [] else drop last docs)

  unfoldable pub equals : List D → K → Search (List D)
  unfolding get_lower_index get_upper_index
  equals docs value =
      between (get_lower_index docs value) (get_upper_index docs value)
        (λ first last. take (last + 1 - first) (drop first docs))
