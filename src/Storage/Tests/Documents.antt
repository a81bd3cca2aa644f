-- ===== src/Storage/Tests/Documents.antt =====
-- Documents sorted by name, and what the comparisons select from them.
use decentralized_cloud.Base.{
  inl, ℕ, ◌≡◌, refl, ◌≢◌, true, not, List, [], ◌∷◌, Text, codes, text_eq, arith,
}
use decentralized_cloud.Base.Lists.{filter}
use decentralized_cloud.Base.Class.{text_beq}
use decentralized_cloud.Storage.Order.{text_less, text_ordered}
use decentralized_cloud.Storage.Search.{
  found, past_end, unfinished, get_lower_index, get_upper_index, not_equals, less_than,
  less_than_equals, greater_than_equals, greater_than, equals,
}
use decentralized_cloud.Storage.Search.Sorted.{Ascending}
use decentralized_cloud.Storage.Search.Filters.{is_equal, is_less, is_greater}
use decentralized_cloud.Storage.Search.Comparisons.{
  comparisons-filter, greater_than-greater_than_equals, indices-finish,
}
use decentralized_cloud.Storage.Search.Missing.{AllSelect, comparisons-past_end}

-- A document: its id and its name.
abbrev Document : Type 0
Document = ℕ × Text

abbrev name : Document → Text
name d = d.1

abbrev people : List Document
people = (1, codes "ann") ∷ (2, codes "bob") ∷ (3, codes "bob") ∷ (4, codes "eve") ∷ []

people-Ascending : Ascending name people
unfolding text_less
people-Ascending = ((refl, (refl, (refl, tt))), ((refl, (refl, tt)), ((refl, tt), (tt, tt))))

some_bob : filter (is_equal name (codes "bob")) people ≢ []
unfolding filter text_beq
some_bob e = cc

comparisons-filter_example :
    (equals name people (codes "bob") ≡ found (filter (is_equal name (codes "bob")) people))
    × (not_equals name people (codes "bob")
        ≡ found (filter (λ d. not (is_equal name (codes "bob") d)) people))
    × (less_than name people (codes "bob") ≡ found (filter (is_less name (codes "bob")) people))
    × (less_than_equals name people (codes "bob")
        ≡ found (filter (λ d. not (is_greater name (codes "bob") d)) people))
comparisons-filter_example =
    comparisons-filter name people (codes "bob") people-Ascending (omega arith) some_bob

greater_than-greater_than_equals_example :
    ((d : Document) × (is_equal name (codes "bob") d ≡ true)
      × (greater_than_equals name people (codes "bob")
          ≡ found (d ∷ filter (is_greater name (codes "bob")) people)))
    × (filter (is_greater name (codes "bob")) people ≡ []
        → greater_than name people (codes "bob") ≡ found [])
    × (filter (is_greater name (codes "bob")) people ≢ []
        → greater_than name people (codes "bob") ≡ greater_than_equals name people (codes "bob"))
greater_than-greater_than_equals_example =
    greater_than-greater_than_equals name people (codes "bob") people-Ascending (omega arith)
      some_bob

no_abe : filter (is_equal name (codes "abe")) people ≡ []
unfolding filter text_beq
no_abe = refl

none_before_abe : filter (is_less name (codes "abe")) people ≡ []
unfolding filter text_less
none_before_abe = refl

comparisons-past_end_example : AllSelect name past_end people (codes "abe")
comparisons-past_end_example =
    comparisons-past_end name people (codes "abe") people-Ascending (omega arith) (omega arith)
      no_abe none_before_abe

some_before_zoe : filter (is_less name (codes "zoe")) people ≢ []
unfolding filter text_less
some_before_zoe e = cc

indices-finish_example :
    (get_lower_index name people (codes "zoe") ≢ unfinished)
    × (get_lower_index name people (codes "zoe") ≢ past_end)
    × (get_upper_index name people (codes "zoe") ≢ unfinished)
    × (get_upper_index name people (codes "zoe") ≢ past_end)
indices-finish_example =
    indices-finish name people (codes "zoe") people-Ascending (omega arith) (inl some_before_zoe)
