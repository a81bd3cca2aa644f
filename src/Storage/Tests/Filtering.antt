-- ===== src/Storage/Tests/Filtering.antt =====
-- A filter as text, its postfix order and its tree.
use decentralized_cloud.Base.{◌≡◌, refl, List, some, Text, codes}
use decentralized_cloud.Storage.Expression.{
  scanned, get_postfixed_expression_of, get_expression_tree_from, strip,
}
use decentralized_cloud.Storage.Expression.Printed.{
  Condition, word, combine, equal, less, and_also, written, tree_of, Plain,
  get_expression_tree_from-written,
}

-- ( ( "name" = "bob" ) & ( "age" < "30" ) ), but for the spaces
abbrev young_bob : Condition
young_bob =
    combine and_also (combine equal (word (codes "name")) (word (codes "bob")))
      (combine less (word (codes "age")) (word (codes "30")))

young_bob-Plain : Plain young_bob
young_bob-Plain = (
  ((refl, (refl, (refl, (refl, tt)))), (refl, (refl, (refl, tt)))),
  ((refl, (refl, (refl, tt))), (refl, (refl, tt))),
)

get_expression_tree_from-written_example :
    (postfix : List Text) × (get_postfixed_expression_of (written young_bob) ≡ scanned postfix)
    × (get_expression_tree_from postfix ≡ some (tree_of young_bob))
get_expression_tree_from-written_example =
    get_expression_tree_from-written young_bob young_bob-Plain

-- A number loses its outer digits.
strip_year : strip (codes "2018") ≡ codes "01"
unfolding strip
strip_year = refl
