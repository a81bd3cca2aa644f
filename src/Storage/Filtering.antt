-- ===== src/Storage/Filtering.antt =====
-- The filters of several conditions in StorageNode/StorageNode.cpp: `evaluateExpression`, `union_`,
-- `intersection`, `searchDocument` and `findDocument`.
use decentralized_cloud.Base.{
  Bool, true, false, none, some, List, [], ◌∷◌, ◌||◌, if◌then◌else◌, is_empty, Text, codes, text_eq,
  ◌==◌,
}
use decentralized_cloud.Base.Dict.{Dict, find}
use decentralized_cloud.Json.{JsonObject}
use decentralized_cloud.Message.{fetch_document}
use decentralized_cloud.Storage.Expression.{
  scanned, failed, unfinished, TreeNode, operand, node, get_postfixed_expression_of,
  get_expression_tree_from,
}
use decentralized_cloud.Storage.World.{
  Env, Action, ◌>>=◌, give, throw, or_throw, caught, dht_get, get_edge_names_of, send,
}
use decentralized_cloud.Storage.Trees.{data_tree, object_key, root_key}
use decentralized_cloud.Storage.Evaluation.{
  Answer, text, documents, text_of, evaluate_indexed, evaluate_unindexed,
}

-- `std::set<json>::insert`, with the order of the objects.
unfoldable insert_document : Env → JsonObject → List JsonObject → List JsonObject
insert_document env doc [] = doc ∷ []
insert_document env doc (d ∷ docs) =
    let rest = insert_document env doc docs in
    if env.less_document doc d
    then doc ∷ d ∷ docs
    else if env.less_document d doc
    then d ∷ rest
    else d ∷ docs

unfoldable set_of : Env → List JsonObject → List JsonObject → List JsonObject
unfolding insert_document
set_of env set [] = set
set_of env set (doc ∷ docs) = set_of env (insert_document env doc set) docs

unfoldable union : Env → List JsonObject → List JsonObject → List JsonObject
unfolding set_of
union env docs₁ docs₂ = set_of env (set_of env [] docs₁) docs₂

-- `hs.find(doc) != hs.end()`
unfoldable has_document : Env → JsonObject → List JsonObject → Bool
has_document env doc [] = false
has_document env doc (d ∷ docs) =
    let rest = has_document env doc docs in
    if env.less_document doc d || env.less_document d doc then rest else true

unfoldable pub common : Env → List JsonObject → List JsonObject → List JsonObject
unfolding has_document
common env set [] = []
common env set (doc ∷ docs) =
    let rest = common env set docs in if has_document env doc set then doc ∷ rest else rest

unfoldable intersection : Env → List JsonObject → List JsonObject → List JsonObject
unfolding set_of common
intersection env docs₁ docs₂ = common env (set_of env [] docs₁) docs₂

abbrev is_comparison : Text → Bool
is_comparison op =
    (op == codes "=" || (op == codes "<>" || op == codes ">"))
    || (op == codes ">=" || (op == codes "<=" || op == codes "<"))

module _ {env : Env} where
  unfoldable evaluate_comparison : Text → Dict Text Text → Answer → Answer → Action env Answer
  unfolding text_of evaluate_indexed evaluate_unindexed find
  evaluate_comparison op indexes left right = do
    name ← text_of left
    elim (find name indexes) [
      | none ↦ evaluate_unindexed op name right indexes
      | some hash ↦ (do value ← text_of right; evaluate_indexed op name value hash)
    ]

  -- Only an array is empty; an element of a text is an exception.
  unfoldable evaluate_or : Answer → Answer → Action env Answer
  unfolding union
  evaluate_or (documents []) right = give right
  evaluate_or left (documents []) = give left
  evaluate_or (documents docs₁) (documents docs₂) = give (documents (union env docs₁ docs₂))
  evaluate_or left right = throw

  unfoldable evaluate_and : Answer → Answer → Action env Answer
  unfolding intersection
  evaluate_and (documents []) right = give (documents [])
  evaluate_and left (documents []) = give (documents [])
  evaluate_and (documents docs₁) (documents docs₂) = give (documents (intersection env docs₁ docs₂))
  evaluate_and left right = throw

  unfoldable evaluate_expression : TreeNode → Dict Text Text → Action env Answer
  unfolding evaluate_comparison evaluate_or evaluate_and
  evaluate_expression (operand s) indexes = give (text s)
  evaluate_expression (node op left right) indexes = do
    l ← evaluate_expression left indexes
    r ← evaluate_expression right indexes
    if is_comparison op
        then evaluate_comparison op indexes l r
        else if op == codes "|"
        then evaluate_or l r
        else if op == codes "&"
        then evaluate_and l r
        else give (documents [])

  unfoldable parse_filter : Text → Action env TreeNode
  unfolding get_postfixed_expression_of get_expression_tree_from
  parse_filter expression = elim (get_postfixed_expression_of expression) [
    | scanned postfix ↦ or_throw (get_expression_tree_from postfix)
    | failed ↦ throw
    | unfinished ↦ throw
  ]

  unfoldable pub search_document : Text → Text → Text → Action env Answer
  unfolding object_key root_key dht_get get_edge_names_of parse_filter evaluate_expression
  search_document tid entity_id expression = do
    hash ← dht_get (root_key (object_key data_tree tid entity_id))
    if is_empty hash then give (text (codes "No Entity found for the given Id")) else (do
      indexes ← get_edge_names_of hash
      filter_condition ← parse_filter expression
      caught (text []) (evaluate_expression filter_condition indexes))

  unfoldable find_document : Text → Text → Text → Text → Text → Text → Action env (Unit {0})
  unfolding search_document send
  find_document source channel_id txid tid entity_id expression = do
    docs ← search_document tid entity_id expression
    send source channel_id fetch_document txid entity_id
        (elim docs [ text s ↦ s | documents found ↦ env.dump_array found ])
