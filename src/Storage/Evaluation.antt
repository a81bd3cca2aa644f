-- ===== src/Storage/Evaluation.antt =====
-- How StorageNode/StorageNode.cpp finds the documents of a filter: `searchDocument`,
-- `evaluateExpression` and what they call.
use decentralized_cloud.Base.{
  Option, none, some, List, [], ◌∷◌, ◌++◌, take, if◌then◌else◌, is_empty, Text, codes, text_eq,
  ◌==◌,
}
use decentralized_cloud.Base.Dict.{Dict, find}
use decentralized_cloud.Json.{JsonValue, str, JsonObject}
use decentralized_cloud.Storage.Order.{text_less, json_eq, json_ordered}
use decentralized_cloud.Storage.Search.{
  Search, found, absent, past_end, equals, not_equals, less_than, less_than_equals, greater_than,
  greater_than_equals,
}
use decentralized_cloud.Storage.World.{
  Env, Action, ◌>>=◌, give, throw, or_throw, caught, fetch_object,
}
use decentralized_cloud.Storage.Trees.{parse_or_throw}

-- The JSON value that a search gives: a text, or an array of documents.
pub data Answer : Type 0 where
  text : Text → Answer
  documents : List JsonObject → Answer

-- `std::map::insert`: by name, and an entry that is there already stays.
unfoldable insert_ordered : Text → Text → Dict Text Text → Dict Text Text
unfolding text_less
insert_ordered name hash [] = (name, hash) ∷ []
insert_ordered name hash ((other, h) ∷ edges) =
    let rest = insert_ordered name hash edges in
    if text_less name other
    then (name, hash) ∷ (other, h) ∷ edges
    else if name == other
    then (other, h) ∷ edges
    else (other, h) ∷ rest

unfoldable ordered_from : Dict Text Text → List (Text × Text) → Dict Text Text
unfolding insert_ordered
ordered_from edges [] = edges
ordered_from edges ((name, hash) ∷ links) = ordered_from (insert_ordered name hash edges) links

-- From `begin()` up to `lower_bound(name)`, from there on, and from `upper_bound(name)` on.
unfoldable below_bound : Text → Dict Text Text → Dict Text Text
unfolding text_less
below_bound name [] = []
below_bound name ((other, h) ∷ edges) =
    let rest = below_bound name edges in if text_less other name then (other, h) ∷ rest else []

unfoldable from_lower : Text → Dict Text Text → Dict Text Text
unfolding text_less
from_lower name [] = []
from_lower name ((other, h) ∷ edges) =
    let rest = from_lower name edges in if text_less other name then rest else (other, h) ∷ edges

unfoldable from_upper : Text → Dict Text Text → Dict Text Text
unfolding text_less
from_upper name [] = []
from_upper name ((other, h) ∷ edges) =
    let rest = from_upper name edges in if text_less name other then (other, h) ∷ edges else rest

-- `map[key]` on a map of texts
unfoldable edge_or_empty : Text → Dict Text Text → Text
unfolding find
edge_or_empty name edges = elim (find name edges) [ none ↦ [] | some hash ↦ hash ]

-- `d[operand]`; null where the document has no such member.
unfoldable pub member : Text → JsonObject → Option JsonValue
unfolding find
member name doc = find name doc

unfoldable compare_documents : Text → Text → Text → List JsonObject → Search (List JsonObject)
unfolding equals not_equals greater_than greater_than_equals less_than less_than_equals member
compare_documents op name value docs =
    if op == codes "="
    then equals (member name) docs (some (str value))
    else if op == codes "<>"
    then not_equals (member name) docs (some (str value))
    else if op == codes ">"
    then greater_than (member name) docs (some (str value))
    else if op == codes ">="
    then greater_than_equals (member name) docs (some (str value))
    else if op == codes "<="
    then less_than_equals (member name) docs (some (str value))
    else less_than (member name) docs (some (str value))

module _ {env : Env} where
  unfoldable get_ordered_edge_names_of : Text → Action env (Dict Text Text)
  unfolding ordered_from
  get_ordered_edge_names_of hash =
      caught [] (λ w.
        (do links ← or_throw (env.object_links w.objects hash); give (ordered_from [] links)) w)

  unfoldable read_document : Text → Action env JsonObject
  unfolding fetch_object parse_or_throw
  read_document hash = do body ← fetch_object hash; parse_or_throw body

  unfoldable fetch_documents : Dict Text Text → Action env (List JsonObject)
  unfolding read_document
  fetch_documents [] = give []
  fetch_documents ((name, hash) ∷ edges) = do
    doc ← read_document hash
    docs ← fetch_documents edges
    give (doc ∷ docs)

  unfoldable fetch_documents_from_default_index : Dict Text Text → Action env (List JsonObject)
  unfolding edge_or_empty fetch_documents get_ordered_edge_names_of
  fetch_documents_from_default_index indexes = do
    values ← get_ordered_edge_names_of (edge_or_empty (codes "id") indexes)
    ids ← get_ordered_edge_names_of (edge_or_empty (codes "__") values)
    fetch_documents ids

  unfoldable sort_documents_by_operand : Text → Dict Text Text → Action env (List JsonObject)
  unfolding fetch_documents_from_default_index
  sort_documents_by_operand name indexes = do
    docs ← fetch_documents_from_default_index indexes
    give (env.sort_documents name docs)

  -- The documents of some edges; no edge at `bound`, the end of the map, gives the empty text.
  unfoldable documents_of : Dict Text Text → Dict Text Text → Action env Answer
  unfolding fetch_documents
  documents_of [] edges = give (text [])
  documents_of (e ∷ bound) edges = do docs ← fetch_documents edges; give (documents docs)

  -- An operand with an index: its edges are the values, by which the documents are found.
  unfoldable pub evaluate_indexed : Text → Text → Text → Text → Action env Answer
  unfolding get_ordered_edge_names_of edge_or_empty documents_of below_bound from_lower from_upper
      find
  evaluate_indexed op name value hash =
      if op == codes "="
      then (do
        found_values ← get_ordered_edge_names_of hash
        values ←
            if name == codes "id"
            then get_ordered_edge_names_of (edge_or_empty (codes "__") found_values)
            else give found_values
        elim (find value values) [
          | none ↦ give (text [])
          | some document_hash ↦
              documents_of ((value, document_hash) ∷ []) ((value, document_hash) ∷ [])
        ])
      else (do
        values ← get_ordered_edge_names_of hash
        if op == codes "<>"
            then documents_of (from_lower value values)
                (below_bound value values ++ from_upper value values)
            else if op == codes ">"
            then documents_of (from_upper value values) (from_upper value values)
            else if op == codes ">="
            then documents_of (from_lower value values) (from_lower value values)
            else if op == codes "<="
            then documents_of (from_lower value values)
                (below_bound value values ++ take 1 (from_lower value values))
            else documents_of (from_lower value values) (below_bound value values))

  abbrev or_fail : Search (List JsonObject) → Action env Answer
  or_fail (found docs) = give (documents docs)
  or_fail absent = throw
  or_fail past_end = throw
  or_fail Search.unfinished = throw

  -- A JSON value where a text is needed; an array throws.
  unfoldable pub text_of : Answer → Action env Text
  text_of (text s) = give s
  text_of (documents docs) = throw

  -- An operand without an index: all documents are fetched and searched.
  unfoldable pub evaluate_unindexed : Text → Text → Answer → Dict Text Text → Action env Answer
  unfolding sort_documents_by_operand compare_documents text_of
  evaluate_unindexed op name right indexes = do
    docs ← sort_documents_by_operand name indexes
    if is_empty docs
        then give (documents docs)
        else (do value ← text_of right; or_fail (compare_documents op name value docs))
