-- ===== src/Storage/Documents.antt =====
-- The documents of a template in StorageNode/StorageNode.cpp: `createOrDeleteDocument` and
-- `updateOrDeleteDocument`.
pub mod Invalid
use decentralized_cloud.Base.{
  ℕ, Bool, true, false, Option, none, some, List, [], ◌∷◌, ◌++◌, ◌&&◌, ◌||◌, if◌then◌else◌,
  is_empty, Text, codes, text_eq, ◌==◌,
}
use decentralized_cloud.Base.Dict.{Dict, find, contains, assign}
use decentralized_cloud.Json.{str, JsonObject, as_text, get_text}
use decentralized_cloud.Message.{exception, state_change, fetch_document}
use decentralized_cloud.Storage.Expression.{
  Scan, scanned, failed, unfinished, TreeNode, operand, node, get_postfixed_expression_of,
  get_expression_tree_from,
}
use decentralized_cloud.Storage.World.{
  Env, World, Action, ◌>>=◌, ◌>>◌, give, throw, or_throw, caught, dht_get, dht_put, get_guid,
  add_object, add_link, rm_link, get_edge_names_of, send,
}
use decentralized_cloud.Storage.Trees.{
  data_tree, joined, object_key, root_key, update_values, parse_or_throw,
}
use decentralized_cloud.Storage.Evaluation.{text, documents}
use decentralized_cloud.Storage.Filtering.{search_document}

-- `createOrDeleteDocument` with `op` empty, "update" or "delete"
pub data Operation : Type 0 where
  create update delete : Operation

abbrev is_create : Operation → Bool
is_create create = true
is_create op = false

abbrev is_delete : Operation → Bool
is_delete delete = true
is_delete op = false

-- The edge to the node of a value under an index: that under `__`, or else that of the value.
unfoldable value_edge : Text → Dict Text Text → Option (Text × Text)
unfolding find
value_edge value b_c = elim (find (codes "__") b_c) [
  | some c_node ↦ some (codes "__", c_node)
  | none ↦ elim (find value b_c) [ none ↦ none | some c_node ↦ some (value, c_node) ]
]

module _ {env : Env} where
  -- The link to a document under the node of its value.
  unfoldable relink : Operation → Text → Text → Text → Action env Text
  unfolding add_link rm_link
  relink create c_node document_id document_hash = add_link c_node document_id document_hash
  relink update c_node document_id document_hash = do
    without ← rm_link c_node document_id
    add_link without document_id document_hash
  relink delete c_node document_id document_hash = rm_link c_node document_id

  -- One index of the entity: the new hash of its root.
  unfoldable update_index :
      Operation → Text → Text → Text → Text → Text → Text → Text → Text → Action env Text
  unfolding get_edge_names_of value_edge relink add_object add_link rm_link dht_put object_key
      root_key
  update_index op tid entity_id document_id document_hash entity_root index b_node value = do
    b_c ← get_edge_names_of b_node
    new_b_node ← elim (value_edge value b_c) [
      | some (index_value, c_node) ↦ (do
        c ← relink op c_node document_id document_hash
        b ← rm_link b_node index_value
        add_link b index_value c)
      | none ↦ (do
        fresh ← add_object entity_root
        c ← relink op fresh document_id document_hash
        add_link b_node value c)
    ]
    without ← rm_link entity_root index
    new_root ← add_link without index new_b_node
    dht_put (root_key (object_key data_tree tid entity_id)) new_root
    give new_root

  unfoldable pub update_indexes :
      Operation
      → Text
      → Text
      → Text
      → Text
      → JsonObject
      → Dict Text Text
      → Text
      → Action env (Unit {0})
  unfolding update_index find
  update_indexes op tid entity_id document_id document_hash input [] entity_root = give tt
  update_indexes op tid entity_id document_id document_hash input ((index, b_node) ∷ a_b)
        entity_root =
      elim (find index input) [
        | none ↦ update_indexes op tid entity_id document_id document_hash input a_b entity_root
        | some target ↦ (do
          value ← or_throw (as_text (some target))
          new_root ←
              update_index op tid entity_id document_id document_hash entity_root index b_node value
          update_indexes op tid entity_id document_id document_hash input a_b new_root)
      ]

  -- A new document gets an id, which its text gets too; a text that does not parse, or whose value takes
  -- no member, is answered with an exception and stays as it is.
  unfoldable pub name_document :
      Operation → Text → Text → Text → Text → Text → Action env (Text × Text)
  unfolding get_guid assign send
  name_document create source channel_id txid document_id document_json = do
    new_id ← get_guid
    elim (env.parse document_json) [
      | some j ↦ give (new_id, env.dump (assign (codes "id") (str new_id) j))
      | none ↦ (do
        send source channel_id exception txid [] (
            codes
              "Issue while parsing document body. Please ensure to pass the document in proper json format")
        give (new_id, document_json))
    ]
  name_document op source channel_id txid document_id document_json =
      give (document_id, document_json)

  unfoldable pub store_document :
      Operation → Text → Text → Text → Text → Text → Text → Text → Action env Text
  unfolding add_object dht_put object_key send
  store_document delete source channel_id txid tid entity_id document_id document_json = do
    dht_put (object_key data_tree tid (joined entity_id document_id)) []
    give []
  store_document op source channel_id txid tid entity_id document_id document_json = do
    document_hash ← add_object document_json
    dht_put (object_key data_tree tid (joined entity_id document_id)) document_hash
    if is_create op
        then send source channel_id state_change txid document_id document_hash
        else give tt
    give document_hash

  -- `json::parse`; in a value that is no object, no index is found.
  unfoldable pub members_of : Text → Action env JsonObject
  members_of json_text = elim (env.parse json_text) [
    | some j ↦ give j
    | none ↦ if env.is_json json_text then give [] else throw
  ]

  unfoldable pub index_document :
      Operation → Text → Text → Text → Text → Text → Text → Action env (Unit {0})
  unfolding get_edge_names_of members_of update_indexes
  index_document op tid entity_id document_id document_json document_hash entity_root = do
    a_b ← get_edge_names_of entity_root
    input ← members_of document_json
    update_indexes op tid entity_id document_id document_hash input a_b entity_root

  unfoldable pub create_or_delete_document :
      Text → Text → Text → Text → Text → Text → Text → Operation → Action env (Unit {0})
  unfolding object_key root_key dht_get send name_document store_document index_document
  create_or_delete_document source channel_id txid tid entity_id document_id document_json op = do
    entity_root ← dht_get (root_key (object_key data_tree tid entity_id))
    if is_empty entity_root
        then send source channel_id exception txid document_id
            (codes "No Entity found for the given Id")
        else (do
          named ← name_document op source channel_id txid document_id document_json
          document_hash ← store_document op source channel_id txid tid entity_id named.0 named.1
          index_document op tid entity_id named.0 named.1 document_hash entity_root)

  unfoldable change_documents :
      Operation → Text → Text → Text → Text → Text → Text → List JsonObject → Action env (Unit {0})
  unfolding create_or_delete_document update_values get_text
  change_documents op source channel_id txid tid entity_id document_json [] = give tt
  change_documents update source channel_id txid tid entity_id document_json (doc ∷ docs) = do
    doc_id ← or_throw (get_text (codes "id") doc)
    new_json ← update_values (env.dump doc) document_json
    create_or_delete_document source channel_id txid tid entity_id doc_id new_json update
    change_documents update source channel_id txid tid entity_id document_json docs
  change_documents op source channel_id txid tid entity_id document_json (doc ∷ docs) = do
    doc_id ← or_throw (get_text (codes "id") doc)
    create_or_delete_document source channel_id txid tid entity_id doc_id (env.dump doc) op
    change_documents op source channel_id txid tid entity_id document_json docs

  -- `op` is "update" or "delete". A search that gives a text has one element, which is no document.
  unfoldable pub update_or_delete_document :
      Text → Text → Text → Text → Text → Text → Text → Operation → Action env (Unit {0})
  unfolding object_key root_key dht_get search_document send change_documents
  update_or_delete_document source channel_id txid tid entity_id expression document_json op = do
    entity_root ← dht_get (root_key (object_key data_tree tid entity_id))
    if is_empty entity_root
        then send source channel_id exception txid []
            (codes "No Entity found for the given document to operate")
        else (do
          docs ← search_document tid entity_id expression
          elim docs [
            | text s ↦ throw
            | documents [] ↦
                send source channel_id exception txid []
                  (codes "No document found for the given id")
            | documents (doc ∷ more) ↦ (do
              change_documents op source channel_id txid tid entity_id document_json (doc ∷ more)
              send source channel_id state_change txid [] (
                  if is_delete op
                  then codes "Documents are deleted successfully"
                  else codes "Documents are updated successfully"))
          ])
