-- ===== src/Storage/Trees.antt =====
-- The trees of StorageNode/StorageNode.cpp: functions and templates by their ids, linked under a root,
-- and the transactions of the committed blocks.
pub mod Fetched
use decentralized_cloud.Base.{
  ℕ, Bool, true, false, Option, none, some, List, [], ◌∷◌, ◌++◌, Text, codes, text_eq, ◌==◌,
  if◌then◌else◌, is_empty,
}
use decentralized_cloud.Base.Dict.{Dict, find, assign}
use decentralized_cloud.Json.{JsonObject, get_text}
use decentralized_cloud.Message.{
  CommandType, exception, state_change, fetch_function, fetch_template,
}
use decentralized_cloud.Storage.World.{
  Env, World, Action, ◌>>=◌, ◌>>◌, give, throw, or_throw, dht_get, dht_put, get_guid, add_object,
  add_object_and_link, add_link, rm_link, fetch_object, get_edge_names_of, send,
}

abbrev pub function_tree : Text
function_tree = codes "function"

abbrev pub data_tree : Text
data_tree = codes "data"

abbrev pub template_tree : Text
template_tree = codes "template"

abbrev pub transaction_tree : Text
transaction_tree = codes "tx"

abbrev pub block_tree : Text
block_tree = codes "block"

-- Keys of the table: the parts with `CHARACTER_DELIMITER` between them, `ROOT_IDENTIFIER` in front.
unfoldable pub joined : Text → Text → Text
joined a b = a ++ (codes "_" ++ b)

unfoldable pub object_key : Text → Text → Text → Text
unfolding joined
object_key tree tid object_id = joined tree (joined tid object_id)

unfoldable pub root_key : Text → Text
root_key tree = codes "." ++ tree

-- `updateValues`: the members of the new object replace those of the old.
unfoldable merge : JsonObject → JsonObject → JsonObject
merge old [] = old
merge old ((key, value) ∷ new) = merge (assign key value old) new

module _ {env : Env} where
  unfoldable pub parse_or_throw : Text → Action env JsonObject
  parse_or_throw text = or_throw (env.parse text)

  unfoldable pub update_values : Text → Text → Action env Text
  unfolding merge parse_or_throw
  update_values old_object new_object = do
    old_obj ← parse_or_throw old_object
    new_obj ← parse_or_throw new_object
    give (env.dump (merge old_obj new_obj))

  unfoldable pub link_to_root : Text → Text → Text → Text → Action env (Unit {0})
  unfolding joined root_key dht_get dht_put add_link add_object_and_link
  link_to_root tree object_id object_hash txid = do
    if is_empty txid then give tt else dht_put (joined transaction_tree object_hash) txid
    root_hash ← dht_get (root_key tree)
    new_root ←
        if is_empty root_hash
        then add_object_and_link tree object_hash object_id
        else add_link root_hash object_id object_hash
    dht_put (root_key tree) new_root

  unfoldable unlink_to_root : Text → Text → Text → Text → Action env (Unit {0})
  unfolding joined root_key dht_put rm_link
  unlink_to_root tree txid root_hash object_id = do
    new_root_hash ← rm_link root_hash object_id
    dht_put (joined transaction_tree root_hash) txid
    dht_put (root_key tree) new_root_hash

  -- The data tree of a new template: its root, with an index on `id` whose entries are all under `__`.
  unfoldable build_data_tree : Text → Text → Action env (Unit {0})
  unfolding object_key root_key dht_put add_object add_link
  build_data_tree tid object_id = do
    data_root_hash ← add_object (root_key (object_key data_tree tid object_id))
    hash_b ← add_object (codes "id")
    hash_c ← add_object (codes "collection")
    b_c ← add_link hash_b (codes "__") hash_c
    new_data_root_hash ← add_link data_root_hash (codes "id") b_c
    dht_put (root_key (object_key data_tree tid object_id)) new_data_root_hash

  -- The hash of a new object under a new id.
  unfoldable pub name_child : Text → Text → Text → Text → Text → Text → Action env (Unit {0})
  unfolding object_key joined get_guid dht_put send link_to_root build_data_tree
  name_child source channel_id txid tid tree object_hash = do
    object_id ← get_guid
    dht_put (object_key tree tid object_id) object_hash
    send source channel_id state_change txid object_id object_hash
    link_to_root (joined tree tid) object_id object_hash txid
    if tree == template_tree then build_data_tree tid object_id else give tt

  unfoldable pub add_child_node : Text → Text → Text → Text → Text → Text → Action env (Unit {0})
  unfolding add_object name_child
  add_child_node source channel_id txid tid tree object =
      add_object object >>= name_child source channel_id txid tid tree

  unfoldable replace_object :
      Text → Text → Text → Text → Text → Text → Text → Text → Action env (Unit {0})
  unfolding object_key joined add_object fetch_object dht_put send link_to_root update_values
  replace_object source tree channel_id txid tid object_id object existing_object_hash = do
    old_object ← fetch_object existing_object_hash
    updated_object ← update_values old_object object
    object_hash ← add_object updated_object
    dht_put (object_key tree tid object_id) object_hash
    send source channel_id state_change txid object_id object_hash
    link_to_root (joined tree tid) object_id object_hash txid

  unfoldable pub update_child_node :
      Text → Text → Text → Text → Text → Text → Text → Action env (Unit {0})
  unfolding joined root_key dht_get get_edge_names_of send replace_object find
  update_child_node source tree channel_id txid tid object_id object = do
    root_hash ← dht_get (root_key (joined tree tid))
    if is_empty root_hash
        then send source channel_id exception txid object_id (codes "Invalid Object Id")
        else (do
          edges ← get_edge_names_of root_hash
          elim (find object_id edges) [
            | none ↦ throw
            | some existing ↦
                if is_empty existing
                then send source channel_id exception txid object_id (codes "Invalid Object Id")
                else replace_object source tree channel_id txid tid object_id object existing
          ])

  unfoldable pub delete_object : Text → Text → Text → Text → Text → Text → Action env (Unit {0})
  unfolding joined object_key root_key dht_get dht_put send unlink_to_root
  delete_object source tree channel_id txid tid object_id = do
    dht_put (object_key tree tid object_id) []
    send source channel_id state_change txid object_id (codes "deleted successfully")
    root_hash ← dht_get (root_key (joined tree tid))
    unlink_to_root (joined tree tid) txid root_hash object_id
    if tree == template_tree
        then dht_put (root_key (object_key data_tree tid object_id)) []
        else give tt

  unfoldable pub fetch_function_of : Text → Text → Text → Text → Text → Text → Action env (Unit {0})
  unfolding object_key dht_get fetch_object send
  fetch_function_of source channel_id txid tid function_id hash =
      if is_empty hash
      then (do
        val ← dht_get (object_key function_tree tid function_id)
        if is_empty val
            then send source channel_id fetch_function txid function_id
                (codes "No function found for the given Id")
            else (do
              text ← fetch_object val
              send source channel_id fetch_function txid function_id text))
      else (do
        text ← fetch_object hash
        send source channel_id fetch_function txid function_id text)

  unfoldable fetch_template_of : Text → Text → Text → Text → Text → Action env (Unit {0})
  unfolding object_key dht_get fetch_object send
  fetch_template_of source channel_id txid tid template_id = do
    val ← dht_get (object_key template_tree tid template_id)
    if is_empty val
        then send source channel_id fetch_template txid template_id
            (codes "No Entity found for the given Id")
        else (do
          text ← fetch_object val
          send source channel_id fetch_template txid template_id text)
