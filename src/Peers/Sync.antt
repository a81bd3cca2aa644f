-- ===== src/Peers/Sync.antt =====
-- What a master node tells a new one of the known nodes (`buildSyncNodesInput` of
-- BlockChainCommon/functions.cpp), and how it is taken over (`syncNodes` of MasterNodeLib.cpp).
pub mod Laws
pub mod Added
pub mod RoundTrip
use decentralized_cloud.Base.{Option, none, some, [], ◌∷◌, Text, text_eq, codes}
use mathlib.Core.Option.{bind}
use decentralized_cloud.Base.Outcome.{Outcome, ok, thrown, ◌>>=◌}
use decentralized_cloud.Json.{JsonObject, JsonValue, str, num, get_text, get_number}
use decentralized_cloud.Peers.{
  Peers, BlockChainNode, NodesMap, add_master, add_verifier, add_storage,
}

-- `json::dump`, where an object without members has the text of null. An object of the library has its
-- members in the order of their keys: a `dump` and a `parse` that stand for the library's sort them, so
-- that the order of the entries of a map, which is not the source's, is not seen in the text.
module _ (dump : JsonObject → Text) where
  -- `BlockChainNode::toJSONString`
  unfoldable to_json_string : BlockChainNode → Text
  to_json_string n =
      dump ((codes "k", str n.public_key) ∷ (codes "u", str n.uri) ∷ (codes "t", num n.type) ∷ [])

  -- The loop over one of the maps.
  unfoldable node_texts : NodesMap → JsonObject
  unfolding to_json_string
  node_texts [] = []
  node_texts ((key, n) ∷ nodes) = (key, str (to_json_string n)) ∷ node_texts nodes

  unfoldable pub build_sync_nodes_input : Peers → Text
  unfolding node_texts
  build_sync_nodes_input p = dump (
      (codes "m", str (dump (node_texts p.master_nodes)))
      ∷ (codes "v", str (dump (node_texts p.verifier_nodes)))
      ∷ (codes "s", str (dump (node_texts p.storage_nodes)))
      ∷ [])

-- `json::parse`, whose objects give the order in which the nodes are added.
module _ (parse : Text → Option JsonObject) where
  -- The node in an item; `none` is an exception.
  unfoldable read_node : JsonObject → Option BlockChainNode
  unfolding get_text get_number bind
  read_node j = bind (get_number (codes "t") j) λ type. bind (get_text (codes "k") j) λ key.
      bind (get_text (codes "u") j)
        λ uri. some (record { public_key = key; uri = uri; type = type })

  unfoldable read_item : JsonValue → Option BlockChainNode
  unfolding read_node bind
  read_item (num n) = none
  read_item (str text) = bind (parse text) read_node

  -- One of the three loops; what was inserted before an exception stays.
  unfoldable sync_items :
      (Text → BlockChainNode → Peers → Peers) → JsonObject → Peers → Outcome Peers
  unfolding read_item
  sync_items add [] p = ok p
  sync_items add ((key, value) ∷ items) p = elim (read_item value) [
    | none ↦ thrown p
    | some n ↦ sync_items add items (add key n p)
  ]

  -- The three objects; every text is read before the first node is inserted.
  unfoldable read_maps : Text → Option (JsonObject × JsonObject × JsonObject)
  unfolding get_text bind
  read_maps text = bind (parse text) λ j. bind (get_text (codes "m") j) λ m.
      bind (get_text (codes "v") j) λ v. bind (get_text (codes "s") j) λ s.
        bind (parse m) λ masters.
          bind (parse v) λ verifiers. bind (parse s) λ stores. some (masters, verifiers, stores)

  unfoldable pub sync_nodes : Text → Peers → Outcome Peers
  unfolding read_maps sync_items add_master add_verifier add_storage
  sync_nodes text p = elim (read_maps text) [
    | none ↦ thrown p
    | some (masters, verifiers, stores) ↦ do
      p₁ ← sync_items add_master masters p
      p₂ ← sync_items add_verifier verifiers p₁
      sync_items add_storage stores p₂
  ]
