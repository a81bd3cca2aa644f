-- ===== src/Wire/Delivery/Joined.antt =====
-- How a connection request arrives: from `sendConnectionRequest` to `addNode`.
use decentralized_cloud.Peers.{BlockChainNode, NodesMap}
use decentralized_cloud.Peers.Sync.{build_sync_nodes_input}
use decentralized_cloud.Base.{
  Option, maybe, ℕ, ◌≡◌, refl, some, false, List, [], ◌∷◌, ◌++◌, Text, text_eq, codes, arith, All,
}
use decentralized_cloud.Base.Class.{text_beq}
use decentralized_cloud.Base.Decimal.{to_string}
use decentralized_cloud.Base.Dict.{find}
use decentralized_cloud.Message.{gossip, sync_nodes}
use decentralized_cloud.Peers.Requests.{node_uri, request_fields}
use decentralized_cloud.Wire.{is_reserved}
use decentralized_cloud.Wire.Escapes.{has_char}
use decentralized_cloud.Wire.Plain.{
  Plain, Sendable, literal, Plain-Sendable, to_string-Plain, has_char-append,
}
use decentralized_cloud.Wire.Inbox.{Inbox, Site}

pub request_fields-unreserved :
    (type port : ℕ) (ip : Text) → All (λ f. is_reserved f.0 ≡ false) (request_fields type ip port)
unfolding is_reserved text_beq
request_fields-unreserved type port ip = (refl, (refl, tt))

node_uri-clean :
    (c port : ℕ) (ip : Text)
    → has_char c (codes "ws://:") ≡ false
    → has_char c ip ≡ false
    → has_char c (to_string port) ≡ false
    → has_char c (node_uri ip port) ≡ false
node_uri-clean c port ip fixed clean digits =
    ground (arith, has_char-append c ip (codes ":" ++ to_string port), fixed, clean, digits)

pub request_fields-Sendable :
    (type port : ℕ) (ip : Text)
    → has_char b'%' ip ≡ false
    → has_char 0 ip ≡ false
    → All Sendable (request_fields type ip port)
request_fields-Sendable type port ip percent null = (
  Plain-Sendable (codes "t") (to_string type) (literal refl refl refl refl) (to_string-Plain type),
  (
    (
      literal refl refl refl refl,
      node_uri-clean b'%' port ip refl percent (to_string-Plain port).percent,
      node_uri-clean 0 port ip refl null (to_string-Plain port).null,
    ),
    tt,
  ),
)

abbrev pub new_node : Text → Text → ℕ → BlockChainNode
new_node id uri type = record { public_key = id; uri = uri; type = type }

abbrev pub known_or_new : Text → Text → ℕ → NodesMap → Option BlockChainNode
known_or_new id uri type nodes = maybe (find id nodes) (some (new_node id uri type)) some

-- What a node knows and has sent after it was asked to take in a node, against what was so before: a
-- node that is known already stays as it is.
pub record Joined (site : Site) (id uri : Text) (type : ℕ) (before after : Inbox) : Type 0 where
  pub as_master :
      type ≡ 0
      → (find id after.peers.master_nodes ≡ known_or_new id uri type before.peers.master_nodes)
        × (after.sent
            ≡ before.sent
              ++ gossip id sync_nodes
                  ((codes "d", build_sync_nodes_input site.dump after.peers) ∷ [])
                ∷ [])
  pub as_verifier :
      type ≡ 1
      → (find id after.peers.verifier_nodes ≡ known_or_new id uri type before.peers.verifier_nodes)
        × (after.peers.verifier_keys ≡ before.peers.verifier_keys ++ id ∷ [])
        × (after.sent ≡ before.sent)
  pub as_storage :
      type ≡ 2
      → (find id after.peers.storage_nodes ≡ known_or_new id uri type before.peers.storage_nodes)
        × (after.peers.storage_keys ≡ before.peers.storage_keys ++ id ∷ [])
        × (after.sent ≡ before.sent)
