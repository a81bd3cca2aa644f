-- ===== src/Peers.antt =====
-- The nodes that a node knows: the maps and key vectors of BlockChainCommon/functions.cpp and
-- `BlockChainNode`.
pub mod Keys
pub mod Sync
pub mod Requests
mod Tests
use decentralized_cloud.Base.{
  ℕ, ◌+◌, Option, none, some, Bool, List, [], ◌∷◌, ◌++◌, Text, text_eq, codes, nat_beq, leb, length,
  get_elem?, if◌then◌else◌,
}
use decentralized_cloud.Base.Dict.{Dict, insert, find}
use decentralized_cloud.Base.Class.{text_beq}

-- `BlockChainNode::NodeType`; a number off the wire may be none of the three.
abbrev pub master_node : ℕ
master_node = 0

abbrev pub verifier_node : ℕ
verifier_node = 1

abbrev pub storage_node : ℕ
storage_node = 2

pub record BlockChainNode : Type 0 where
  pub public_key : Text
  pub uri : Text
  pub type : ℕ

abbrev pub NodesMap : Type 0
NodesMap = Dict Text BlockChainNode

pub record Peers : Type 0 where
  pub master_nodes : NodesMap
  pub verifier_nodes : NodesMap
  pub storage_nodes : NodesMap
  pub verifier_keys : List Text
  pub storage_keys : List Text

abbrev pub no_peers : Peers
no_peers = record {
  master_nodes = [];
  verifier_nodes = [];
  storage_nodes = [];
  verifier_keys = [];
  storage_keys = [];
}

unfoldable pub add_master : Text → BlockChainNode → Peers → Peers
add_master key n p = record p { master_nodes = insert key n p.master_nodes }

unfoldable pub add_verifier : Text → BlockChainNode → Peers → Peers
add_verifier key n p = record p {
  verifier_nodes = insert key n p.verifier_nodes;
  verifier_keys = p.verifier_keys ++ key ∷ [];
}

unfoldable pub add_storage : Text → BlockChainNode → Peers → Peers
add_storage key n p = record p {
  storage_nodes = insert key n p.storage_nodes;
  storage_keys = p.storage_keys ++ key ∷ [];
}

-- The critical section of `addNode`. A type that is none of the three changes nothing.
unfoldable pub add_node : Text → Text → ℕ → Peers → Peers
unfolding add_master add_verifier add_storage
add_node key uri type p =
    if nat_beq type master_node
    then add_master key n p
    else if nat_beq type verifier_node
    then add_verifier key n p
    else if nat_beq type storage_node
    then add_storage key n p
    else p
  where
    n : BlockChainNode
    n = record { public_key = key; uri = uri; type = type }

unfoldable get_number_of_master_nodes : Peers → ℕ
get_number_of_master_nodes p = length p.master_nodes

unfoldable pub get_number_of_storage_nodes : Peers → ℕ
get_number_of_storage_nodes p = length p.storage_nodes

unfoldable pub get_number_of_verifiers : Peers → ℕ
get_number_of_verifiers p = length p.verifier_nodes

-- Past the end the source returns a reference to an empty temporary.
unfoldable pub get_storage_node_key : ℕ → Peers → Text
get_storage_node_key n p =
    if leb (n + 1) (length p.storage_keys)
    then elim (get_elem? p.storage_keys n) [ none ↦ [] | some key ↦ key ]
    else []

-- `verifierKeys[n]`; `none` is a read past the end.
unfoldable pub get_verifier_node_key : ℕ → Peers → Option Text
get_verifier_node_key n p = get_elem? p.verifier_keys n

-- `storageNodes[key].getURI()`: a key that is not there gets a new node, whose type is not set.
unfoldable pub get_storage_node_url : Text → Peers → Text × Peers
unfolding find insert
get_storage_node_url key p = elim (find key p.storage_nodes) [
  | none ↦ ([], record p { storage_nodes = insert key empty_node p.storage_nodes })
  | some n ↦ (n.uri, p)
]
  where
    empty_node : BlockChainNode
    empty_node = record { public_key = []; uri = []; type = 0 }
