-- ===== src/Peers/Keys.antt =====
-- The key vectors cover the maps, so that an index drawn below a map's size is a key of the vector.
use decentralized_cloud.Base.{
  ℕ, ◌+◌, ◌≤◌, ◌<◌, ◌≡◌, some, [], ◌∷◌, Text, text_eq, length, length-append, get_elem?-of_lt,
  arith,
}
use decentralized_cloud.Base.Dict.{insert}
use decentralized_cloud.Peers.{
  Peers, BlockChainNode, NodesMap, add_node, get_number_of_verifiers, get_verifier_node_key,
}

-- The vector is at least as long as the map.
pub record Covers (p : Peers) : Type 0 where
  pub verifiers : length p.verifier_nodes ≤ length p.verifier_keys
  pub storage : length p.storage_nodes ≤ length p.storage_keys

length-insert :
    (k : Text) (n : BlockChainNode) (m : NodesMap) → length (insert k n m) ≤ length m + 1
unfolding insert
length-insert k n [] = omega arith
length-insert k n ((j, w) ∷ m) = ground (arith, length-insert k n m)

-- Where the vectors of keys are at least as long as the maps, a connection request of any type,
-- also a repeated one, keeps them so.
add_node-Covers :
    (key uri : Text) (type : ℕ) (p : Peers) → Covers p → Covers (add_node key uri type p)
unfolding add_node
add_node-Covers key uri type p c =
    let n : BlockChainNode = record { public_key = key; uri = uri; type = type } in
    ground (
      arith,
      length-insert key n p.verifier_nodes,
      length-insert key n p.storage_nodes,
      length-append p.verifier_keys (key ∷ []),
      length-append p.storage_keys (key ∷ []),
    )

-- Where the vectors are as long as the maps, an index below the number of verifiers, as
-- `sendToVerifier` draws it, always reads a key.
get_verifier_node_key-in_range :
    (i : ℕ) (p : Peers)
    → Covers p
    → i < get_number_of_verifiers p
    → (key : Text) × (get_verifier_node_key i p ≡ some key)
unfolding get_number_of_verifiers get_verifier_node_key
get_verifier_node_key-in_range i p c h = get_elem?-of_lt p.verifier_keys i (omega arith)
