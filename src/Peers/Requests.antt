-- ===== src/Peers/Requests.antt =====
-- How a node joins: `sendConnectionRequest` of MasterNodeLib/MasterNodeLib.cpp, ComputeNode/main.cpp and
-- StorageNode/StorageNode.cpp. The text of the public address is a parameter.
use decentralized_cloud.Base.{ℕ, [], ◌∷◌, ◌++◌, List, Text, codes}
use decentralized_cloud.Base.Decimal.{to_string}
use decentralized_cloud.Message.{FieldValueMap, Effect, gossip, connection_request}
use decentralized_cloud.Peers.{master_node, verifier_node, storage_node}

abbrev pub node_uri : Text → ℕ → Text
node_uri ip port = codes "ws://" ++ (ip ++ (codes ":" ++ to_string port))

-- The fields of the three requests, which differ in the type.
abbrev pub request_fields : ℕ → Text → ℕ → FieldValueMap
request_fields type ip port = (codes "t", to_string type) ∷ (codes "u", node_uri ip port) ∷ []

unfoldable pub request_of_master_node : Text → ℕ → List Effect
request_of_master_node ip port =
    gossip (codes "masternodes") connection_request (request_fields master_node ip port) ∷ []

unfoldable pub request_of_compute_node : Text → ℕ → List Effect
request_of_compute_node ip port =
    gossip (codes "masternodes") connection_request (request_fields verifier_node ip port) ∷ []

unfoldable pub request_of_storage_node : Text → ℕ → List Effect
request_of_storage_node ip port =
    gossip (codes "masternodes") connection_request (request_fields storage_node ip port)
    ∷ gossip (codes "storagenodes") connection_request (request_fields storage_node ip port)
    ∷ []
