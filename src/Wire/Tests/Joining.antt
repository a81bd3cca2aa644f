-- ===== src/Wire/Tests/Joining.antt =====
-- Two nodes that come to know one another.
use decentralized_cloud.Base.{◌≡◌, refl, [], ◌∷◌, ◌++◌, Text, text_eq, List, map, codes}
use decentralized_cloud.Base.Decimal.{to_string}
use decentralized_cloud.Message.{gossip, FieldValueMap, connection_request}
use decentralized_cloud.Peers.{verifier_node}
use decentralized_cloud.Peers.Requests.{
  request_of_master_node, request_of_compute_node, request_of_storage_node, request_fields,
}
use decentralized_cloud.Wire.Fields.{text_of, sent_fields}
use decentralized_cloud.Wire.Inbox.{Inbox}
use decentralized_cloud.Wire.Delivery.Joined.{Joined}
use decentralized_cloud.Wire.Tests.{plain_boost, plain_boost-Documented}

abbrev asked : FieldValueMap
asked = request_fields verifier_node (codes "10.0.0.7") 8080

-- What the three kinds of nodes send when they start.
asked-by_compute_node :
    request_of_compute_node (codes "10.0.0.7") 8080
    ≡ gossip (codes "masternodes") connection_request asked ∷ []
unfolding request_of_compute_node
asked-by_compute_node = refl

asked-by_master_node :
    request_of_master_node (codes "h") 1
    ≡ gossip
        (codes "masternodes")
        connection_request
        ((codes "t", to_string 0) ∷ (codes "u", codes "ws://h:" ++ to_string 1) ∷ [])
      ∷ []
unfolding request_of_master_node
asked-by_master_node = refl

asked-by_storage_node :
    (channels : List Text) × (request_of_storage_node (codes "h") 1
      ≡ map
          (λ channel. gossip channel connection_request (request_fields 2 (codes "h") 1))
          channels)
unfolding request_of_storage_node
asked-by_storage_node = (codes "masternodes" ∷ codes "storagenodes" ∷ [], refl)

-- The request of a Compute Node, as the table gives its text.
abbrev asking : Text
asking = text_of plain_boost plain_boost-Documented (
    sent_fields plain_boost plain_boost-Documented connection_request asked (codes "g")
      (codes "id1") 1700)
