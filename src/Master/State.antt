-- ===== src/Master/State.antt =====
-- The globals of MasterNodeLib/MasterNodeLib.cpp as one record, and what surrounds a call.
use decentralized_cloud.Base.{ℕ, Bool, Option, List, [], ◌∷◌, ◌++◌, Text}
use decentralized_cloud.Base.Dict.{Dict}
use decentralized_cloud.Block.{Block, ChainState}
use decentralized_cloud.Json.{JsonObject}
use decentralized_cloud.Message.{Effect}
use decentralized_cloud.Peers.{Peers}
use decentralized_cloud.Transaction.{Transaction}

-- `class Voter`; `number` is a `uint32_t`.
pub record Voter : Type 0 where
  pub signature : Text
  pub public_key : Text
  pub number : ℕ
  pub valid : Bool

-- What a call reads of the world outside this repository, as it is during the call.
pub record Env : Type 0 where
  -- `dhtNode.getId().toString()`, the text of the node's public key, and `createX509Signature`
  -- with the node's identity
  pub node_id : Text
  pub node_key : Text
  pub sign : Text → Text
  -- `verifyX509Signature(message, signature, key)`, `verifyEd25519Signature(message, key, signature)`
  pub verify_x509 : Text → Text → Text → Bool
  pub verify_ed25519 : Text → Text → Text → Bool
  -- whether `dht::crypto::PublicKey` takes the bytes; it throws if not
  pub is_public_key : Text → Bool
  pub base64_encode : Text → Text
  pub base64_decode : Text → Text
  -- `InfoHash::get(text).toString()`
  pub hash : Text → Text
  pub dht_get : Text → Text
  -- `json::dump`, and whether it finds every text to be UTF-8, as it throws if not; `json::parse`, where
  -- `none` is a parse error
  pub dump : JsonObject → Text
  pub dumps : JsonObject → Bool
  pub parse : Text → Option JsonObject
  -- whether `WebSocketServer::getDataFromKey` finds the client; it throws if not
  pub connected : Text → Bool
  -- the largest `long`
  pub long_max : ℕ
  -- a draw from the closed interval, and the next GUID
  pub uniform : ℕ → ℕ → ℕ
  pub guid : Text
  -- `std::sort` of the voters by number and of the transactions by timestamp
  pub sort_voters : List Voter → List Voter
  pub sort_transactions : List Transaction → List Transaction

pub record Node : Type 0 where
  -- `currentTimestamp`
  pub now : ℕ
  pub next_voting_timestamp_str : Text
  pub ignore_this_voting_round : Bool
  pub in_voting_phase : Bool
  pub subscribed_to21 : Bool
  pub random_numbers : List Voter
  pub block_producers : List Voter
  pub elected_master_nodes : Dict Text (List Text)
  pub transactions : Dict Text Transaction
  pub queue_out : List Transaction
  pub block_storage_node : Text
  pub state_change_storage_node : Text
  pub base64encoded_key : Text
  pub blocks : Dict ℕ Block
  pub chain : ChainState
  pub peers : Peers
  pub last_round_timestamp : ℕ
  pub last_cleanup_time : ℕ
  -- the calls that left the node, the oldest first
  pub sent : List Effect

unfoldable pub emit : Effect → Node → Node
emit e n = record n { sent = n.sent ++ e ∷ [] }
