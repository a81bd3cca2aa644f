-- ===== src/Transaction.antt =====
-- `class Transaction` of shared/common/transaction.h and BlockChainCommon/transaction.cpp.
-- Times are `time_t` values from 0 on; `m_totalVerified` counts messages and stays below 2^31.
pub mod Codec
pub mod Votes
mod Tests
use decentralized_cloud.Base.{
  ℕ, ◌+◌, ◌*◌, ◌/◌, Bool, true, false, not, ◌&&◌, [], Text, text_eq, ◌==◌, leb, is_empty,
  if◌then◌else◌,
}

pub record Transaction : Type 0 where
  pub sent_to_client : Bool
  pub received_output : Bool
  pub received_full_transaction : Bool
  pub total_verified : ℕ
  pub last_valid_hash : Text
  pub in_block : Bool
  pub timestamp : ℕ
  pub tx_id : Text
  pub block_id : ℕ
  pub compute_node : Bool
  pub tenant_id : Text
  pub master_node_id : Text
  pub compute_node_id : Text
  pub code : Text
  pub signature : Text
  pub public_key : Text
  pub output : Text
  pub input : Text
  pub exception : Text

-- `Transaction()`
abbrev pub empty_transaction : Transaction
empty_transaction = record {
  sent_to_client = false;
  received_output = false;
  received_full_transaction = false;
  total_verified = 0;
  last_valid_hash = [];
  in_block = false;
  timestamp = 0;
  tx_id = [];
  block_id = 0;
  compute_node = false;
  tenant_id = [];
  master_node_id = [];
  compute_node_id = [];
  code = [];
  signature = [];
  public_key = [];
  output = [];
  input = [];
  exception = [];
}

-- `Transaction(txId, timestamp)`: the Master Node that took the request.
unfoldable pub originate : Text → ℕ → Transaction
originate id now = record empty_transaction {
  tx_id = id;
  timestamp = now;
  received_full_transaction = true;
  compute_node = true;
}

-- `Transaction(txId, hash, timestamp)`: a verification arrived before the notification.
unfoldable pub early : Text → Text → ℕ → Transaction
early id hash now = record empty_transaction { tx_id = id; last_valid_hash = hash; timestamp = now }

-- `TOTAL_MASTER_NODES` and `MAJORITY_THRESHOLD`; the double 21 * (2.0 / 3.0) is 14 exactly.
abbrev pub total_master_nodes : ℕ
total_master_nodes = 21

abbrev pub majority_threshold : ℕ
majority_threshold = total_master_nodes * 2 / 3

unfoldable pub set_output : Text → Transaction → Transaction
set_output output tx = record tx { output = output; received_output = true }

unfoldable pub set_input : Text → Transaction → Transaction
set_input input tx = record tx { input = input }

unfoldable pub set_exception : Text → Transaction → Transaction
set_exception exception tx = record tx { exception = exception }

unfoldable pub set_block_id : ℕ → Transaction → Transaction
set_block_id id tx = record tx { block_id = id }

unfoldable pub set_tenant_id : Text → Transaction → Transaction
set_tenant_id id tx = record tx { tenant_id = id }

unfoldable pub set_compute_node_id : Text → Transaction → Transaction
set_compute_node_id id tx = record tx { compute_node_id = id }

unfoldable pub set_master_node_id : Text → Transaction → Transaction
set_master_node_id id tx = record tx { master_node_id = id }

unfoldable pub set_function_id : Text → Transaction → Transaction
set_function_id id tx = record tx { code = id }

unfoldable pub set_signature : Text → Transaction → Transaction
set_signature signature tx = record tx { signature = signature }

unfoldable pub set_public_key : Text → Transaction → Transaction
set_public_key key tx = record tx { public_key = key }

unfoldable pub set_sent_to_client : Transaction → Transaction
set_sent_to_client tx = record tx { sent_to_client = true }

unfoldable pub set_in_block : Transaction → Transaction
set_in_block tx = record tx { in_block = true }

unfoldable increment_total_verified : Transaction → Transaction
increment_total_verified tx = record tx { total_verified = tx.total_verified + 1 }

-- The transaction afterwards, and the result.
unfoldable pub verify_hash : Text → Transaction → Transaction × Bool
unfolding increment_total_verified
verify_hash hash tx =
    if is_empty tx.last_valid_hash
    then (increment_total_verified (record tx { last_valid_hash = hash }), true)
    else if hash == tx.last_valid_hash
    then (increment_total_verified tx, true)
    else (tx, false)

unfoldable pub can_send : Transaction → Bool
can_send tx = not tx.sent_to_client && tx.compute_node

unfoldable pub is_verified : Transaction → Bool
is_verified tx =
    leb majority_threshold tx.total_verified && tx.received_full_transaction && tx.received_output
