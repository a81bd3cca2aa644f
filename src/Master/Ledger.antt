-- ===== src/Master/Ledger.antt =====
-- The transactions of a Master Node (MasterNodeLib.cpp): requests, notifications, verification results.
-- The map entry that the source holds by reference is a value here, put back when the call ends.
pub mod Verify
pub mod Spends
pub mod Queue
use decentralized_cloud.Base.{
  ◌&&◌, ℕ, ◌+◌, ◌-◌, Option, none, some, Bool, true, false, List, [], ◌∷◌, ◌++◌, Text, text_eq,
  codes, is_empty, ltb, if◌then◌else◌,
}
use decentralized_cloud.Base.Dict.{Dict, find, contains, insert, assign, erase}
use decentralized_cloud.Base.Decimal.{to_string}
use decentralized_cloud.Base.Outcome.{Outcome, ok, thrown, ◌>>=◌}
use decentralized_cloud.Json.{JsonObject, str, get_text}
use decentralized_cloud.Message.{Effect, gossip, ws_send, can_commit, code_delivery}
use decentralized_cloud.Peers.{get_number_of_verifiers, get_verifier_node_key}
use decentralized_cloud.Transaction.{
  Transaction, empty_transaction, originate, early, set_output, set_compute_node_id,
  set_sent_to_client, set_in_block, set_master_node_id, set_tenant_id, set_function_id,
  set_signature, set_public_key, set_input, verify_hash, can_send, is_verified,
}
use decentralized_cloud.Transaction.Codec.{to_json, from_json}
use decentralized_cloud.Master.State.{Env, Node, emit}
use decentralized_cloud.Master.Storage.{get_state_change_storage_node}

-- `wsServer.send(key, j.dump())`, which throws if a text is not UTF-8 or the client is not connected.
unfoldable pub send_to_client : Env → Text → JsonObject → Node → Outcome Node
unfolding emit
send_to_client env key j n =
    if env.dumps j && env.connected key then ok (emit (ws_send key j) n) else thrown n

-- A transaction by reference, and the node around it.
abbrev pub Held : Type 0
Held = Transaction × Node

-- The answer to the client: the storage node is looked up first, and named or warned about.
unfoldable response : Transaction → Node → JsonObject
response tx n =
    (codes "txid", str tx.tx_id)
    ∷ (if is_empty n.state_change_storage_node
        then (
          codes "w",
          str (
              codes
                "Warning: No storage nodes available to commit the state change update for this transaction. This could be because the storage nodes have disconnected from the network."),
        )
          ∷ (codes "data", str tx.output)
          ∷ []
        else (codes "data", str tx.output) ∷ [])

commit_at_compute_node : Transaction → Node → Node
unfolding emit
commit_at_compute_node tx n =
    if is_empty n.state_change_storage_node
    then n
    else emit
        (gossip tx.compute_node_id can_commit (
          (codes "txid", tx.tx_id)
          ∷ (codes "sid", n.state_change_storage_node)
          ∷ (codes "tid", [])
          ∷ []))
        n

-- The branch `if (tx.canSend())`.
answered : Transaction → Outcome Node → Outcome Held
unfolding set_sent_to_client commit_at_compute_node
answered tx (ok n) = ok (set_sent_to_client tx, commit_at_compute_node tx n)
answered tx (thrown n) = thrown (tx, n)

unfoldable pub answer_client : Env → Held → Outcome Held
unfolding get_state_change_storage_node send_to_client response answered
answer_client env (tx, n) =
    let found = get_state_change_storage_node env n in
    answered tx (send_to_client env tx.public_key (response tx found) found)

-- The branch `if (!tx.inBlock())`.
unfoldable pub queue_for_block : Held → Held
unfolding set_in_block
queue_for_block (tx, n) =
    if tx.in_block
    then (tx, n)
    else (set_in_block tx, record n { queue_out = n.queue_out ++ tx ∷ [] })

unfoldable pub check_verification : Env → Held → Outcome Held
unfolding is_verified can_send answer_client queue_for_block
check_verification env (tx, n) =
    if is_verified tx
    then (do
      held ← if can_send tx then answer_client env (tx, n) else ok (tx, n)
      ok (queue_for_block held))
    else ok (tx, n)

-- Puts the referenced transaction back, whether or not the call threw.
unfoldable pub put_back : Text → Outcome Held → Outcome Node
unfolding assign
put_back id (ok (tx, n)) = ok (record n { transactions = assign id tx n.transactions })
put_back id (thrown (tx, n)) = thrown (record n { transactions = assign id tx n.transactions })

-- `Transaction& tx = transactions.at(txId)` and the rest of `verifyTransaction`.
unfoldable pub report : Env → Text → Text → Text → Option Transaction → Node → Outcome Node
unfolding set_output verify_hash check_verification put_back
report env id hash output none n = thrown n
report env id hash output (some tx) n =
    let with_output = if is_empty output then tx else set_output output tx in
    put_back id (check_verification env ((verify_hash hash with_output).0, n))

unfoldable pub verify_transaction : Env → Text → Text → Text → Node → Outcome Node
unfolding contains insert find early report
verify_transaction env id hash output n =
    let stored =
      if contains id n.transactions
      then n
      else record n { transactions = insert id (early id hash n.now) n.transactions } in
    report env id hash output (find id stored.transactions) stored

-- `generateRandomNumber(a, b)`: a draw from [a, b).
unfoldable pub generate_random_number : Env → ℕ → ℕ → ℕ
generate_random_number env a b = env.uniform a (b - 1)

code_fields : Transaction → Text → List (Text × Text)
code_fields tx storage =
    (codes "i", tx.input)
    ∷ (codes "co", tx.code)
    ∷ (codes "txid", tx.tx_id)
    ∷ (codes "s", storage)
    ∷ (codes "tid", tx.tenant_id)
    ∷ (codes "com", if tx.compute_node then codes "0" else codes "1")
    ∷ []

-- After the verifier is drawn. A key past the end of the vector is a fault, shown as a throw.
deliver_code : Env → Option Text → Held → Outcome Held
unfolding set_compute_node_id get_state_change_storage_node code_fields emit
deliver_code env none held = thrown held
deliver_code env (some key) (tx, n) =
    let tx' = if tx.compute_node then set_compute_node_id key tx else tx in
    let found = get_state_change_storage_node env n in
    ok (
      tx',
      if is_empty found.state_change_storage_node
          then found
          else emit (gossip key code_delivery (code_fields tx' found.state_change_storage_node))
              found,
    )

unfoldable pub send_to_verifier : Env → Held → Outcome Held
unfolding get_number_of_verifiers get_verifier_node_key generate_random_number deliver_code
send_to_verifier env (tx, n) =
    let count = get_number_of_verifiers n.peers in
    if ltb count 1
    then ok (tx, n)
    else deliver_code env (get_verifier_node_key (generate_random_number env 0 count) n.peers)
        (tx, n)

-- The notified transaction is in the map: it goes to a verifier and is checked.
unfoldable pub forward : Env → Text → Outcome Transaction → Node → Outcome Node
unfolding put_back send_to_verifier check_verification
forward env id (thrown tx) n = put_back id (thrown (tx, n))
forward env id (ok tx) n =
    put_back id do held ← send_to_verifier env (tx, n); check_verification env held

-- `fromJson` into the entry that is there, or into a new one, which is inserted only if it did not throw.
unfoldable pub take_notification :
    Env → Text → JsonObject → Option Transaction → Node → Outcome Node
unfolding from_json forward
take_notification env id j (some tx) n = forward env id (from_json j tx) n
take_notification env id j none n = elim (from_json j empty_transaction) [
  | ok tx ↦ forward env id (ok tx) n
  | thrown tx ↦ thrown n
]

unfoldable pub parse_notification : Env → Option JsonObject → Node → Outcome Node
unfolding get_text find take_notification
parse_notification env none n = thrown n
parse_notification env (some j) n = elim (get_text (codes "txid") j) [
  | none ↦ thrown n
  | some id ↦ take_notification env id j (find id n.transactions) n
]

unfoldable pub process_incoming_transaction : Env → Text → Node → Outcome Node
unfolding parse_notification
process_incoming_transaction env text n = parse_notification env (env.parse text) n

unfoldable cleanup_transactions : ℕ → Dict Text Transaction → Dict Text Transaction
cleanup_transactions old [] = []
cleanup_transactions old ((id, tx) ∷ txs) =
    if ltb tx.timestamp old
    then cleanup_transactions old txs
    else (id, tx) ∷ cleanup_transactions old txs

-- Drops the transactions older than a minute.
unfoldable pub cleanup_transactions_map : Node → Node
unfolding cleanup_transactions
cleanup_transactions_map n = record n {
  transactions = cleanup_transactions (n.now - 60) n.transactions;
}
