-- ===== src/Master/Handlers.antt =====
-- The commands that a Master Node handles (MasterNode/main.cpp). An exception of a handler is caught and
-- logged by `processIncomingData`. The code delivery does nothing.
pub mod Verdicts
use decentralized_cloud.Base.{
  ℕ, Option, none, some, Bool, true, false, [], ◌∷◌, ◌++◌, Text, text_eq, ◌==◌, codes, is_empty,
  nat_beq, nat_eq, get_elem?, if◌then◌else◌,
}
use decentralized_cloud.Base.Decimal.{stol}
use decentralized_cloud.Base.Dict.{find, contains, assign, erase}
use decentralized_cloud.Base.Outcome.{Outcome, ok, thrown, ◌>>=◌}
use decentralized_cloud.Block.{Block}
use decentralized_cloud.Json.{JsonObject, str, get_text}
use decentralized_cloud.Message.{FieldValueMap, gossip, exception, verify_block}
use decentralized_cloud.Peers.Sync.{sync_nodes}
use decentralized_cloud.Peers.{
  Peers, get_number_of_storage_nodes, get_storage_node_key, get_storage_node_url,
}
use decentralized_cloud.Transaction.{
  Transaction, empty_transaction, set_output, set_function_id, set_exception,
}
use decentralized_cloud.Transaction.Codec.{to_json, from_json}
use decentralized_cloud.Master.State.{Env, Node, Voter, emit}
use decentralized_cloud.Master.Storage.{get_block_storage_node}
use decentralized_cloud.Master.Producers.{get_block_producer_for, is_block_producer}
use decentralized_cloud.Master.Voting.{register_vote}
use decentralized_cloud.Master.Ledger.{
  send_to_client, generate_random_number, verify_transaction, process_incoming_transaction,
}
use decentralized_cloud.Master.Request.{process_code_packet}

-- `theFields.at(key)`, which throws.
abbrev pub with_field : Text → FieldValueMap → Node → (Text → Outcome Node) → Outcome Node
with_field key fields n k = elim (find key fields) [ none ↦ thrown n | some v ↦ k v ]

-- A member of a JSON object as a text, which throws.
abbrev with_member : Text → JsonObject → Node → (Text → Outcome Node) → Outcome Node
with_member key j n k = elim (get_text key j) [ none ↦ thrown n | some v ↦ k v ]

-- `theFields[key]`, which is empty for a key that is not there.
unfoldable pub field_or_empty : Text → FieldValueMap → Text
unfolding find
field_or_empty key fields = elim (find key fields) [ none ↦ [] | some v ↦ v ]

unfoldable handle_exe_function : Env → FieldValueMap → Node → Outcome Node
unfolding field_or_empty process_code_packet
handle_exe_function env fields n =
    process_code_packet env
      (record {
        utxid = field_or_empty (codes "utxid") fields;
        htxid = field_or_empty (codes "txid") fields;
        tenant_id = field_or_empty (codes "tid") fields;
        code = field_or_empty (codes "h") fields;
        inputs = field_or_empty (codes "i") fields;
        signature = field_or_empty (codes "s") fields;
        public_key = field_or_empty (codes "k") fields;
      })
      n

unfoldable handle_verification_result : Env → FieldValueMap → Node → Outcome Node
unfolding find field_or_empty verify_transaction
handle_verification_result env fields n = with_field (codes "txid") fields n λ id.
    with_field (codes "h") fields n
      λ hash. verify_transaction env id hash (field_or_empty (codes "o") fields) n

-- The transaction without its output and its function, with the exception.
unfoldable pub failed : Text → Transaction → Transaction
unfolding set_output set_function_id set_exception
failed exp tx = set_exception exp (set_function_id [] (set_output [] tx))

-- `if (isBlockProducer()) queueOut.push_back(...)`
unfoldable pub queue_if_producer : Option Bool → Transaction → Node → Outcome Node
queue_if_producer none tx n = thrown n
queue_if_producer (some true) tx n = ok (record n { queue_out = n.queue_out ++ tx ∷ [] })
queue_if_producer (some false) tx n = ok n

-- The transaction leaves the map, and the others of the 21 are told of it.
unfoldable pub spread_exception : Env → Text → Transaction → Node → Outcome Node
unfolding erase emit to_json
spread_exception env id tx n = ok (
    emit (gossip (codes "master21") exception ((codes "tx", env.dump (to_json tx)) ∷ []))
      (record n { transactions = erase id n.transactions }))

-- An exception of the transaction `tx` of the map, set by reference. Its JSON text is made before it is
-- queued and taken out of the map, and `dump` may throw.
unfoldable pub fail_known : Env → Text → Text → Transaction → Node → Outcome Node
unfolding assign failed send_to_client queue_if_producer spread_exception is_block_producer to_json
fail_known env id exp tx n =
    let tx' = failed exp tx in
    let set = record n { transactions = assign id tx' n.transactions } in
    do
      told ←
          if tx.compute_node
          then send_to_client env tx.public_key
              ((codes "txid", str id) ∷ (codes "data", str exp) ∷ []) set
          else ok set
      dumped ← if env.dumps (to_json tx') then ok told else thrown told
      kept ← queue_if_producer (is_block_producer env dumped) tx' dumped
      spread_exception env id tx' kept

-- The exception of a transaction that another of the 21 was told of.
unfoldable take_failed : Env → Option JsonObject → Node → Outcome Node
unfolding from_json queue_if_producer is_block_producer
take_failed env none n = thrown n
take_failed env (some j) n = elim (from_json j empty_transaction) [
  | ok tx ↦ queue_if_producer (is_block_producer env n) tx n
  | thrown tx ↦ thrown n
]

unfoldable pub handle_exception : Env → FieldValueMap → Node → Outcome Node
unfolding field_or_empty find fail_known take_failed
handle_exception env fields n =
    if is_empty (field_or_empty (codes "tx") fields)
    then with_field (codes "txid") fields n (λ id.
      with_field (codes "e") fields n
        λ exp. elim (find id n.transactions) [ none ↦ ok n | some tx ↦ fail_known env id exp tx n ])
    else take_failed env (env.parse (field_or_empty (codes "tx") fields)) n

unfoldable handle_chose_random_number : Env → FieldValueMap → Node → Outcome Node
unfolding find register_vote
handle_chose_random_number env fields n =
    with_field (codes "s") fields n
      λ signature. with_field (codes "key") fields n λ key. ok (register_vote env signature key n)

unfoldable handle_tx_notification : Env → FieldValueMap → Node → Outcome Node
unfolding find process_incoming_transaction
handle_tx_notification env fields n =
    with_field (codes "utxid") fields n
      λ utxid. with_field (codes "tx") fields n λ tx. process_incoming_transaction env tx n

-- The peers that were taken over, also where an exception came in between.
with_peers : Node → Outcome Peers → Outcome Node
with_peers n (ok p) = ok (record n { peers = p })
with_peers n (thrown p) = thrown (record n { peers = p })

unfoldable handle_sync_nodes : Env → FieldValueMap → Node → Outcome Node
unfolding find sync_nodes with_peers
handle_sync_nodes env fields n =
    with_field (codes "d") fields n λ text. with_peers n (sync_nodes env.parse text n.peers)

-- The storage node that is drawn, and the node after its address was read.
unfoldable draw_storage_url : Env → Node → Text × Node
unfolding get_number_of_storage_nodes get_storage_node_key get_storage_node_url
    generate_random_number
draw_storage_url env n =
    let count = get_number_of_storage_nodes n.peers in
    let key = get_storage_node_key (generate_random_number env 1 count) n.peers in
    let (url, peers) = get_storage_node_url key n.peers in
    if nat_beq count 0 then (codes "n/a", n) else (url, record n { peers = peers })

unfoldable handle_storageurl : Env → FieldValueMap → Node → Outcome Node
unfolding find draw_storage_url send_to_client
handle_storageurl env fields n = with_field (codes "tid") fields n λ tenant.
    with_field (codes "txid") fields n λ txid. with_field (codes "k") fields n λ key.
      let (url, n') = draw_storage_url env n in
      send_to_client env key ((codes "txid", str txid) ∷ (codes "data", str url) ∷ []) n'

unfoldable handle_state_change_response : Env → FieldValueMap → Node → Outcome Node
unfolding find send_to_client
handle_state_change_response env fields n = with_field (codes "txid") fields n λ txid.
    with_field (codes "data") fields n λ data_text. with_field (codes "id") fields n λ id.
      elim (find txid n.transactions) [
        | none ↦ ok n
        | some tx ↦
            send_to_client env tx.public_key
              ((codes "txid", str txid) ∷ (codes "data", str data_text) ∷ (codes "id", str id) ∷ [])
              n
      ]

-- After the producer of the second is known: the three branches send the same text, which was made
-- before `s` was set.
unfoldable pub send_verdict : Env → Text → Text → Text → ℕ → Block → Voter → Node → Outcome Node
unfolding emit erase
send_verdict env producer_key signature number bid block producer n =
    let j =
      (codes "k", str (env.base64_encode env.node_key))
      ∷ (codes "si", str (env.sign block.hash))
      ∷ [] in
    let text = env.base64_encode (env.dump j) in
    let refused =
      emit (gossip n.block_storage_node verify_block ((codes "b", number) ∷ (codes "d", text) ∷ []))
        n in
    let agreed =
      emit (gossip n.block_storage_node verify_block ((codes "b", number) ∷ (codes "d", text) ∷ []))
        n in
    let done =
      if producer.public_key == producer_key
      then (if env.verify_x509 block.hash signature (producer_key ++ 0 ∷ [])
          then agreed
          else refused)
      else refused in
    ok (record done { blocks = erase bid done.blocks })

-- `blockProducers.at(producer)`; -1 returns before.
unfoldable pub check_producer : Env → Text → Text → Text → ℕ → Block → ℕ → Node → Outcome Node
unfolding get_block_producer_for send_verdict
check_producer env producer_key signature number bid block time n =
    elim (get_block_producer_for time n) [
      | none ↦ ok n
      | some i ↦ elim (get_elem? n.block_producers i) [
        | none ↦ thrown n
        | some v ↦ send_verdict env producer_key signature number bid block v n
      ]
    ]

-- The block is one that the node remembers. The time was read before, by `processIncomingData`, which
-- lets none before the node's start pass. The bytes of the key end with the zero of the C string.
unfoldable pub check_block : Env → Text → Text → Text → Text → ℕ → Block → Node → Outcome Node
unfolding get_block_storage_node check_producer stol
check_block env timestamp producer_key signature number bid block n =
    let found = get_block_storage_node env n in
    let read = stol env.long_max timestamp in
    if env.is_public_key (producer_key ++ 0 ∷ [])
    then (if is_empty found.block_storage_node then ok found else elim read [
      | none ↦ thrown found
      | some time ↦ check_producer env producer_key signature number bid block time found
    ])
    else thrown n

unfoldable pub read_verdict : Env → Text → JsonObject → Node → Outcome Node
unfolding get_text stol find check_block
read_verdict env timestamp b n = with_member (codes "k") b n λ key.
    with_member (codes "si") b n λ signature. with_member (codes "n") b n λ number.
      elim (stol env.long_max number) [
        | none ↦ thrown n
        | some bid ↦ elim (find bid n.blocks) [
          | none ↦ ok n
          | some block ↦
              check_block env timestamp (env.base64_decode key) signature number bid block n
        ]
      ]

unfoldable pub handle_verify_block : Env → FieldValueMap → Node → Outcome Node
unfolding find read_verdict
handle_verify_block env fields n = with_field (codes "b") fields n λ text.
    elim (env.parse (env.base64_decode text)) [
      | none ↦ thrown n
      | some b ↦ with_field (codes "tm") fields n λ timestamp. read_verdict env timestamp b n
    ]
