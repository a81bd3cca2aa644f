-- ===== src/Master/Closing.antt =====
-- Closing a block (`timeToCloseBlock` of MasterNodeLib.cpp) and one turn of `runLoop`.
pub mod Split
pub mod Steady
pub mod Pace
use decentralized_cloud.Base.{
  ℕ, ◌+◌, ◌-◌, ◌*◌, Option, none, some, Bool, true, false, List, [], ◌∷◌, ◌++◌, Text, codes,
  is_empty, leb, ltb, length, if◌then◌else◌, nat_eq,
}
use decentralized_cloud.Base.Dict.{insert}
use decentralized_cloud.Base.Outcome.{Outcome, ok, thrown, ◌>>=◌}
use decentralized_cloud.Block.{Block, ChainState, Made, unread, undumped, made, get_block}
use decentralized_cloud.Message.{Effect, gossip, close_block}
use decentralized_cloud.Transaction.{Transaction}
use decentralized_cloud.Master.State.{Env, Node, emit}
use decentralized_cloud.Master.Clock.{get_current_timestamp}
use decentralized_cloud.Master.Producers.{is_block_producer}
use decentralized_cloud.Master.Storage.{get_block_storage_node}
use decentralized_cloud.Master.Voting.{enter_and_exit_voting_phase}
use decentralized_cloud.Master.Ledger.{cleanup_transactions_map}

-- The loop over the sorted queue: what is due goes to the block, from the first that is not the rest
-- stays.
unfoldable pub split_due : ℕ → List Transaction → List Transaction × List Transaction
split_due now [] = ([], [])
split_due now (tx ∷ txs) =
    let (due, later) = split_due now txs in
    if leb tx.timestamp now then (tx ∷ due, later) else ([], tx ∷ txs)

-- `blocks.insert`
unfoldable pub keep_block : Block → Node → Node
unfolding insert
keep_block b n = record n { blocks = insert b.number b n.blocks }

-- The producer sends the block to the storage node for blocks; without one it returns.
unfoldable pub send_block : Env → (Block → Text) → Block → Node → Node
unfolding get_block_storage_node emit keep_block
send_block env block_text b n =
    let found = get_block_storage_node env n in
    if is_empty found.block_storage_node
    then found
    else keep_block b (
        emit
          (gossip found.block_storage_node close_block (
            (codes "b", env.base64_encode (block_text b))
            ∷ (codes "si", env.sign b.hash)
            ∷ (codes "key", found.base64encoded_key)
            ∷ []))
          found)

-- The others keep at most 200 blocks, and forget them all at once.
unfoldable pub remember_block : Block → Node → Node
unfolding keep_block
remember_block b n =
    keep_block b (if ltb 200 (length n.blocks) then record n { blocks = [] } else n)

-- After the block is made, where the exceptions of `at` come first.
unfoldable pub hand_out : Env → (Block → Text) → Block → Option Bool → Node → Outcome Node
unfolding send_block remember_block
hand_out env block_text b none n = thrown n
hand_out env block_text b (some true) n = ok (send_block env block_text b n)
hand_out env block_text b (some false) n = ok (remember_block b n)

unfoldable pub made_block : Env → (Block → Text) → Made → Node → Outcome Node
unfolding hand_out is_block_producer
made_block env block_text unread n = thrown n
made_block env block_text (undumped chain effects) n =
    thrown (record n { chain = chain; sent = n.sent ++ effects })
made_block env block_text (made b chain effects) n =
    let n' = record n { chain = chain; sent = n.sent ++ effects } in
    hand_out env block_text b (is_block_producer env n') n'

-- `block_text` is `toJSONString`, the JSON text of a block.
unfoldable pub time_to_close_block : Env → (Block → Text) → Node → Outcome Node
unfolding split_due get_block made_block
time_to_close_block env block_text n =
    let key =
      if is_empty n.base64encoded_key
      then env.base64_encode env.node_key
      else n.base64encoded_key in
    let (due, later) = split_due n.now (env.sort_transactions n.queue_out) in
    let taken = record n { base64encoded_key = key; queue_out = later } in
    made_block env block_text (get_block env.dumps env.hash env.dht_get n.now due n.chain) taken

-- One turn of `runLoop` at the system time `time`. The exceptions leave the loop.
close_if_due : Env → (Block → Text) → ℕ → Node → Outcome Node
unfolding time_to_close_block
close_if_due env block_text now n =
    if leb 1 (now - n.last_round_timestamp)
    then time_to_close_block env block_text (record n { last_round_timestamp = now })
    else ok n

clean_if_due : ℕ → Node → Outcome Node
unfolding cleanup_transactions_map
clean_if_due now n =
    if ltb (60 * 5) (now - n.last_cleanup_time)
    then ok (cleanup_transactions_map (record n { last_cleanup_time = now }))
    else ok n

or_thrown : Node → Option Node → Outcome Node
or_thrown n none = thrown n
or_thrown n (some n') = ok n'

unfoldable pub run_loop_turn : Env → (Block → Text) → ℕ → ℕ → ℕ → Node → Outcome Node
unfolding get_current_timestamp enter_and_exit_voting_phase close_if_due clean_if_due or_thrown
run_loop_turn env block_text app_startup system_startup time n =
    let started = get_current_timestamp app_startup system_startup time n in
    do
      voted ← or_thrown started (enter_and_exit_voting_phase env started)
      closed ← close_if_due env block_text started.now voted
      clean_if_due started.now closed

-- The loop over the system times of its turns, until it is asked to stop or throws.
unfoldable pub run_loop : Env → (Block → Text) → ℕ → ℕ → List ℕ → Node → Outcome Node
unfolding run_loop_turn
run_loop env block_text app_startup system_startup [] n = ok n
run_loop env block_text app_startup system_startup (time ∷ times) n =
    run_loop_turn env block_text app_startup system_startup time n
    >>= run_loop env block_text app_startup system_startup times
