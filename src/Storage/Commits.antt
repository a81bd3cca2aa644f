-- ===== src/Storage/Commits.antt =====
-- How StorageNode/StorageNode.cpp commits blocks: `addToTxTree`, `addTransactions`, the handlers of
-- `closeBlock` and `verifyBlock`, and the queue that `processBlocks` works off.
pub mod Waiting
pub mod Verified
use decentralized_cloud.Base.{
  ℕ, zero, suc, Bool, Option, none, some, List, [], ◌∷◌, ◌++◌, Text, codes, text_eq, if◌then◌else◌,
  is_empty,
}
use decentralized_cloud.Base.Decimal.{to_string}
use decentralized_cloud.Base.Dict.{find, assign}
use decentralized_cloud.Base.Sort.{insert_by}
use decentralized_cloud.Json.{JsonObject, str, get_text}
use decentralized_cloud.Message.{FieldValueMap, gossip, verify_block}
use decentralized_cloud.Storage.World.{
  BlockJson, Env, World, Action, ◌>>=◌, ◌>>◌, give, or_throw, dht_get, dht_put, emit, add_object,
  add_link, fetch_object,
}
use decentralized_cloud.Storage.Trees.{
  transaction_tree, block_tree, joined, root_key, link_to_root, parse_or_throw,
}

-- `PriorityPairQueue`: block numbers with the texts of the blocks, the least number on top.
abbrev pub BlockQueue : Type 0
BlockQueue = List (ℕ × Text)

abbrev pub block_number : ℕ × Text → ℕ
block_number entry = entry.0

unfoldable pub push_block : ℕ × Text → BlockQueue → BlockQueue
unfolding insert_by
push_block = insert_by block_number

-- The entry that the handler of `closeBlock` makes of a message; `none` is an exception, which it
-- catches. Block numbers are below `2 ^ 31`.
unfoldable pub closed_block : Env → FieldValueMap → Option (ℕ × Text)
unfolding find
closed_block env fields = elim (find (codes "b") fields) [
  | none ↦ none
  | some b ↦ elim (env.parse_block (env.base64_decode b)) [
    | none ↦ none
    | some block ↦ elim (find (codes "key") fields) [
      | none ↦ none
      | some key ↦ elim (find (codes "si") fields) [
        | none ↦ none
        | some si ↦
            let verifier = (codes "k", str key) ∷ (codes "si", str si) ∷ [] in
            some (block.number, env.dump_block (record block { verifications = verifier ∷ [] }))
      ]
    ]
  ]
]

unfoldable pub push_closed : Option (ℕ × Text) → BlockQueue → BlockQueue
unfolding push_block
push_closed none queue = queue
push_closed (some entry) queue = push_block entry queue

unfoldable pub handle_close_block : Env → FieldValueMap → BlockQueue → BlockQueue
unfolding closed_block push_closed
handle_close_block env fields = push_closed (closed_block env fields)

-- `block["v"][0]`: the first verification; the indexing fills an empty array with a null.
unfoldable pub first_verification : List JsonObject → JsonObject
first_verification [] = []
first_verification (v ∷ vs) = v

module _ {env : Env} where
  unfoldable pub add_to_tx_tree : JsonObject → Action env (Unit {0})
  unfolding get_text joined root_key dht_get dht_put add_object add_link
  add_to_tx_tree transaction = do
    tx_hash ← add_object (env.dump transaction)
    txid ← or_throw (get_text (codes "txid") transaction)
    tid ← or_throw (get_text (codes "tid") transaction)
    dht_put (joined transaction_tree txid) tx_hash
    found_root ← dht_get (root_key (joined transaction_tree tid))
    tx_root_hash ←
        if is_empty found_root
        then add_object (root_key (joined transaction_tree tid))
        else give found_root
    new_tx_root_hash ← add_link tx_root_hash txid tx_hash
    dht_put (joined transaction_tree new_tx_root_hash) txid
    dht_put (root_key (joined transaction_tree tid)) new_tx_root_hash

  unfoldable pub add_all_to_tx_tree : List JsonObject → Action env (Unit {0})
  unfolding add_to_tx_tree
  add_all_to_tx_tree [] = give tt
  add_all_to_tx_tree (transaction ∷ transactions) = do
    add_to_tx_tree transaction
    add_all_to_tx_tree transactions

  -- The object of a block under its number, and in the tree of blocks.
  unfoldable pub name_block : Text → Text → Action env (Unit {0})
  unfolding joined dht_put link_to_root
  name_block block_id object_hash = do
    dht_put (joined block_tree block_id) object_hash
    link_to_root block_tree block_id object_hash []

  unfoldable pub add_transactions : Text → Action env (Unit {0})
  unfolding emit add_object add_all_to_tx_tree first_verification name_block to_string assign
  add_transactions input = do
    block ← or_throw (env.parse_block input)
    add_all_to_tx_tree block.data_array
    object_hash ← add_object (env.dump_block block)
    name_block (to_string block.number) object_hash
    emit (
        gossip (codes "master21") verify_block (
          (
            codes "b",
            env.base64_encode (
                env.dump (
                  assign (codes "n") (str (to_string block.number))
                    (first_verification block.verifications))),
          )
          ∷ []))

  -- One turn of `processBlocks`: the queue that is left. The lock is held from the top to the pop.
  unfoldable pub process_turn : BlockQueue → Action env BlockQueue
  unfolding add_transactions
  process_turn [] = give []
  process_turn ((number, block) ∷ queue) = do add_transactions block; give queue

  unfoldable process_turns : ℕ → BlockQueue → Action env BlockQueue
  unfolding process_turn
  process_turns zero queue = give queue
  process_turns (suc n) queue = do left ← process_turn queue; process_turns n left

  -- The handler of `verifyBlock` adds a verification to a block that is stored.
  unfoldable pub handle_verify_block : FieldValueMap → Action env (Unit {0})
  unfolding find joined dht_get add_object fetch_object name_block parse_or_throw
  handle_verify_block fields = do
    d ← or_throw (find (codes "d") fields)
    verification ← parse_or_throw (env.base64_decode d)
    block_id ← or_throw (find (codes "b") fields)
    hash ← dht_get (joined block_tree block_id)
    obj ← fetch_object hash
    block ← or_throw (env.parse_block obj)
    object_hash ←
        add_object (
          env.dump_block
            (record block { verifications = block.verifications ++ verification ∷ [] }))
    name_block block_id object_hash
