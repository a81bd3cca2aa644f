-- ===== src/Master/Tests/Calls.antt =====
-- The calls on transactions and the closing of blocks, on a node with few transactions.
use mathlib.Core.List.{Perm}
use decentralized_cloud.Json.{JsonObject}
use decentralized_cloud.Base.{
  ◌+◌, arith, ◌≤◌, ◌<◌, ◌≡◌, refl, some, true, [], ◌∷◌, ◌++◌, Text, text_eq, codes, All, List,
}
use decentralized_cloud.Transaction.Codec.{Complete, to_json-Complete}
use decentralized_cloud.Base.Outcome.{ok, object_of}
use decentralized_cloud.Base.Sort.{sort_by-Sorts}
use decentralized_cloud.Base.Decimal.{to_string}
use decentralized_cloud.Message.{Effect, dht_put}
use decentralized_cloud.Block.{Block, ChainState, initial_chain, seal_block}
use decentralized_cloud.Transaction.{Transaction, early}
use decentralized_cloud.Transaction.Codec.{to_json}
use decentralized_cloud.Master.State.{Env, Node}
use decentralized_cloud.Master.Ledger.{
  check_verification, verify_transaction, process_incoming_transaction,
}
use decentralized_cloud.Master.Ledger.Queue.{
  QueuedOnce, QueuedOnce-fresh, verify_transaction-QueuedOnce,
  process_incoming_transaction-QueuedOnce,
}
use decentralized_cloud.Master.Ledger.Verify.{check_verification-settled}
use decentralized_cloud.Master.Closing.Pace.{run_loop_pace}
use decentralized_cloud.Master.Closing.{run_loop, time_to_close_block}
use decentralized_cloud.Master.Closing.Split.{time_to_close_block-queue}
use decentralized_cloud.Master.Tests.{me, world, fresh, voter}

fresh-QueuedOnce : QueuedOnce fresh
fresh-QueuedOnce = QueuedOnce-fresh fresh refl refl

verify_transaction-QueuedOnce_example :
    QueuedOnce (object_of (verify_transaction world (codes "T1") (codes "7f3a") [] fresh))
verify_transaction-QueuedOnce_example =
    verify_transaction-QueuedOnce world (codes "T1") (codes "7f3a") [] fresh fresh-QueuedOnce

abbrev noted : Transaction
noted = early (codes "T1") [] 1690

-- A world in which every text is the note of one transaction.
abbrev noting : Env
noting = record world { parse = λ text. some (to_json noted) }

noting-Complete : (j : JsonObject) → noting.parse (codes "{}") ≡ some j → Complete j
noting-Complete j e = let same : j ≡ to_json noted = cc in rw same (to_json-Complete noted)

process_incoming_transaction-QueuedOnce_example :
    QueuedOnce (object_of (process_incoming_transaction noting (codes "{}") fresh))
process_incoming_transaction-QueuedOnce_example =
    process_incoming_transaction-QueuedOnce noting (codes "{}") fresh noting-Complete
      fresh-QueuedOnce

abbrev done : Transaction
done = record noted {
  total_verified = 14;
  received_full_transaction = true;
  received_output = true;
}

abbrev mine : Transaction
mine = record done { compute_node = true }

abbrev queued : Node
queued = record fresh { queue_out = done ∷ [] }

check_verification-settled_example :
    check_verification world (record done { in_block = true }, queued)
    ≡ ok (record done { in_block = true }, queued)
unfolding check_verification early
check_verification-settled_example =
    check_verification-settled world done (record done { in_block = true }) fresh queued refl

abbrev later : Transaction
later = record noted { tx_id = codes "T2"; timestamp = 1800 }

abbrev two_queued : Node
two_queued = record fresh {
  queue_out = later ∷ noted ∷ [];
  block_producers = voter me 3 ∷ voter me 4 ∷ [];
}

abbrev text_of : Block → Text
text_of b = b.hash

time_to_close_block-queue_example :
    (due : List Transaction) × Perm
      (due ++ (object_of (time_to_close_block world text_of two_queued)).queue_out)
      (later ∷ noted ∷ [])
    × All (λ t. t.timestamp ≤ 1700) due
    × All
        (λ t. 1700 < t.timestamp)
        (object_of (time_to_close_block world text_of two_queued)).queue_out
time_to_close_block-queue_example =
    time_to_close_block-queue world text_of two_queued (sort_by-Sorts _)

-- The first block of the network, as it is made of the due transaction.
abbrev first_block : Block × ChainState × List Effect
first_block = seal_block world.hash world.dht_get 1700 (noted ∷ []) (
  0,
  record initial_chain { next_block_number = 1 },
  dht_put (codes "genesisStamp") (to_string 1700) true ∷ [],
)

abbrev running : Node
running = record fresh { chain = record { next_block_number = 7; previous_hash = codes "h6" } }

run_loop_pace_example :
    (object_of
        (run_loop world text_of 1700 100 (101 ∷ 103 ∷ 102 ∷ []) running)).chain.next_block_number
      + 1700
    ≤ 7 + 1703
run_loop_pace_example =
    run_loop_pace world text_of 1700 100 (101 ∷ 103 ∷ 102 ∷ []) running 1703 (omega arith)
      (omega arith) (omega arith) (omega arith)
