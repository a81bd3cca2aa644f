-- ===== src/Master/Ledger/Queue.antt =====
-- No transaction goes into the queue for the blocks twice while the node remembers it.
use decentralized_cloud.Base.{
  ℕ, ◌+◌, ◌≤◌, ◌≡◌, refl, ◌∙◌, Option, none, some, false, [], Text, codes, text_eq, ◌==◌, ==_iff,
  is_empty, if◌then◌else◌, arith, Bool-cases, inl, inr,
}
use decentralized_cloud.Base.Dict.{find, contains, insert, assign, find-assign, find-insert}
use decentralized_cloud.Base.Outcome.{Outcome, ok, thrown, object_of}
use decentralized_cloud.Transaction.{Transaction, verify_hash, set_output, early, empty_transaction}
use decentralized_cloud.Transaction.Codec.{Complete, from_json, from_json-keeps}
use decentralized_cloud.Json.{JsonObject, get_text}
use decentralized_cloud.Master.State.{Env, Node}
use decentralized_cloud.Master.Ledger.{
  Held, check_verification, put_back, report, verify_transaction, send_to_verifier, forward,
  process_incoming_transaction, take_notification, parse_notification,
}
use decentralized_cloud.Master.Ledger.Spends.{
  queued, open_entries, Spends, Spends-refl, check_verification-Spends, send_to_verifier-Spends,
  then_check, then_check-Spends,
}

-- The entries that are left for an id: none is in the map, or what is there.
abbrev entries_left : Option Transaction → ℕ
entries_left none = 1
entries_left (some tx) = open_entries tx

-- Every stored transaction has the id it is stored under; a transaction stands in the queue at most
-- once, and then it is marked as in a block.
pub record QueuedOnce (n : Node) : Type 0 where
  pub named : (id : Text) (tx : Transaction) → find id n.transactions ≡ some tx → tx.tx_id ≡ id
  pub once : (id : Text) → queued id n.queue_out + entries_left (find id n.transactions) ≤ 1

-- A node that has taken no transaction yet.
pub QueuedOnce-fresh : (n : Node) → n.transactions ≡ [] → n.queue_out ≡ [] → QueuedOnce n
unfolding find queued
QueuedOnce-fresh n e f = record {
  named = λ id tx found. ground (arith, e, found);
  once = λ id. rw (e, f) (omega arith);
}

put_back-queue :
    (id : Text) (m : Outcome Held)
    → ((object_of (put_back id m)).queue_out ≡ ((object_of m).1).queue_out)
      × ((object_of (put_back id m)).transactions
          ≡ assign id (object_of m).0 ((object_of m).1).transactions)
unfolding put_back
put_back-queue id (ok (tx, n)) = (refl, refl)
put_back-queue id (thrown (tx, n)) = (refl, refl)

module _ (id : Text) (tx : Transaction) (n : Node) (v : QueuedOnce n) (e : tx.tx_id ≡ id)
    (left : open_entries tx ≤ entries_left (find id n.transactions)) (m : Outcome Held)
    (spends : (j : Text) → Spends j (tx, n) (object_of m)) where
  put_back-find :
      (j : Text)
      → find j (object_of (put_back id m)).transactions
        ≡ (if id == j then some (object_of m).0 else find j n.transactions)
  put_back-find j =
      rw ((put_back-queue id m).1, (spends j).transactions)
        (find-assign id j (object_of m).0 n.transactions)

  put_back-named :
      (j : Text) (t : Transaction)
      → find j (object_of (put_back id m)).transactions ≡ some t
      → t.tx_id ≡ j
  put_back-named j t found =
      ground (arith, put_back-find j, ==_iff id j, (spends j).id, v.named j t)

  put_back-once :
      (j : Text)
      → let n' = object_of (put_back id m) in
        queued j n'.queue_out + entries_left (find j n'.transactions) ≤ 1
  put_back-once j = ground (
    arith,
    put_back-find j,
    put_back-queue id m,
    ==_iff id j,
    (spends j).id,
    (spends j).spent,
    v.once j,
  )

  put_back-QueuedOnce : QueuedOnce (object_of (put_back id m))
  put_back-QueuedOnce = record { named = put_back-named; once = put_back-once }

insert-QueuedOnce :
    (id : Text) (tx : Transaction) (n : Node)
    → QueuedOnce n
    → tx.tx_id ≡ id
    → QueuedOnce (record n { transactions = insert id tx n.transactions })
insert-QueuedOnce id tx n v e = record {
  named = λ j t found. ground (arith, find-insert id j tx n.transactions, ==_iff id j, v.named j t);
  once = λ j. ground (arith, find-insert id j tx n.transactions, v.once j);
}

verify_hash-keeps :
    (hash output : Text) (tx : Transaction)
    → let tx' = (verify_hash hash (if is_empty output then tx else set_output output tx)).0 in
      (tx'.tx_id ≡ tx.tx_id) × (tx'.in_block ≡ tx.in_block)
unfolding verify_hash set_output
verify_hash-keeps hash output tx = ground arith

report-QueuedOnce :
    (env : Env) (id hash output : Text) (t : Option Transaction) (n : Node)
    → find id n.transactions ≡ t
    → QueuedOnce n
    → QueuedOnce (object_of (report env id hash output t n))
unfolding report
report-QueuedOnce env id hash output none n found v = v
report-QueuedOnce env id hash output (some tx) n found v =
    let with_output = if is_empty output then tx else set_output output tx in
    let tx' = (verify_hash hash with_output).0 in
    let same : (tx'.tx_id ≡ tx.tx_id) × (tx'.in_block ≡ tx.in_block) =
      verify_hash-keeps hash output tx in
    put_back-QueuedOnce id tx' n v (same.0 ∙ v.named id tx found) (ground (arith, same))
      (check_verification env (tx', n)) (λ j. check_verification-Spends env j tx' n)

-- If every transaction in the queue stands there once, is in the map and is marked there as in a
-- block, and every entry of the map has the id that it is stored under, then this is so after a
-- verification result, of a transaction that is known or not; also where the client is gone and the
-- call throws.
pub verify_transaction-QueuedOnce :
    (env : Env) (id hash output : Text) (n : Node)
    → QueuedOnce n
    → QueuedOnce (object_of (verify_transaction env id hash output n))
unfolding verify_transaction early
verify_transaction-QueuedOnce env id hash output n v =
    elim (Bool-cases (contains id n.transactions)) [
      | inl known ↦ rw known (report-QueuedOnce env id hash output _ n refl v)
      | inr new ↦ rw new (
          report-QueuedOnce env id hash output _ _ refl
            (insert-QueuedOnce id (early id hash n.now) n v refl))
    ]

forward-QueuedOnce :
    (env : Env) (id : Text) (o : Outcome Transaction) (n : Node)
    → QueuedOnce n
    → (object_of o).tx_id ≡ id
    → open_entries (object_of o) ≤ entries_left (find id n.transactions)
    → QueuedOnce (object_of (forward env id o n))
unfolding forward then_check
forward-QueuedOnce env id (thrown tx) n v e left =
    put_back-QueuedOnce id tx n v e left (thrown (tx, n)) (λ j. Spends-refl j (tx, n))
forward-QueuedOnce env id (ok tx) n v e left =
    put_back-QueuedOnce id tx n v e left (then_check env (send_to_verifier env (tx, n))) (λ j.
      then_check-Spends env j (tx, n) (send_to_verifier env (tx, n))
        (send_to_verifier-Spends env j tx n))

take_notification-QueuedOnce :
    (env : Env) (id : Text) (j : JsonObject) (t : Option Transaction) (n : Node)
    → get_text (codes "txid") j ≡ some id
    → find id n.transactions ≡ t
    → QueuedOnce n
    → QueuedOnce (object_of (take_notification env id j t n))
unfolding take_notification
take_notification-QueuedOnce env id j (some tx) n e found v =
    let kept = from_json-keeps j id tx e in
    forward-QueuedOnce env id (from_json j tx) n v kept.0 (ground (arith, kept.1))
take_notification-QueuedOnce env id j none n e found v =
    fresh (from_json j empty_transaction) (from_json-keeps j id empty_transaction e)
  where
    fresh :
        (o : Outcome Transaction)
        → ((object_of o).tx_id ≡ id) × ((object_of o).in_block ≡ false)
        → QueuedOnce
            (object_of (elim o [ ok tx ↦ forward env id (ok tx) n | thrown tx ↦ thrown n ]))
    fresh (ok tx) kept =
        forward-QueuedOnce env id (ok tx) n v kept.0 (ground (arith, found, kept.1))
    fresh (thrown tx) kept = v

-- A notification that is no JSON object, or one with the twelve members of a transaction, whatever their
-- values are, keeps it so that every transaction in the queue stands there once, is in the map and is
-- marked there as in a block, and that every entry of the map has the id that it is stored under.
pub process_incoming_transaction-QueuedOnce :
    (env : Env) (text : Text) (n : Node)
    → ((j : JsonObject) → env.parse text ≡ some j → Complete j)
    → QueuedOnce n
    → QueuedOnce (object_of (process_incoming_transaction env text n))
unfolding process_incoming_transaction
process_incoming_transaction-QueuedOnce env text n complete v = parsed (env.parse text)
  where
    named :
        (j : JsonObject) (t : Option Text)
        → get_text (codes "txid") j ≡ t
        → QueuedOnce (
            object_of (elim t [
              | none ↦ thrown n
              | some id ↦ take_notification env id j (find id n.transactions) n
            ]))
    named j none e = v
    named j (some id) e = take_notification-QueuedOnce env id j _ n e refl v

    parsed : (o : Option JsonObject) → QueuedOnce (object_of (parse_notification env o n))
    parsed none = v
    parsed (some j) = named j _ refl
