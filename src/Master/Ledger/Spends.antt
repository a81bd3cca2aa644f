-- ===== src/Master/Ledger/Spends.antt =====
-- What the calls on one transaction put into the queue for the blocks.
use decentralized_cloud.Base.{
  ℕ, ◌+◌, ◌≡◌, refl, ◌∙◌, Option, none, some, List, [], ◌∷◌, ◌++◌, Text, text_eq, ◌==◌, ltb,
  if◌then◌else◌, arith, Bool-cases, inl, inr,
}
use decentralized_cloud.Base.Outcome.{Outcome, ok, thrown, object_of, ◌>>=◌}
use decentralized_cloud.Transaction.{Transaction, is_verified, can_send}
use decentralized_cloud.Peers.{get_number_of_verifiers}
use decentralized_cloud.Master.State.{Env, Node}
use decentralized_cloud.Master.Storage.{get_state_change_storage_node}
use decentralized_cloud.Master.Ledger.{
  Held, answer_client, queue_for_block, check_verification, send_to_verifier, deliver_code,
}

-- How often a transaction stands in the queue.
unfoldable pub queued : Text → List Transaction → ℕ
queued id [] = 0
queued id (tx ∷ txs) = if tx.tx_id == id then queued id txs + 1 else queued id txs

pub queued-append :
    (id : Text) (txs : List Transaction) (tx : Transaction)
    → queued id (txs ++ tx ∷ []) ≡ queued id txs + (if tx.tx_id == id then 1 else 0)
unfolding queued
queued-append id [] tx = ground arith
queued-append id (t ∷ txs) tx = ground (arith, queued-append id txs tx)

-- The entries that a transaction may still make: one until it is in a block.
abbrev pub open_entries : Transaction → ℕ
open_entries tx = if tx.in_block then 0 else 1

abbrev budget : Text → Held → ℕ
budget j (tx, n) = queued j n.queue_out + (if tx.tx_id == j then open_entries tx else 0)

-- A call on a transaction spends what it queues, and touches neither its id nor the map.
pub record Spends (j : Text) (h h' : Held) : Type 0 where
  pub id : (h'.0).tx_id ≡ (h.0).tx_id
  pub transactions : (h'.1).transactions ≡ (h.1).transactions
  pub spent : budget j h' ≡ budget j h

Spends-trans : (j : Text) (a b c : Held) → Spends j a b → Spends j b c → Spends j a c
Spends-trans j a b c p q = record {
  id = q.id ∙ p.id;
  transactions = q.transactions ∙ p.transactions;
  spent = q.spent ∙ p.spent;
}

get_state_change_storage_node-queue :
    (env : Env) (n : Node)
    → ((get_state_change_storage_node env n).transactions ≡ n.transactions)
      × ((get_state_change_storage_node env n).queue_out ≡ n.queue_out)
unfolding get_state_change_storage_node
get_state_change_storage_node-queue env n = ground arith

answer_client-Spends :
    (env : Env) (j : Text) (tx : Transaction) (n : Node)
    → Spends j (tx, n) (object_of (answer_client env (tx, n)))
unfolding answer_client
answer_client-Spends env j tx n = ground (arith, get_state_change_storage_node-queue env n)

queue_for_block-Spends :
    (j : Text) (tx : Transaction) (n : Node) → Spends j (tx, n) (queue_for_block (tx, n))
unfolding queue_for_block
queue_for_block-Spends j tx n = ground (arith, queued-append j n.queue_out tx)

then_queue : Outcome Held → Outcome Held
then_queue m = m >>= λ held. ok (queue_for_block held)

then_queue-Spends :
    (j : Text) (h : Held) (m : Outcome Held)
    → Spends j h (object_of m)
    → Spends j h (object_of (then_queue m))
unfolding then_queue
then_queue-Spends j h (ok (tx, n)) s = Spends-trans j h (tx, n) _ s (queue_for_block-Spends j tx n)
then_queue-Spends j h (thrown held) s = s

pub Spends-refl : (j : Text) (h : Held) → Spends j h h
Spends-refl j h = record { id = refl; transactions = refl; spent = refl }

pub check_verification-Spends :
    (env : Env) (j : Text) (tx : Transaction) (n : Node)
    → Spends j (tx, n) (object_of (check_verification env (tx, n)))
unfolding check_verification then_queue
check_verification-Spends env j tx n = elim (Bool-cases (is_verified tx)) [
  | inl verified ↦ elim (Bool-cases (can_send tx)) [
    | inl mine ↦
        rw (verified, mine)
          (then_queue-Spends j (tx, n) (answer_client env (tx, n))
            (answer_client-Spends env j tx n))
    | inr other ↦
        rw (verified, other) (then_queue-Spends j (tx, n) (ok (tx, n)) (Spends-refl j (tx, n)))
  ]
  | inr waiting ↦ rw waiting (Spends-refl j (tx, n))
]

deliver_code-Spends :
    (env : Env) (j : Text) (key : Option Text) (tx : Transaction) (n : Node)
    → Spends j (tx, n) (object_of (deliver_code env key (tx, n)))
unfolding deliver_code
deliver_code-Spends env j none tx n = Spends-refl j (tx, n)
deliver_code-Spends env j (some key) tx n =
    ground (arith, get_state_change_storage_node-queue env n)

pub send_to_verifier-Spends :
    (env : Env) (j : Text) (tx : Transaction) (n : Node)
    → Spends j (tx, n) (object_of (send_to_verifier env (tx, n)))
unfolding send_to_verifier
send_to_verifier-Spends env j tx n = elim (Bool-cases (ltb (get_number_of_verifiers n.peers) 1)) [
  | inl none_there ↦ rw none_there (Spends-refl j (tx, n))
  | inr some_there ↦ rw some_there (deliver_code-Spends env j _ tx n)
]

unfoldable pub then_check : Env → Outcome Held → Outcome Held
then_check env m = m >>= λ held. check_verification env held

pub then_check-Spends :
    (env : Env) (j : Text) (h : Held) (m : Outcome Held)
    → Spends j h (object_of m)
    → Spends j h (object_of (then_check env m))
unfolding then_check
then_check-Spends env j h (ok (tx, n)) s =
    Spends-trans j h (tx, n) _ s (check_verification-Spends env j tx n)
then_check-Spends env j h (thrown held) s = s
