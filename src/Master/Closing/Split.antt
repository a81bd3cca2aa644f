-- ===== src/Master/Closing/Split.antt =====
-- Which transactions a block takes.
use mathlib.Core.List.{Perm}
use decentralized_cloud.Base.{
  ℕ, ◌≤◌, ◌<◌, ◌≡◌, refl, List, [], ◌∷◌, ◌++◌, Text, leb, arith, All, All-imp, inl, inr, Bool-cases,
}
use decentralized_cloud.Base.Sort.{SortedBy, Sorts}
use decentralized_cloud.Base.Outcome.{object_of}
use decentralized_cloud.Transaction.{Transaction}
use decentralized_cloud.Master.Storage.{get_block_storage_node}
use decentralized_cloud.Block.{Block, Made, unread, undumped, made}
use decentralized_cloud.Master.State.{Env, Node}
use decentralized_cloud.Master.Closing.{split_due, made_block, time_to_close_block}

-- What the program relies on of `std::sort` with `compareTransactions`.
abbrev InOrder : List Transaction → Type 0
InOrder = SortedBy (λ t. t.timestamp)

abbrev SortsByTime : (List Transaction → List Transaction) → Type 0
SortsByTime = Sorts (λ t. t.timestamp)

split_due-append :
    (now : ℕ) (ts : List Transaction) → (split_due now ts).0 ++ (split_due now ts).1 ≡ ts
unfolding split_due
split_due-append now [] = refl
split_due-append now (t ∷ ts) = ground (arith, split_due-append now ts)

split_due-due :
    (now : ℕ) (ts : List Transaction) → All (λ t. t.timestamp ≤ now) (split_due now ts).0
unfolding split_due
split_due-due now [] = tt
split_due-due now (t ∷ ts) = ground (arith, split_due-due now ts)

split_due-later :
    (now : ℕ) (ts : List Transaction)
    → InOrder ts
    → All (λ t. now < t.timestamp) (split_due now ts).1
unfolding split_due
split_due-later now [] o = tt
split_due-later now (t ∷ ts) o = elim (Bool-cases (leb t.timestamp now)) [
  | inl due ↦ rw due (split_due-later now ts o.1)
  | inr later ↦
      let first : now < t.timestamp = ground arith in
      rw later (first, All-imp (λ u h. omega arith) ts o.0)
]

made_block-queue :
    (env : Env) (block_text : Block → Text) (m : Made) (n : Node)
    → (object_of (made_block env block_text m n)).queue_out ≡ n.queue_out
unfolding made_block get_block_storage_node
made_block-queue env block_text unread n = refl
made_block-queue env block_text (undumped chain effects) n = refl
made_block-queue env block_text (made b chain effects) n = ground arith

-- Where the sort sorts by time, closing a block takes the transactions whose time has come, `due`,
-- out of the queue and leaves the others: the two together are the queue as it was, and none that
-- is due stays behind.
pub time_to_close_block-queue :
    (env : Env) (block_text : Block → Text) (n : Node)
    → SortsByTime env.sort_transactions
    → let n' = object_of (time_to_close_block env block_text n) in
      (due : List Transaction) × Perm (due ++ n'.queue_out) n.queue_out
      × All (λ t. t.timestamp ≤ n.now) due
      × All (λ t. n.now < t.timestamp) n'.queue_out
unfolding time_to_close_block
time_to_close_block-queue env block_text n sorts =
    let sorted = env.sort_transactions n.queue_out in
    let due = (split_due n.now sorted).0 in
    (
      due,
      rw (made_block-queue env block_text _ _, split_due-append n.now sorted)
          (sorts.same n.queue_out),
      split_due-due n.now sorted,
      rw (made_block-queue env block_text _ _)
          (split_due-later n.now sorted (sorts.ascending n.queue_out)),
    )
