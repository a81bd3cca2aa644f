-- ===== src/Master/Closing/Steady.antt =====
-- What leaves the chain of blocks and the time of the last round alone (MasterNodeLib.cpp).
use decentralized_cloud.Base.{
  ℕ, ◌+◌, ◌%◌, ◌^◌, ◌≡◌, refl, Option, none, some, Bool, true, false, [], Text, arith, Bool-cases,
  inl, inr,
}
use decentralized_cloud.Base.Decimal.{to_string, stoull}
use decentralized_cloud.Base.Outcome.{object_of}
use decentralized_cloud.Block.{Block}
use decentralized_cloud.Master.State.{Env, Node, emit}
use decentralized_cloud.Master.Clock.{in_voting_time, update_next_voting_timestamp}
use decentralized_cloud.Master.Storage.{get_block_storage_node}
use decentralized_cloud.Master.Voting.{
  enter_voting_phase, count_votes, follow_master21, finish_voting, leave_voting_phase,
  enter_and_exit_voting_phase,
}
use decentralized_cloud.Master.Closing.{keep_block, send_block, remember_block, hand_out}

-- Neither the chain nor the time of the last round changes.
abbrev pub SameChain : Node → Node → Type 0
SameChain n n' = (n'.chain ≡ n.chain) × (n'.last_round_timestamp ≡ n.last_round_timestamp)

count_votes-SameChain : (env : Env) (n : Node) → SameChain n (count_votes env n).0
unfolding count_votes emit
count_votes-SameChain env n = ground arith

follow-SameChain : (listed : Bool) (n : Node) → SameChain n (follow_master21 listed n)
unfolding follow_master21 emit
follow-SameChain true n = ground arith
follow-SameChain false n = ground arith

finish_voting-SameChain : (env : Env) (n : Node) → SameChain n (finish_voting env n)
unfolding finish_voting
finish_voting-SameChain env n =
    let started = record n { block_producers = [] } in
    let counted = count_votes env started in
    ground (arith, count_votes-SameChain env started, follow-SameChain counted.1 counted.0)

-- So where there is a result.
abbrev pub Kept : Node → Option Node → Type 0
Kept n none = Unit {0}
Kept n (some n') = SameChain n n'

update-Kept : (n : Node) → Kept n (update_next_voting_timestamp n)
unfolding update_next_voting_timestamp
update-Kept n = read (stoull n.next_voting_timestamp_str)
  where
    read :
        (o : Option ℕ)
        → Kept n (elim o [
          | none ↦ none
          | some last ↦
              some (record n { next_voting_timestamp_str = to_string ((last + 3600) % 2 ^ 64) })
        ])
    read none = tt
    read (some last) = (refl, refl)

leave-Kept : (env : Env) (n : Node) → Kept n (leave_voting_phase env n)
unfolding leave_voting_phase
leave-Kept env n =
    let left = record n { in_voting_phase = false } in
    updated (update_next_voting_timestamp left) (update-Kept left)
  where
    updated :
        (o : Option Node)
        → Kept n o
        → Kept n (elim o [ none ↦ none | some n' ↦ some (finish_voting env n') ])
    updated none kept = tt
    updated (some m) kept = ground (arith, finish_voting-SameChain env m)

enter-SameChain : (env : Env) (n : Node) → SameChain n (enter_voting_phase env n)
unfolding enter_voting_phase emit
enter-SameChain env n = ground arith

pub voting-Kept : (env : Env) (n : Node) → Kept n (enter_and_exit_voting_phase env n)
unfolding enter_and_exit_voting_phase
voting-Kept env n = elim (Bool-cases (in_voting_time n)) [
  | inl yes_time ↦ elim (Bool-cases n.in_voting_phase) [
    | inl inside ↦ rw (yes_time, inside) (refl, refl)
    | inr outside ↦ rw (yes_time, outside) (enter-SameChain env n)
  ]
  | inr no_time ↦ elim (Bool-cases n.in_voting_phase) [
    | inl inside ↦ rw (no_time, inside) (leave-Kept env n)
    | inr outside ↦ rw (no_time, outside) (refl, refl)
  ]
]

get_block_storage_node-SameChain :
    (env : Env) (n : Node) → SameChain n (get_block_storage_node env n)
unfolding get_block_storage_node emit
get_block_storage_node-SameChain env n = ground arith

pub hand_out-SameChain :
    (env : Env) (block_text : Block → Text) (b : Block) (producer : Option Bool) (n : Node)
    → SameChain n (object_of (hand_out env block_text b producer n))
unfolding hand_out send_block remember_block keep_block emit
hand_out-SameChain env block_text b none n = (refl, refl)
hand_out-SameChain env block_text b (some true) n =
    ground (arith, get_block_storage_node-SameChain env n)
hand_out-SameChain env block_text b (some false) n = ground arith
