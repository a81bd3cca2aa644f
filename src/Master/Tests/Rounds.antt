-- ===== src/Master/Tests/Rounds.antt =====
-- The clock, the producers and the votes of one node.
use Prim.Native.Nat.{min}
use mathlib.Core.List.{Perm}
use decentralized_cloud.Base.{
  ℕ, ◌≤◌, ◌≡◌, ◌≢◌, refl, some, Bool, true, [], ◌∷◌, ◌++◌, codes, length, get_elem?, All, List,
  arith, nat_beq,
}
use decentralized_cloud.Base.Decimal.{to_string}
use decentralized_cloud.Base.Sort.{sort_by-Sorts}
use decentralized_cloud.Transaction.{total_master_nodes}
use decentralized_cloud.Master.State.{Env, Node, Voter}
use decentralized_cloud.Master.Clock.{voting_start, in_voting_time}
use decentralized_cloud.Master.Producers.{
  get_block_producer_for, is_block_producer, is_block_producer-checked,
}
use decentralized_cloud.Master.Voting.{
  count_votes, enter_and_exit_voting_phase, admits_vote, record_vote,
}
use decentralized_cloud.Master.Voting.Election.{is_listed, count_votes-lowest}
use decentralized_cloud.Master.Voting.Alone.{IsOwn, at_time, single_vote-elected}
use decentralized_cloud.Master.Voting.Ballots.{
  DistinctVotes, Votes, VoteReach, Pending, here, next, arrives, commits, VoteReach-DistinctVotes,
}
use decentralized_cloud.Master.Tests.{me, world, fresh, voter}

abbrev after_hour : Node
after_hour = record fresh { next_voting_timestamp_str = to_string (voting_start 0) }

abbrev elected : Node
elected = record fresh { block_producers = voter (codes "id1") 4 ∷ voter me 9 ∷ [] }

elected-nonempty : elected.block_producers ≢ []
elected-nonempty e = cc

is_block_producer-checked_example :
    (b : Bool) × (is_block_producer world elected ≡ some b)
    × (b ≡ true
        → (i : ℕ) × (v : Voter) × (get_block_producer_for 1700 elected ≡ some i)
          × (get_elem? elected.block_producers i ≡ some v)
          × (v.public_key ≡ me))
is_block_producer-checked_example = is_block_producer-checked world elected

abbrev voted : Node
voted = record fresh { random_numbers = voter (codes "id1") 9 ∷ voter me 4 ∷ [] }

count_votes-lowest_example :
    (rest : List Voter) × Perm
      ((count_votes world voted).0.block_producers ++ rest)
      (voter (codes "id1") 9 ∷ voter me 4 ∷ [])
    × All (λ v. All (λ w. v.number ≤ w.number) rest) (count_votes world voted).0.block_producers
    × (length (count_votes world voted).0.block_producers ≡ min total_master_nodes 2)
    × ((count_votes world voted).1 ≡ is_listed me (count_votes world voted).0.block_producers)
    × ((count_votes world voted).0.random_numbers ≡ [])
count_votes-lowest_example = count_votes-lowest world voted (sort_by-Sorts _) (omega arith)

-- An hour later, in the voting phase.
abbrev closing : Node
closing = record voted {
  now = 3601;
  in_voting_phase = true;
  next_voting_timestamp_str = to_string (voting_start 0);
}

abbrev alone : Node
alone = record closing { random_numbers = voter me 4 ∷ [] }

single_vote-elected_example :
    (n₁ : Node) × (n₂ : Node) × (n₃ : Node) × (enter_and_exit_voting_phase world alone ≡ some n₁)
    × (enter_and_exit_voting_phase world (at_time 6900 n₁) ≡ some n₂)
    × (enter_and_exit_voting_phase world (at_time 7200 n₂) ≡ some n₃)
    × (length n₃.block_producers ≡ 2)
    × All (IsOwn me) n₃.block_producers
    × (n₃.subscribed_to21 ≡ true)
unfolding in_voting_time
single_vote-elected_example =
    single_vote-elected world 0 6900 7200 alone (voter me 4) (sort_by-Sorts _) (refl, omega arith)
      (omega arith) refl (refl, refl) refl refl refl refl

-- Signatures of two characters.
abbrev two_wide : Env
two_wide = record world { verify_x509 = λ text signature key. nat_beq (length signature) 2 }

abbrev ballot : Pending
ballot = record { signature = 70 ∷ 71 ∷ []; key = codes "id2" }

abbrev waiting : Votes
waiting = record { node = fresh; pending = [] }

abbrev committed : Votes
committed = record { node = record_vote two_wide ballot.signature ballot.key fresh; pending = [] }

waits : VoteReach two_wide waiting committed
unfolding admits_vote
waits = next (next here (arrives ballot refl)) (commits [] [] ballot refl)

VoteReach-DistinctVotes_example : DistinctVotes committed.node.random_numbers
unfolding record_vote
VoteReach-DistinctVotes_example =
    VoteReach-DistinctVotes 2 (λ text signature key e. ground arith) waits (omega arith) tt
