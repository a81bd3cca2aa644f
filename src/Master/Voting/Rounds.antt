-- ===== src/Master/Voting/Rounds.antt =====
-- A round of voting from its opening to its close (`enterAndExitVotingPhase`).
use decentralized_cloud.Base.{
  ℕ, ◌+◌, ◌^◌, ◌<◌, ◌≡◌, some, Bool, true, false, text_eq, ltb, length, arith,
}
use decentralized_cloud.Base.Decimal.{to_string}
use decentralized_cloud.Master.State.{Env, Node}
use decentralized_cloud.Master.Clock.{
  in_voting_time, voting_start, update_next_voting_timestamp-voting_start,
}
use decentralized_cloud.Master.Voting.{
  enter_voting_phase, count_votes, follow_master21, finish_voting, leave_voting_phase,
  enter_and_exit_voting_phase,
}

-- The voting timestamp of the node is that of an hour, and the next one fits 64 bits.
abbrev pub AtHour : ℕ → Node → Type 0
AtHour hour n =
    (n.next_voting_timestamp_str ≡ to_string (voting_start hour))
    × (voting_start (hour + 1) < 2 ^ 64)

-- The node after the close, with the timestamp of the next hour.
abbrev pub closed : Env → ℕ → Node → Node
closed env hour n = finish_voting env (record n {
  in_voting_phase = false;
  next_voting_timestamp_str = to_string (voting_start (hour + 1));
})

pub phase-enter :
    (env : Env) (n : Node)
    → in_voting_time n ≡ true
    → n.in_voting_phase ≡ false
    → enter_and_exit_voting_phase env n ≡ some (enter_voting_phase env n)
unfolding enter_and_exit_voting_phase
phase-enter env n opened idle = rw (opened, idle)

pub phase-leave :
    (env : Env) (hour : ℕ) (n : Node)
    → AtHour hour n
    → in_voting_time n ≡ false
    → n.in_voting_phase ≡ true
    → enter_and_exit_voting_phase env n ≡ some (closed env hour n)
unfolding enter_and_exit_voting_phase leave_voting_phase
phase-leave env hour n at over voting =
    let moved =
      update_next_voting_timestamp-voting_start (record n { in_voting_phase = false }) hour at.0
        at.1 in
    rw (over, voting) (rw (moved, leave_voting_phase))

pub follow-subscribed :
    (listed : Bool) (n : Node) → (follow_master21 listed n).subscribed_to21 ≡ listed
unfolding follow_master21
follow-subscribed true n = ground arith
follow-subscribed false n = ground arith

pub follow-keeps :
    (listed : Bool) (n : Node)
    → ((follow_master21 listed n).block_producers ≡ n.block_producers)
      × ((follow_master21 listed n).random_numbers ≡ n.random_numbers)
      × ((follow_master21 listed n).in_voting_phase ≡ n.in_voting_phase)
      × ((follow_master21 listed n).next_voting_timestamp_str ≡ n.next_voting_timestamp_str)
unfolding follow_master21
follow-keeps true n = ground arith
follow-keeps false n = ground arith

pub count_votes-few :
    (env : Env) (n : Node)
    → ltb 1 (length n.random_numbers) ≡ false
    → count_votes env n ≡ (n, false)
unfolding count_votes
count_votes-few env n few = rw few
