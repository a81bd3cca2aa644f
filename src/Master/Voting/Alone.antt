-- ===== src/Master/Voting/Alone.antt =====
-- Two rounds of voting in which a node has no ballot but its own.
use decentralized_cloud.Base.{
  ℕ, ◌+◌, ◌^◌, ◌<◌, ◌≡◌, refl, ap, ◌∙◌, some, true, false, List, [], ◌∷◌, ◌++◌, Text, text_eq, ◌==◌,
  length, arith, All, ==_iff,
}
use decentralized_cloud.Base.Perms.{All-perm, All-of_append}
use mathlib.Core.Bool.{Bool-set}
use decentralized_cloud.Base.Decimal.{to_string}
use decentralized_cloud.Master.State.{Env, Node, Voter}
use decentralized_cloud.Master.Clock.{in_voting_time, voting_start}
use decentralized_cloud.Master.Voting.{
  enter_voting_phase, count_votes, finish_voting, enter_and_exit_voting_phase, voter_of,
}
use decentralized_cloud.Master.Voting.Election.{
  SortsByNumber, valid_voters, is_listed, count_votes-lowest,
}
use decentralized_cloud.Master.Voting.Rounds.{
  AtHour, closed, phase-enter, phase-leave, follow-subscribed, follow-keeps, count_votes-few,
}

abbrev pub at_time : ℕ → Node → Node
at_time t n = record n { now = t }

abbrev pub IsOwn : Text → Voter → Type 0
IsOwn id v = (v.public_key == id) ≡ true

listed_own :
    (id : Text) (vs : List Voter) → 0 < length vs → All (IsOwn id) vs → is_listed id vs ≡ true
listed_own id [] h own = elim h [ ]
listed_own id (v ∷ vs) h own = ground (arith, own.0)

closed_two :
    (env : Env) (hour : ℕ) (n : Node) (v w : Voter)
    → SortsByNumber env.sort_voters
    → n.random_numbers ≡ v ∷ w ∷ []
    → (v.valid ≡ true) × (w.valid ≡ true)
    → (v.public_key ≡ env.node_id) × (w.public_key ≡ env.node_id)
    → (length (closed env hour n).block_producers ≡ 2)
      × All (IsOwn env.node_id) (closed env hour n).block_producers
      × ((closed env hour n).subscribed_to21 ≡ true)
unfolding finish_voting
closed_two env hour n v w sorts votes good own =
    let m = record n {
      in_voting_phase = false;
      next_voting_timestamp_str = to_string (voting_start (hour + 1));
      block_producers = [];
    } in
    let all : valid_voters n.random_numbers ≡ v ∷ w ∷ [] = rw votes (ground arith) in
    let (rest, perm, low, len, listed, used) =
      count_votes-lowest env m sorts (rw votes (omega arith)) in
    let two : length (count_votes env m).0.block_producers ≡ 2 = len ∙ rw all (omega arith) in
    let ours : All (IsOwn env.node_id) ((count_votes env m).0.block_producers ++ rest) =
      All-perm (IsOwn env.node_id) (λ u. Bool-set _ _) _ _ perm
        (rw all (
          (==_iff v.public_key env.node_id).1 own.0,
          ((==_iff w.public_key env.node_id).1 own.1, tt),
        )) in
    let chosen = All-of_append (IsOwn env.node_id) _ rest ours in
    let (producers, numbers, phase, stamp) =
      follow-keeps (count_votes env m).1 (count_votes env m).0 in
    (
      ap length producers ∙ two,
      rw producers chosen,
      follow-subscribed (count_votes env m).1 (count_votes env m).0
          ∙ listed
          ∙ listed_own env.node_id _ (omega (arith, two)) chosen,
    )

closed_single :
    (env : Env) (hour : ℕ) (n : Node) (v : Voter)
    → n.random_numbers ≡ v ∷ []
    → let n' = closed env hour n in
      (n'.random_numbers ≡ v ∷ [])
      × (n'.in_voting_phase ≡ false)
      × (n'.next_voting_timestamp_str ≡ to_string (voting_start (hour + 1)))
      × (n'.ignore_this_voting_round ≡ false)
unfolding finish_voting
closed_single env hour n v votes =
    let m = record n {
      in_voting_phase = false;
      next_voting_timestamp_str = to_string (voting_start (hour + 1));
      block_producers = [];
    } in
    let alone : count_votes env m ≡ (m, false) = count_votes-few env m (rw votes refl) in
    let kept = follow-keeps false m in rw alone (kept.1 ∙ votes, kept.2, kept.3, refl)

entered :
    (env : Env) (n : Node)
    → n.ignore_this_voting_round ≡ false
    → let n' = enter_voting_phase env n in
      (n'.random_numbers
        ≡ n.random_numbers ++ voter_of (env.sign n.next_voting_timestamp_str) env.node_id ∷ [])
      × (n'.in_voting_phase ≡ true)
      × (n'.next_voting_timestamp_str ≡ n.next_voting_timestamp_str)
unfolding enter_voting_phase
entered env n allowed = ground arith

-- A node that finds itself the only voter keeps its ballot, and casts a second one in the next round.
-- Where again nobody else votes, it counts two votes, both of them its own, elects itself twice and
-- joins the channel of the 21.
pub single_vote-elected :
    (env : Env) (hour t u : ℕ) (n : Node) (v : Voter)
    → SortsByNumber env.sort_voters
    → AtHour hour n
    → voting_start (hour + 2) < 2 ^ 64
    → n.random_numbers ≡ v ∷ []
    → (v.valid ≡ true) × (v.public_key ≡ env.node_id)
    → n.in_voting_phase ≡ true
    → in_voting_time n ≡ false
    → in_voting_time (at_time t n) ≡ true
    → in_voting_time (at_time u n) ≡ false
    → (n₁ : Node) × (n₂ : Node) × (n₃ : Node) × (enter_and_exit_voting_phase env n ≡ some n₁)
      × (enter_and_exit_voting_phase env (at_time t n₁) ≡ some n₂)
      × (enter_and_exit_voting_phase env (at_time u n₂) ≡ some n₃)
      × (length n₃.block_producers ≡ 2)
      × All (IsOwn env.node_id) n₃.block_producers
      × (n₃.subscribed_to21 ≡ true)
unfolding in_voting_time
single_vote-elected env hour t u n v sorts at fits votes own voting over opened closed_again =
    let n₁ = closed env hour n in
    let n₂ = enter_voting_phase env (at_time t n₁) in
    let n₃ = closed env (hour + 1) (at_time u n₂) in
    let one = closed_single env hour n v votes in
    let two = entered env (at_time t n₁) one.3 in
    let own₂ = voter_of (env.sign n₁.next_voting_timestamp_str) env.node_id in
    let stamp : n₂.next_voting_timestamp_str ≡ to_string (voting_start (hour + 1)) =
      two.2 ∙ one.2 in
    let ballots : n₂.random_numbers ≡ v ∷ own₂ ∷ [] =
      two.0 ∙ ap (λ (r : List Voter). r ++ own₂ ∷ []) one.0 in
    let elected =
      closed_two env (hour + 1) (at_time u n₂) v own₂ sorts ballots (own.0, refl) (own.1, refl) in
    (
      n₁,
      n₂,
      n₃,
      phase-leave env hour n at over voting,
      phase-enter env (at_time t n₁) opened one.1,
      phase-leave env (hour + 1) (at_time u n₂) (stamp, omega arith) closed_again two.1,
      elected.0,
      elected.1,
      elected.2,
    )
