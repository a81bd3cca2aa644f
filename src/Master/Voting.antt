-- ===== src/Master/Voting.antt =====
-- Open voting (`enterAndExitVotingPhase`, `registerVote` of MasterNodeLib.cpp).
pub mod Election
pub mod Rounds
pub mod Alone
pub mod Ballots
use decentralized_cloud.Base.{
  ℕ, zero, suc, ◌+◌, ◌-◌, ◌%◌, ◌^◌, Option, none, some, Bool, true, false, not, ◌&&◌, List, [], ◌∷◌,
  ◌++◌, map, Text, text_eq, ◌==◌, codes, nat_beq, ltb, length, is_empty, if◌then◌else◌,
}
use decentralized_cloud.Base.Dict.{Dict, assign}
use decentralized_cloud.Message.{
  FieldValueMap, Effect, gossip, subscribe, unsubscribe, save_elected, chose_random_number,
}
use decentralized_cloud.Transaction.{total_master_nodes}
use decentralized_cloud.Master.State.{Env, Node, Voter, emit}
use decentralized_cloud.Master.Clock.{
  in_voting_time, update_next_voting_timestamp, can_participate_in_voting,
}

-- A `char` of the source's compilers is signed: it is extended before it is added to a `uint32_t`.
abbrev pub signed_char : ℕ → ℕ
signed_char c = if ltb c 128 then c else c + 2 ^ 32 - 256

-- `for (...) number += signature[i];`
unfoldable pub add_chars : ℕ → Text → ℕ
add_chars number [] = number
add_chars number (c ∷ s) = add_chars ((number + signed_char c) % 2 ^ 32) s

abbrev pub voter_of : Text → Text → Voter
voter_of signature key = record {
  signature = signature;
  public_key = key;
  number = add_chars 0 signature;
  valid = true;
}

-- The voting interval has begun.
unfoldable pub enter_voting_phase : Env → Node → Node
unfolding can_participate_in_voting emit add_chars
enter_voting_phase env n =
    let entered = record n { in_voting_phase = true } in
    let signature = env.sign n.next_voting_timestamp_str in
    if can_participate_in_voting n
    then emit
        (gossip (codes "masternodes") chose_random_number
          ((codes "s", signature) ∷ (codes "key", env.base64_encode env.node_key) ∷ []))
        (record entered {
          random_numbers = n.random_numbers ++ voter_of signature env.node_id ∷ [];
        })
    else entered

-- The loop over the sorted voters: the producers, and whether this node is among them.
unfoldable pub elect : Text → List Voter → List Voter → Bool → List Voter × Bool
elect id [] producers listed = (producers, listed)
elect id (v ∷ vs) producers listed =
    let producers' = if v.valid then producers ++ v ∷ [] else producers in
    let listed' = if v.valid && v.public_key == id then true else listed in
    let rest = elect id vs producers' listed' in
    if nat_beq (length producers') total_master_nodes then (producers', listed') else rest

keys : List Voter → List Text
keys = map λ v. v.public_key

-- The votes are counted only if there are two or more.
unfoldable pub count_votes : Env → Node → Node × Bool
unfolding elect emit assign keys
count_votes env n =
    let (producers, listed) = elect env.node_id (env.sort_voters n.random_numbers) [] false in
    let elected = assign n.next_voting_timestamp_str (keys producers) n.elected_master_nodes in
    if ltb 1 (length n.random_numbers)
    then (
      emit (save_elected elected) (record n {
        block_producers = producers;
        random_numbers = [];
        elected_master_nodes = elected;
      }),
      listed,
    )
    else (n, false)

unfoldable pub follow_master21 : Bool → Node → Node
unfolding emit
follow_master21 true n =
    if n.subscribed_to21
    then n
    else emit (subscribe (codes "master21")) (record n { subscribed_to21 = true })
follow_master21 false n =
    if n.subscribed_to21
    then emit (unsubscribe (codes "master21")) (record n { subscribed_to21 = false })
    else n

-- After the timestamp is set for the next hour.
unfoldable pub finish_voting : Env → Node → Node
unfolding count_votes follow_master21
finish_voting env n =
    let (counted, listed) = count_votes env (record n { block_producers = [] }) in
    let followed = follow_master21 listed counted in
    record followed { ignore_this_voting_round = false }

-- The voting interval has expired.
unfoldable pub leave_voting_phase : Env → Node → Option Node
unfolding update_next_voting_timestamp finish_voting
leave_voting_phase env n =
    elim (update_next_voting_timestamp (record n { in_voting_phase = false })) [
      | none ↦ none
      | some n' ↦ some (finish_voting env n')
    ]

-- `none` is the exception of a voting timestamp that is no number.
unfoldable pub enter_and_exit_voting_phase : Env → Node → Option Node
unfolding in_voting_time enter_voting_phase leave_voting_phase
enter_and_exit_voting_phase env n =
    if in_voting_time n
    then some (if n.in_voting_phase then n else enter_voting_phase env n)
    else if n.in_voting_phase
    then leave_voting_phase env n
    else some n

-- `*it == publicKey` for one of the voters.
unfoldable pub has_voted : Text → List Voter → Bool
has_voted key [] = false
has_voted key (v ∷ vs) = if v.public_key == key then true else has_voted key vs

-- The first critical section of `registerVote`: whether the vote goes on to verification.
unfoldable pub admits_vote : Env → Text → Node → Bool
unfolding can_participate_in_voting has_voted
admits_vote env encoded_key n =
    can_participate_in_voting n && not (has_voted (env.base64_decode encoded_key) n.random_numbers)

-- Verification and the second critical section. The `n` that is compared there is the length of the
-- signature, which hides the number of voters that was read before. The constructor of the key throws for
-- a text that is no public key, which ends the call with nothing changed.
unfoldable pub record_vote : Env → Text → Text → Node → Node
unfolding has_voted add_chars
record_vote env signature encoded_key n =
    let key = env.base64_decode encoded_key in
    let added = record n { random_numbers = n.random_numbers ++ voter_of signature key ∷ [] } in
    if env.is_public_key key && env.verify_x509 n.next_voting_timestamp_str signature key
    then (if not (nat_beq (length signature) (length n.random_numbers))
        then (if has_voted key n.random_numbers then n else added)
        else added)
    else n

-- With no other thread in between.
unfoldable pub register_vote : Env → Text → Text → Node → Node
unfolding admits_vote record_vote
register_vote env signature encoded_key n =
    if admits_vote env encoded_key n then record_vote env signature encoded_key n else n
