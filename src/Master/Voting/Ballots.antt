-- ===== src/Master/Voting/Ballots.antt =====
-- One ballot for each key (`registerVote`), alone and with other threads in between.
use decentralized_cloud.Base.{
  ℕ, ◌+◌, ◌≤◌, ◌≡◌, ◌⊎◌, refl, true, false, ◌&&◌, ◌||◌, List, [], ◌∷◌, ◌++◌, Text, text_eq, ◌==◌,
  ==_iff, length, length-append, if◌then◌else◌, arith, inl, inr,
}
use decentralized_cloud.Master.State.{Env, Node, Voter}
use decentralized_cloud.Master.Voting.{has_voted, admits_vote, record_vote, register_vote, voter_of}

-- No key has two ballots.
abbrev pub DistinctVotes : List Voter → Type 0
DistinctVotes [] = Unit {0}
DistinctVotes (v ∷ vs) = (has_voted v.public_key vs ≡ false) × DistinctVotes vs

has_voted-append :
    (key : Text) (vs : List Voter) (v : Voter)
    → has_voted key (vs ++ v ∷ []) ≡ has_voted key vs || (v.public_key == key)
unfolding has_voted
has_voted-append key [] v = ground arith
has_voted-append key (w ∷ vs) v = ground (arith, has_voted-append key vs v)

DistinctVotes-append :
    (vs : List Voter) (v : Voter)
    → DistinctVotes vs
    → has_voted v.public_key vs ≡ false
    → DistinctVotes (vs ++ v ∷ [])
unfolding has_voted
DistinctVotes-append [] v d fresh = (refl, tt)
DistinctVotes-append (w ∷ vs) v d fresh = ground (
  arith,
  has_voted-append w.public_key vs v,
  ==_iff w.public_key v.public_key,
  ==_iff v.public_key w.public_key,
  DistinctVotes-append vs v d.1,
)

not-DistinctVotes-append :
    (vs : List Voter) (v : Voter)
    → has_voted v.public_key vs ≡ true
    → ¬ DistinctVotes (vs ++ v ∷ [])
unfolding has_voted
not-DistinctVotes-append [] v voted d = cc
not-DistinctVotes-append (w ∷ vs) v voted d = ground (
  arith,
  has_voted-append w.public_key vs v,
  ==_iff w.public_key v.public_key,
  ==_iff v.public_key w.public_key,
  not-DistinctVotes-append vs v,
)

-- Without another thread in between, a vote is added exactly if the node takes part in the round, the
-- key has no ballot yet and is a public key, and the signature of the voting timestamp verifies.
register_vote_lem :
    (env : Env) (signature key : Text) (n : Node)
    → register_vote env signature key n ≡ (
        if admits_vote env key n
          && (env.is_public_key (env.base64_decode key)
              && env.verify_x509 n.next_voting_timestamp_str signature (env.base64_decode key))
        then record n {
          random_numbers = n.random_numbers ++ voter_of signature (env.base64_decode key) ∷ [];
        }
        else n)
unfolding register_vote admits_vote record_vote
register_vote_lem env signature key n = ground arith

abbrev with_vote : Text → Text → Node → Node
with_vote signature key n = record n {
  random_numbers = n.random_numbers ++ voter_of signature key ∷ [];
}

-- A vote that passed the first critical section, on its way to the second.
pub record Pending : Type 0 where
  pub signature : Text
  pub key : Text

pub record Votes : Type 0 where
  pub node : Node
  pub pending : List Pending

-- What the threads that handle votes and the main loop can do, in any order: a vote passes the first
-- critical section, or one that did goes through the second, or the main loop adds the node's own ballot
-- under the node's id. The main loop does not look for a ballot of its own; the step is for a list that
-- has none, as it has where the last round was counted.
pub data VoteStep (env : Env) : Votes → Votes → Type 0 where
  arrives :
      {s : Votes} (p : Pending)
      → admits_vote env p.key s.node ≡ true
      → VoteStep env s (record s { pending = p ∷ s.pending })
  commits :
      {s : Votes} (before after : List Pending) (p : Pending)
      → s.pending ≡ before ++ p ∷ after
      → VoteStep env s
          (record { node = record_vote env p.signature p.key s.node; pending = before ++ after })
  casts :
      {s : Votes} (signature : Text)
      → has_voted env.node_id s.node.random_numbers ≡ false
      → VoteStep env s (record s { node = with_vote signature env.node_id s.node })

pub data VoteReach (env : Env) (s : Votes) : Votes → Type 0 where
  here : VoteReach env s s
  next : {t u : Votes} → VoteReach env s t → VoteStep env t u → VoteReach env s u

-- Every signature that verifies is `width` long.
abbrev SignatureWidth : ℕ → Env → Type 0
SignatureWidth width env =
    (text signature key : Text)
    → env.verify_x509 text signature key ≡ true
    → length signature ≡ width

record_vote-grows :
    (env : Env) (signature key : Text) (n : Node)
    → length n.random_numbers ≤ length (record_vote env signature key n).random_numbers
unfolding record_vote
record_vote-grows env signature key n =
    ground (arith, length-append n.random_numbers (voter_of signature (env.base64_decode key) ∷ []))

record_vote-DistinctVotes :
    (width : ℕ) (env : Env) (signature key : Text) (n : Node)
    → SignatureWidth width env
    → length (record_vote env signature key n).random_numbers ≤ width
    → DistinctVotes n.random_numbers
    → DistinctVotes (record_vote env signature key n).random_numbers
unfolding record_vote
record_vote-DistinctVotes width env signature key n wide few d = ground (
  arith,
  wide n.next_voting_timestamp_str signature (env.base64_decode key),
  length-append n.random_numbers (voter_of signature (env.base64_decode key) ∷ []),
  DistinctVotes-append n.random_numbers (voter_of signature (env.base64_decode key)) d,
)

VoteStep-grows :
    {env : Env} {s t : Votes}
    → VoteStep env s t
    → length s.node.random_numbers ≤ length t.node.random_numbers
VoteStep-grows {s} (arrives p ok) = omega arith
VoteStep-grows {env} {s} (commits before after p e) = record_vote-grows env p.signature p.key s.node
VoteStep-grows {env} {s} (casts signature none) =
    ground (arith, length-append s.node.random_numbers (voter_of signature env.node_id ∷ []))

VoteStep-DistinctVotes :
    {env : Env} {s t : Votes} (width : ℕ)
    → SignatureWidth width env
    → VoteStep env s t
    → length t.node.random_numbers ≤ width
    → DistinctVotes s.node.random_numbers
    → DistinctVotes t.node.random_numbers
VoteStep-DistinctVotes width wide (arrives p ok) few d = d
VoteStep-DistinctVotes {env} {s} width wide (commits before after p e) few d =
    record_vote-DistinctVotes width env p.signature p.key s.node wide few d
VoteStep-DistinctVotes {env} {s} width wide (casts signature none) few d =
    DistinctVotes-append s.node.random_numbers (voter_of signature env.node_id) d none

-- However the two critical sections of the calls of `registerVote` are interleaved, with one another and
-- with the main loop adding the node's own ballot where the list has none of it, no key gets two ballots,
-- so long as all signatures that verify are equally long and there are no more ballots than that length.
pub VoteReach-DistinctVotes :
    {env : Env} {s t : Votes} (width : ℕ)
    → SignatureWidth width env
    → VoteReach env s t
    → length t.node.random_numbers ≤ width
    → DistinctVotes s.node.random_numbers
    → DistinctVotes t.node.random_numbers
VoteReach-DistinctVotes width wide here few d = d
VoteReach-DistinctVotes {env} {s} {t} width wide (next {t = m} r st) few d =
    let grows : length m.node.random_numbers ≤ length t.node.random_numbers = VoteStep-grows st in
    VoteStep-DistinctVotes width wide st few (VoteReach-DistinctVotes width wide r (omega arith) d)

record_vote-adds :
    (env : Env) (signature key : Text) (n : Node)
    → env.is_public_key (env.base64_decode key) ≡ true
    → env.verify_x509 n.next_voting_timestamp_str signature (env.base64_decode key) ≡ true
    → (length signature ≡ length n.random_numbers)
      ⊎ (has_voted (env.base64_decode key) n.random_numbers ≡ false)
    → record_vote env signature key n ≡ with_vote signature (env.base64_decode key) n
unfolding record_vote
record_vote-adds env signature key n proper good why = ground arith

admits-fresh :
    (env : Env) (key : Text) (n : Node)
    → admits_vote env key n ≡ true
    → has_voted (env.base64_decode key) n.random_numbers ≡ false
unfolding admits_vote
admits-fresh env key n admitted = ground arith

-- Of two votes of one key that passed the first check and both verify, the second is added to the
-- first if its signature is one character longer than there were ballots: then the search for a
-- ballot of the key is skipped.
record_vote-double :
    (env : Env) (first second key : Text) (n : Node)
    → admits_vote env key n ≡ true
    → env.is_public_key (env.base64_decode key) ≡ true
    → env.verify_x509 n.next_voting_timestamp_str first (env.base64_decode key) ≡ true
    → env.verify_x509 n.next_voting_timestamp_str second (env.base64_decode key) ≡ true
    → length second ≡ length n.random_numbers + 1
    → ¬ DistinctVotes (record_vote env second key (record_vote env first key n)).random_numbers
record_vote-double env first second key n admitted proper good good' long =
    let k = env.base64_decode key in
    let n₁ = with_vote first k n in
    let one =
      record_vote-adds env first key n proper good (inr (admits-fresh env key n admitted)) in
    let count = length-append n.random_numbers (voter_of first k ∷ []) in
    let two = record_vote-adds env second key n₁ proper good' (inl (omega arith)) in
    let voted : has_voted k n₁.random_numbers ≡ true =
      ground (arith, has_voted-append k n.random_numbers (voter_of first k), ==_iff k k) in
    rw (one, two) (not-DistinctVotes-append n₁.random_numbers (voter_of second k) voted)
