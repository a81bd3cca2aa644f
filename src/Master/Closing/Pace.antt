-- ===== src/Master/Closing/Pace.antt =====
-- How fast the loop of MasterNodeLib.cpp makes blocks.
use decentralized_cloud.Base.{
  ◌⊎◌, is_empty, ◌++◌, ap, ◌∙◌, ℕ, ◌+◌, ◌-◌, ◌^◌, ◌≤◌, ◌<◌, ◌≡◌, refl, Option, none, some, List, [],
  ◌∷◌, Text, leb, if◌then◌else◌, arith, length, Bool-cases, inl, inr, All,
}
use decentralized_cloud.Transaction.{Transaction}
use decentralized_cloud.Base.Outcome.{Outcome, ok, thrown, ◌>>=◌, object_of}
use decentralized_cloud.Block.{
  Block, ChainState, Made, unread, undumped, made, all_dump, numbered_block, get_block,
  get_next_block_number, seal_block,
}
use decentralized_cloud.Transaction.{set_block_id}
use decentralized_cloud.Transaction.Codec.{to_json}
use decentralized_cloud.Base.{Bool, true, false, map}
use decentralized_cloud.Master.State.{Env, Node}
use decentralized_cloud.Master.Clock.{get_current_timestamp}
use decentralized_cloud.Master.Producers.{is_block_producer}
use decentralized_cloud.Master.Ledger.{cleanup_transactions_map}
use decentralized_cloud.Master.Voting.{enter_and_exit_voting_phase}
use decentralized_cloud.Master.Closing.{
  split_due, made_block, time_to_close_block, close_if_due, clean_if_due, or_thrown, run_loop_turn,
  run_loop,
}
use decentralized_cloud.Master.Closing.Steady.{SameChain, Kept, voting-Kept, hand_out-SameChain}

-- What a call does to the number of the next block and to the time of the last round.
pub record Paced (now : ℕ) (n n' : Node) : Type 0 where
  pub recent : (n'.last_round_timestamp ≡ n.last_round_timestamp) ⊎ (n'.last_round_timestamp ≡ now)
  pub rounds :
      n'.chain.next_block_number + n.last_round_timestamp
      ≤ n.chain.next_block_number + n'.last_round_timestamp
  pub more : n.chain.next_block_number ≤ n'.chain.next_block_number
  pub one : n'.chain.next_block_number ≤ n.chain.next_block_number + 1

Same-Paced : (now : ℕ) (n n' : Node) → SameChain n n' → Paced now n n'
Same-Paced now n n' (chain, round) = record {
  recent = inl round;
  rounds = ground arith;
  more = ground arith;
  one = ground arith;
}

next_number :
    (dht_get : Text → Text) (now : ℕ) (s : ChainState)
    → 0 < s.next_block_number
    → s.next_block_number + 1 < 2 ^ 64
    → get_next_block_number dht_get now s
      ≡ some (s.next_block_number, record s { next_block_number = s.next_block_number + 1 }, [])
unfolding get_next_block_number
next_number dht_get now s pos small = ground arith

-- The state of the chain after a call, also one that threw.
abbrev chain_of : ChainState → Made → ChainState
chain_of s unread = s
chain_of s (undumped s' effects) = s'
chain_of s (made b s' effects) = s'

get_block_number :
    (env : Env) (now : ℕ) (due : List Transaction) (s : ChainState)
    → 0 < s.next_block_number
    → s.next_block_number + 1 < 2 ^ 64
    → (chain_of s (get_block env.dumps env.hash env.dht_get now due s)).next_block_number
      ≡ s.next_block_number + 1
unfolding seal_block get_block numbered_block
get_block_number env now due s pos small =
    let next = record s { next_block_number = s.next_block_number + 1 } in
    rw (next_number env.dht_get now s pos small, get_block)
      (numbered (all_dump env.dumps (map to_json (map (set_block_id s.next_block_number) due))))
  where
    numbered :
        (good : Bool)
        → (chain_of s (
            if good
            then made
                (seal_block env.hash env.dht_get now due (
                  s.next_block_number,
                  record s { next_block_number = s.next_block_number + 1 },
                  [],
                )).0
                (seal_block env.hash env.dht_get now due (
                  s.next_block_number,
                  record s { next_block_number = s.next_block_number + 1 },
                  [],
                )).1
                (seal_block env.hash env.dht_get now due (
                  s.next_block_number,
                  record s { next_block_number = s.next_block_number + 1 },
                  [],
                )).2
            else undumped
                (record s { next_block_number = s.next_block_number + 1 })
                [])).next_block_number
          ≡ s.next_block_number + 1
    numbered true = refl
    numbered false = refl

made_block-chain :
    (env : Env) (block_text : Block → Text) (m : Made) (n : Node)
    → ((object_of (made_block env block_text m n)).chain ≡ chain_of n.chain m)
      × ((object_of (made_block env block_text m n)).last_round_timestamp ≡ n.last_round_timestamp)
unfolding made_block
made_block-chain env block_text unread n = (refl, refl)
made_block-chain env block_text (undumped chain effects) n = (refl, refl)
made_block-chain env block_text (made b chain sent) n =
    let n' = record n { chain = chain; sent = n.sent ++ sent } in
    hand_out-SameChain env block_text b (is_block_producer env n') n'

-- One block more.
time_to_close_block-number :
    (env : Env) (block_text : Block → Text) (n : Node)
    → 0 < n.chain.next_block_number
    → n.chain.next_block_number + 1 < 2 ^ 64
    → let n' = object_of (time_to_close_block env block_text n) in
      (n'.chain.next_block_number ≡ n.chain.next_block_number + 1)
      × (n'.last_round_timestamp ≡ n.last_round_timestamp)
unfolding time_to_close_block
time_to_close_block-number env block_text n pos small =
    let due = (split_due n.now (env.sort_transactions n.queue_out)).0 in
    let number = get_block_number env n.now due n.chain pos small in
    let key =
      if is_empty n.base64encoded_key
      then env.base64_encode env.node_key
      else n.base64encoded_key in
    let later = (split_due n.now (env.sort_transactions n.queue_out)).1 in
    let taken = record n { base64encoded_key = key; queue_out = later } in
    let block = get_block env.dumps env.hash env.dht_get n.now due n.chain in
    let kept = made_block-chain env block_text block taken in
    (ap (λ (c : ChainState). c.next_block_number) kept.0 ∙ number, kept.1)

-- A round, if its time has come.
close_if_due-Paced :
    (env : Env) (block_text : Block → Text) (now : ℕ) (n : Node)
    → 0 < n.chain.next_block_number
    → n.chain.next_block_number + 1 < 2 ^ 64
    → Paced now n (object_of (close_if_due env block_text now n))
unfolding close_if_due
close_if_due-Paced env block_text now n pos small =
    elim (Bool-cases (leb 1 (now - n.last_round_timestamp))) [
      | inl due ↦
          let started = record n { last_round_timestamp = now } in
          let closed = time_to_close_block-number env block_text started pos small in
          rw due (record {
            recent = inr closed.1;
            rounds = ground arith;
            more = ground arith;
            one = ground arith;
          })
      | inr early ↦ rw early (Same-Paced now n n (refl, refl))
    ]

clean-SameChain : (now : ℕ) (n : Node) → SameChain n (object_of (clean_if_due now n))
unfolding clean_if_due cleanup_transactions_map
clean-SameChain now n = ground arith

Paced-Same : {now : ℕ} {n m k : Node} → Paced now n m → SameChain m k → Paced now n k
Paced-Same paced (chain, round) = record {
  recent = ground arith;
  rounds = ground arith;
  more = ground arith;
  one = ground arith;
}

SameChain-Paced : {now : ℕ} {n m k : Node} → SameChain n m → Paced now m k → Paced now n k
SameChain-Paced (chain, round) paced = record {
  recent = ground arith;
  rounds = ground arith;
  more = ground arith;
  one = ground arith;
}

cleaned-Paced :
    (now : ℕ) (n : Node) (r : Outcome Node)
    → Paced now n (object_of r)
    → Paced now n (object_of (r >>= clean_if_due now))
cleaned-Paced now n (ok m) paced = Paced-Same paced (clean-SameChain now m)
cleaned-Paced now n (thrown m) paced = paced

started-SameChain :
    (app_startup system_startup time : ℕ) (n : Node)
    → SameChain n (get_current_timestamp app_startup system_startup time n)
unfolding get_current_timestamp
started-SameChain app_startup system_startup time n = (refl, refl)

-- The turn after the vote.
voted-Paced :
    (env : Env) (block_text : Block → Text) (now : ℕ) (n started : Node) (o : Option Node)
    → SameChain n started
    → Kept started o
    → 0 < n.chain.next_block_number
    → n.chain.next_block_number + 1 < 2 ^ 64
    → Paced now n (
        object_of (
          or_thrown started o >>= λ voted.
          close_if_due env block_text now voted >>= λ closed. clean_if_due now closed))
unfolding or_thrown
voted-Paced env block_text now n started none same kept pos small = Same-Paced now n started same
voted-Paced env block_text now n started (some voted) same kept pos small =
    let number : voted.chain.next_block_number ≡ n.chain.next_block_number =
      ground (arith, same.0, kept.0) in
    SameChain-Paced (kept.0 ∙ same.0, kept.1 ∙ same.1)
      (cleaned-Paced now voted (close_if_due env block_text now voted) (
        close_if_due-Paced env block_text now voted (omega (arith, number))
          (omega (arith, number))))

-- A turn and what follows.
continued :
    (now last : ℕ) (n : Node) (r : Outcome Node) (rest : Node → Outcome Node)
    → Paced now n (object_of r)
    → now ≤ last
    → n.last_round_timestamp ≤ last
    → ((m : Node)
        → n.chain.next_block_number ≤ m.chain.next_block_number
        → m.chain.next_block_number ≤ n.chain.next_block_number + 1
        → m.last_round_timestamp ≤ last
        → (object_of (rest m)).chain.next_block_number + m.last_round_timestamp
          ≤ m.chain.next_block_number + last)
    → (object_of (r >>= rest)).chain.next_block_number + n.last_round_timestamp
      ≤ n.chain.next_block_number + last
continued now last n (ok m) rest paced before old more =
    let later = more m paced.more paced.one (ground (arith, paced.recent)) in
    omega (arith, paced.rounds, later)
continued now last n (thrown m) rest paced before old more =
    ground (arith, paced.recent, paced.rounds)

module _ (env : Env) (block_text : Block → Text) (app_startup system_startup : ℕ) where
  run_loop_turn-Paced :
      (time : ℕ) (n : Node)
      → 0 < n.chain.next_block_number
      → n.chain.next_block_number + 1 < 2 ^ 64
      → Paced
          (app_startup + (time - system_startup))
          n
          (object_of (run_loop_turn env block_text app_startup system_startup time n))
  unfolding run_loop_turn
  run_loop_turn-Paced time n pos small =
      let started = get_current_timestamp app_startup system_startup time n in
      voted-Paced env block_text started.now n started (enter_and_exit_voting_phase env started)
        (started-SameChain app_startup system_startup time n) (voting-Kept env started) pos small

  -- In a run of the loop with no turn after the time `last`, a node that is running makes one block at
  -- most for every second since its last round: the number of its next block grows by no more, however
  -- many turns there are and wherever they throw, also if the clock goes back.
  pub run_loop_pace :
      (times : List ℕ) (n : Node) (last : ℕ)
      → 0 < n.chain.next_block_number
      → n.chain.next_block_number + length times < 2 ^ 64
      → n.last_round_timestamp ≤ last
      → All (λ time. app_startup + (time - system_startup) ≤ last) times
      → (object_of
            (run_loop env block_text app_startup system_startup times n)).chain.next_block_number
          + n.last_round_timestamp
        ≤ n.chain.next_block_number + last
  unfolding run_loop
  run_loop_pace [] n last pos small old all = omega arith
  run_loop_pace (time ∷ times) n last pos small old (now, all) =
      continued (app_startup + (time - system_startup)) last n
        (run_loop_turn env block_text app_startup system_startup time n)
        (run_loop env block_text app_startup system_startup times)
        (run_loop_turn-Paced time n pos (omega arith)) now old
        λ m positive near young. run_loop_pace times m last (omega arith) (omega arith) young all
