-- ===== src/Master/Producers.antt =====
-- Which of the elected nodes may close the block of a second (MasterNodeLib.cpp).
use decentralized_cloud.Base.{
  ℕ, ◌+◌, ◌%◌, ◌<◌, ◌≡◌, refl, ap, ◌∙◌, ◌≢◌, Option, none, some, Bool, true, false, [], Text,
  text_eq, ◌==◌, ltb, length, get_elem?, get_elem?-of_lt, length_pos, Bool-cases, inl, inr,
  eq_of_==, if◌then◌else◌, arith,
}
use native.Mathlib.Nat.{mod-lt, mod-add-mod}
use decentralized_cloud.Master.State.{Env, Node, Voter}
use decentralized_cloud.Master.Clock.{get_seconds_past_hour}

-- An index into `blockProducers`; `none` is -1.
unfoldable pub get_block_producer_for : ℕ → Node → Option ℕ
unfolding get_seconds_past_hour
get_block_producer_for timestamp n =
    if ltb (length n.block_producers) 1
    then none
    else some (get_seconds_past_hour timestamp % length n.block_producers)

unfoldable pub get_current_block_producer : Node → Option ℕ
unfolding get_seconds_past_hour
get_current_block_producer n =
    if ltb (length n.block_producers) 2
    then none
    else some (get_seconds_past_hour n.now % length n.block_producers)

-- `blockProducers.at(i).publicKey == id`; `none` is the exception of `at`.
unfoldable is_producer_at : Option ℕ → Text → Node → Option Bool
is_producer_at none id n = some false
is_producer_at (some i) id n = elim (get_elem? n.block_producers i) [
  | none ↦ none
  | some v ↦ some (v.public_key == id)
]

unfoldable pub is_block_producer : Env → Node → Option Bool
unfolding is_producer_at get_current_block_producer
is_block_producer env n = is_producer_at (get_current_block_producer n) env.node_id n

is_producer_at-same :
    (at_index : Option ℕ) (id : Text) (n n' : Node)
    → n'.block_producers ≡ n.block_producers
    → is_producer_at at_index id n' ≡ is_producer_at at_index id n
unfolding is_producer_at
is_producer_at-same none id n n' e = refl
is_producer_at-same (some i) id n n' e = cc

get_current_block_producer-same :
    (n n' : Node)
    → n'.now ≡ n.now
    → n'.block_producers ≡ n.block_producers
    → get_current_block_producer n' ≡ get_current_block_producer n
unfolding get_current_block_producer
get_current_block_producer-same n n' e f = ground arith

pub is_block_producer-same :
    (env : Env) (n n' : Node)
    → n'.now ≡ n.now
    → n'.block_producers ≡ n.block_producers
    → is_block_producer env n ≡ some true
    → is_block_producer env n' ≡ some true
unfolding is_block_producer
is_block_producer-same env n n' e f producer =
    is_producer_at-same (get_current_block_producer n') env.node_id n n' f
    ∙ (ap (λ p. is_producer_at p env.node_id n) (get_current_block_producer-same n n' e f)
        ∙ producer)

-- Where anybody was elected, every second has a producer, and the index is inside the vector.
get_block_producer_for-in_range :
    (t : ℕ) (n : Node)
    → n.block_producers ≢ []
    → (i : ℕ) × (get_block_producer_for t n ≡ some i) × (i < length n.block_producers)
unfolding get_block_producer_for
get_block_producer_for-in_range t n h =
    let pos = length_pos n.block_producers h in
    (
      get_seconds_past_hour t % length n.block_producers,
      ground arith,
      mod-lt (get_seconds_past_hour t) pos,
    )

-- From one second to the next one of the same hour the turn passes to the next node of the list,
-- and from the last node to the first.
get_block_producer_for-next :
    (t i : ℕ) (n : Node)
    → t % 3600 ≢ 3599
    → get_block_producer_for t n ≡ some i
    → get_block_producer_for (t + 1) n ≡ some ((i + 1) % length n.block_producers)
unfolding get_block_producer_for
get_block_producer_for-next t i n h e =
    let step : (t + 1) % 3600 ≡ t % 3600 + 1 = omega arith in
    ground (arith, mod-add-mod (t % 3600) (length n.block_producers) 1)

-- Whatever producers were elected, the node never reads past their end, and it takes itself for the
-- producer of a second only if its own list has an entry with the node's id at the index of the second,
-- the one that `getBlockProducerFor` gives.
pub is_block_producer-checked :
    (env : Env) (n : Node)
    → (b : Bool) × (is_block_producer env n ≡ some b)
      × (b ≡ true
          → (i : ℕ) × (v : Voter) × (get_block_producer_for n.now n ≡ some i)
            × (get_elem? n.block_producers i ≡ some v)
            × (v.public_key ≡ env.node_id))
unfolding is_block_producer get_block_producer_for
is_block_producer-checked env n = elim (Bool-cases (ltb (length n.block_producers) 2)) [
  | inl few ↦ (false, ground arith, λ e. cc)
  | inr enough ↦
      let len = length n.block_producers in
      let i = n.now % 3600 % len in
      let (v, found) = get_elem?-of_lt n.block_producers i (mod-lt (n.now % 3600) (ground arith)) in
      (
        v.public_key == env.node_id,
        ground (arith, found),
        λ e. (i, v, ground arith, found, eq_of_== e),
      )
]
