-- ===== src/Block/Chain.antt =====
-- The blocks that one node makes form a chain (`getBlock`, called once a round).
use decentralized_cloud.Transaction.{set_block_id}
use decentralized_cloud.Transaction.Codec.{to_json}
use decentralized_cloud.Json.{JsonObject}
use decentralized_cloud.Base.{
  Bool, map, All, ℕ, ◌+◌, ◌^◌, ◌<◌, ◌≡◌, refl, Option, none, some, true, false, List, [], ◌∷◌, Text,
  is_empty, arith, length,
}
use decentralized_cloud.Message.{Effect}
use decentralized_cloud.Transaction.{Transaction}
use decentralized_cloud.Block.{
  Block, ChainState, unread, undumped, made, all_dump, numbered_block, get_next_block_number,
  get_block, seal_block,
}

-- One call: what the table answers, the time, and the transactions.
pub record Round : Type 0 where
  pub dht_get : Text → Text
  pub now : ℕ
  pub txns : List Transaction

module _ (dumps : JsonObject → Bool) (hash : Text → Text) where
  -- The blocks of a list of rounds; `none` if one of the calls throws.
  unfoldable pub make_blocks : List Round → ChainState → Option (List Block)
  make_blocks [] s = some []
  make_blocks (r ∷ rs) s = elim (get_block dumps hash r.dht_get r.now r.txns s) [
    | unread ↦ none
    | undumped s' sent ↦ none
    | made b s' sent ↦ elim (make_blocks rs s') [ none ↦ none | some bs ↦ some (b ∷ bs) ]
  ]

  make_blocks-cons :
      (r : Round) (rs : List Round) (s s' : ChainState) (b : Block) (sent : List Effect)
      (bs : List Block)
      → get_block dumps hash r.dht_get r.now r.txns s ≡ made b s' sent
      → make_blocks rs s' ≡ some bs
      → make_blocks (r ∷ rs) s ≡ some (b ∷ bs)
  unfolding make_blocks
  make_blocks-cons r rs s s' b sent bs done rest = rw (done, make_blocks) (rw (rest, make_blocks))

  -- Numbers from `n` on without a gap, each block carrying the hash of the one before it.
  abbrev pub ChainFrom : ℕ → Text → List Block → Type 0
  ChainFrom n h [] = Unit {0}
  ChainFrom n h (b ∷ bs) = (b.number ≡ n) × (b.previous_hash ≡ h) × ChainFrom (n + 1) b.hash bs

  module _ (hash_ne : (t : Text) → is_empty (hash t) ≡ false) where
    get_next_block_number_running :
        (dht_get : Text → Text) (now : ℕ) (s : ChainState)
        → 0 < s.next_block_number
        → s.next_block_number + 1 < 2 ^ 64
        → get_next_block_number dht_get now s
          ≡ some (s.next_block_number, record s { next_block_number = s.next_block_number + 1 }, [])
    unfolding get_next_block_number
    get_next_block_number_running dht_get now s pos small = ground arith

    -- Every text of the transactions is UTF-8.
    abbrev pub Dumpable : List Transaction → Type 0
    Dumpable = All (λ tx. dumps (to_json tx) ≡ true)

    all_dump-Dumpable :
        (number : ℕ) (txns : List Transaction)
        → Dumpable txns
        → all_dump dumps (map to_json (map (set_block_id number) txns)) ≡ true
    unfolding all_dump set_block_id to_json
    all_dump-Dumpable number [] good = refl
    all_dump-Dumpable number (tx ∷ txns) (first, good) =
        rw (first, all_dump-Dumpable number txns good) refl

    get_block-of_number :
        (r : Round) (s : ChainState) (number : ℕ) (s₁ : ChainState) (sent : List Effect)
        → Dumpable r.txns
        → get_next_block_number r.dht_get r.now s ≡ some (number, s₁, sent)
        → let (b, s', sent') = seal_block hash r.dht_get r.now r.txns (number, s₁, sent) in
          get_block dumps hash r.dht_get r.now r.txns s ≡ made b s' sent'
    unfolding get_block numbered_block
    get_block-of_number r s number s₁ sent good e =
        rw (e, get_block) (rw (all_dump-Dumpable number r.txns good) refl)

    get_block_running :
        (r : Round) (s : ChainState)
        → 0 < s.next_block_number
        → s.next_block_number + 1 < 2 ^ 64
        → is_empty s.previous_hash ≡ false
        → Dumpable r.txns
        → (b : Block) × (s' : ChainState) × (sent : List Effect) × (get_block dumps hash r.dht_get
              r.now r.txns s
            ≡ made b s' sent)
          × (b.number ≡ s.next_block_number)
          × (b.previous_hash ≡ s.previous_hash)
          × (s'.next_block_number ≡ s.next_block_number + 1)
          × (s'.previous_hash ≡ b.hash)
          × (is_empty b.hash ≡ false)
    unfolding seal_block
    get_block_running r s pos small ne good =
        let next = record s { next_block_number = s.next_block_number + 1 } in
        let sealed = seal_block hash r.dht_get r.now r.txns (s.next_block_number, next, []) in
        (
          sealed.0,
          sealed.1,
          sealed.2,
          get_block-of_number r s _ _ _ good
              (get_next_block_number_running r.dht_get r.now s pos small),
          refl,
          rw ne,
          refl,
          refl,
          hash_ne _,
        )

    -- A node that is running makes one block in every round: none of the calls throws, the numbers go
    -- on without a gap, and each block carries the hash of the block before it. The numbers stay below
    -- 2^64, a hash is never the empty text, and every text of the transactions is UTF-8, so that `dump`
    -- takes them.
    pub make_blocks-ChainFrom :
        (rs : List Round) (s : ChainState)
        → 0 < s.next_block_number
        → s.next_block_number + length rs < 2 ^ 64
        → is_empty s.previous_hash ≡ false
        → All (λ r. Dumpable r.txns) rs
        → (bs : List Block) × (make_blocks rs s ≡ some bs)
          × (length bs ≡ length rs)
          × ChainFrom s.next_block_number s.previous_hash bs
    unfolding make_blocks
    make_blocks-ChainFrom [] s pos small ne good = ([], refl, refl, tt)
    make_blocks-ChainFrom (r ∷ rs) s pos small ne (first, good) =
        let (b, s', sent, done, numbered, linked, next, hashed, full) =
          get_block_running r s pos (omega arith) ne first in
        let (bs, rest, same, chain) =
          make_blocks-ChainFrom rs s' (omega arith) (omega arith) (rw hashed full) good in
        (
          b ∷ bs,
          make_blocks-cons r rs s s' b sent bs done rest,
          omega arith,
          (numbered, linked, rw (← next, ← hashed) chain),
        )
