-- ===== src/Block/Tests.antt =====
-- Blocks on concrete values.
use decentralized_cloud.Base.{
  true, ◌≡◌, refl, some, List, [], ◌∷◌, false, Text, codes, is_empty, length, arith,
}
use decentralized_cloud.Transaction.{originate}
use decentralized_cloud.Block.{Block, ChainState}
use decentralized_cloud.Block.Chain.{Round, make_blocks, ChainFrom, make_blocks-ChainFrom}

-- A table that knows nothing, and a digest that is never empty.
abbrev empty_table : Text → Text
empty_table key = []

abbrev digest : Text → Text
digest text = 104 ∷ text

digest-nonempty : (t : Text) → is_empty (digest t) ≡ false
digest-nonempty t = refl

abbrev first_round : Round
first_round = record { dht_get = empty_table; now = 1700; txns = originate (codes "T1") 1699 ∷ [] }

abbrev second_round : Round
second_round = record { dht_get = empty_table; now = 1701; txns = [] }

abbrev running : ChainState
running = record { next_block_number = 7; previous_hash = codes "h6" }

make_blocks-ChainFrom_example :
    (bs : List Block) × (make_blocks (λ j. true) digest (first_round ∷ second_round ∷ []) running
      ≡ some bs)
    × (length bs ≡ 2)
    × ChainFrom (λ j. true) digest 7 (codes "h6") bs
make_blocks-ChainFrom_example =
    make_blocks-ChainFrom (λ j. true) digest digest-nonempty (first_round ∷ second_round ∷ [])
      running (omega arith) (omega arith) refl ((refl, tt), (tt, tt))
