-- ===== src/Block.antt =====
-- MasterNodeLib/BlockUtil.h and BlockUtil.cpp: blocks, their numbers and the chain of hashes.
-- `dht_get` stands for what the distributed table answers during one call, `hash` for `InfoHash::get`.
pub mod Chain
mod Tests
use decentralized_cloud.Base.{
  ℕ, zero, suc, ◌+◌, ◌-◌, ◌%◌, ◌^◌, Option, none, some, Bool, true, false, ◌&&◌, List, [], ◌∷◌,
  ◌++◌, map, Text, codes, is_empty, nat_beq, if◌then◌else◌,
}
use decentralized_cloud.Base.Decimal.{to_string, stoull}
use decentralized_cloud.Json.{JsonObject, JsonValue, str, num}
use decentralized_cloud.Message.{Effect, dht_put}
use decentralized_cloud.Transaction.{Transaction, set_block_id}
use decentralized_cloud.Transaction.Codec.{to_json}

pub record Block : Type 0 where
  pub number : ℕ
  pub hash : Text
  pub previous_hash : Text
  pub contents : List JsonObject
  pub time : ℕ

-- `nextBlockNumber` (`size_t`) and `previousHash`, which start as 0 and empty.
pub record ChainState : Type 0 where
  pub next_block_number : ℕ
  pub previous_hash : Text

abbrev pub initial_chain : ChainState
initial_chain = record { next_block_number = 0; previous_hash = [] }

-- `return nextBlockNumber++`
abbrev take_number : ChainState → ℕ × ChainState × List Effect
take_number s =
    (s.next_block_number, record s { next_block_number = (s.next_block_number + 1) % 2 ^ 64 }, [])

-- The genesis timestamp was fetched; a text that is no number is an exception.
abbrev catch_up : Option ℕ → ℕ → ChainState → Option (ℕ × ChainState × List Effect)
catch_up none now s = none
catch_up (some genesis) now s =
    some (take_number (record s { next_block_number = (now + 2 ^ 64 - genesis) % 2 ^ 64 }))

-- `now` is `currentTimestamp`.
unfoldable pub get_next_block_number :
    (Text → Text) → ℕ → ChainState → Option (ℕ × ChainState × List Effect)
get_next_block_number dht_get now s =
    if nat_beq s.next_block_number 0
    then (if is_empty (dht_get (codes "genesisStamp"))
        then some (
          0,
          record s { next_block_number = 1 },
          dht_put (codes "genesisStamp") (to_string now) true ∷ [],
        )
        else catch_up (stoull (dht_get (codes "genesisStamp"))) now s)
    else some (take_number s)

unfoldable pub get_previous_hash : (Text → Text) → Text
get_previous_hash dht_get =
    if is_empty (dht_get (codes "hash"))
    then codes "00000000000000000000000000000000"
    else dht_get (codes "hash")

-- The ids one after another.
unfoldable joined_ids : List Transaction → Text
joined_ids [] = []
joined_ids (tx ∷ txns) = tx.tx_id ++ joined_ids txns

unfoldable calculate_block_hash : (Text → Text) → ℕ → Text → List Transaction → ℕ → Text
unfolding joined_ids
calculate_block_hash hash number previous txns time =
    hash (to_string number ++ (previous ++ (to_string time ++ joined_ids txns)))

-- The block with its number taken.
unfoldable pub seal_block :
    (Text → Text)
    → (Text → Text)
    → ℕ
    → List Transaction
    → ℕ × ChainState × List Effect
    → Block × ChainState × List Effect
unfolding get_previous_hash calculate_block_hash set_block_id
seal_block hash dht_get now txns (number, s, sent) =
    let numbered = map (set_block_id number) txns in
    let previous =
      if is_empty s.previous_hash then get_previous_hash dht_get else s.previous_hash in
    let current = calculate_block_hash hash number previous numbered now in
    (
      record {
        number = number;
        hash = current;
        previous_hash = previous;
        contents = map to_json numbered;
        time = now;
      },
      record s { previous_hash = current },
      sent ++ dht_put (codes "hash") current false ∷ [],
    )

-- `json::dump` of the block's data throws if a text in it is not UTF-8; `dumps` says of which objects it
-- does not.
unfoldable pub all_dump : (JsonObject → Bool) → List JsonObject → Bool
all_dump dumps [] = true
all_dump dumps (j ∷ js) = dumps j && all_dump dumps js

-- What a call leaves: nothing, where the genesis timestamp cannot be read; the number taken, where the
-- dump throws; or the block. The effects are those of the call.
pub data Made : Type 0 where
  unread : Made
  undumped : ChainState → List Effect → Made
  made : Block → ChainState → List Effect → Made

-- After the number is taken.
unfoldable pub numbered_block :
    (JsonObject → Bool)
    → (Text → Text)
    → (Text → Text)
    → ℕ
    → List Transaction
    → ℕ × ChainState × List Effect
    → Made
unfolding all_dump seal_block set_block_id
numbered_block dumps hash dht_get now txns (number, s, sent) =
    let (b, s', sent') = seal_block hash dht_get now txns (number, s, sent) in
    if all_dump dumps (map to_json (map (set_block_id number) txns))
    then made b s' sent'
    else undumped s sent

unfoldable pub get_block :
    (JsonObject → Bool) → (Text → Text) → (Text → Text) → ℕ → List Transaction → ChainState → Made
unfolding get_next_block_number numbered_block
get_block dumps hash dht_get now txns s = elim (get_next_block_number dht_get now s) [
  | none ↦ unread
  | some taken ↦ numbered_block dumps hash dht_get now txns taken
]
