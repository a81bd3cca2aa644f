-- ===== src/Transaction/Codec.antt =====
-- `Transaction::toJson` and `Transaction::fromJson` (BlockChainCommon/transaction.cpp).
use decentralized_cloud.Base.{
  text_eq, ◌≡◌, refl, Option, none, some, true, [], ◌∷◌, Text, codes, arith,
}
use decentralized_cloud.Base.Class.{text_beq}
use decentralized_cloud.Base.Dict.{find, contains}
use decentralized_cloud.Base.Outcome.{Outcome, ok, thrown, object_of, ◌>>=◌}
use decentralized_cloud.Json.{JsonObject, str, num, get_text, get_number}
use decentralized_cloud.Transaction.{Transaction}

unfoldable pub to_json : Transaction → JsonObject
to_json tx =
    (codes "txid", str tx.tx_id)
    ∷ (codes "t", num tx.timestamp)
    ∷ (codes "h", str tx.last_valid_hash)
    ∷ (codes "mid", str tx.master_node_id)
    ∷ (codes "cid", str tx.compute_node_id)
    ∷ (codes "tid", str tx.tenant_id)
    ∷ (codes "s", str tx.signature)
    ∷ (codes "k", str tx.public_key)
    ∷ (codes "co", str tx.code)
    ∷ (codes "o", str tx.output)
    ∷ (codes "i", str tx.input)
    ∷ (codes "e", str tx.exception)
    ∷ []

abbrev read_with {ℓ} :
    {V : Type ℓ} → Option V → (V → Transaction) → Transaction → Outcome Transaction
read_with none f tx = thrown tx
read_with (some v) f tx = ok (f v)

-- A member of another kind is an exception. So is an absent one here; in the source, where the object is
-- const, `operator[]` has no defined result for it.
unfoldable pub from_json : JsonObject → Transaction → Outcome Transaction
from_json j tx₀ = do
  tx₁ ← read_with (get_text (codes "txid") j) (λ v. record tx₀ { tx_id = v }) tx₀
  tx₂ ← read_with (get_number (codes "t") j) (λ v. record tx₁ { timestamp = v }) tx₁
  tx₃ ← read_with (get_text (codes "h") j) (λ v. record tx₂ { last_valid_hash = v }) tx₂
  tx₄ ← read_with (get_text (codes "mid") j) (λ v. record tx₃ { master_node_id = v }) tx₃
  tx₅ ← read_with (get_text (codes "cid") j) (λ v. record tx₄ { compute_node_id = v }) tx₄
  tx₆ ← read_with (get_text (codes "tid") j) (λ v. record tx₅ { tenant_id = v }) tx₅
  tx₇ ← read_with (get_text (codes "s") j) (λ v. record tx₆ { signature = v }) tx₆
  tx₈ ← read_with (get_text (codes "k") j) (λ v. record tx₇ { public_key = v }) tx₇
  tx₉ ← read_with (get_text (codes "co") j) (λ v. record tx₈ { code = v }) tx₈
  tx₁₀ ← read_with (get_text (codes "o") j) (λ v. record tx₉ { output = v }) tx₉
  tx₁₁ ← read_with (get_text (codes "i") j) (λ v. record tx₁₀ { input = v }) tx₁₀
  tx₁₂ ← read_with (get_text (codes "e") j) (λ v. record tx₁₁ { exception = v }) tx₁₁
  ok (record tx₁₂ { received_full_transaction = true })

-- An object with the twelve members, whatever their values are.
pub record Complete (j : JsonObject) : Type 0 where
  pub tx_id : contains (codes "txid") j ≡ true
  pub timestamp : contains (codes "t") j ≡ true
  pub last_valid_hash : contains (codes "h") j ≡ true
  pub master_node_id : contains (codes "mid") j ≡ true
  pub compute_node_id : contains (codes "cid") j ≡ true
  pub tenant_id : contains (codes "tid") j ≡ true
  pub signature : contains (codes "s") j ≡ true
  pub public_key : contains (codes "k") j ≡ true
  pub code : contains (codes "co") j ≡ true
  pub output : contains (codes "o") j ≡ true
  pub input : contains (codes "i") j ≡ true
  pub exception : contains (codes "e") j ≡ true

pub to_json-Complete : (tx : Transaction) → Complete (to_json tx)
unfolding to_json contains text_beq
to_json-Complete tx = record {
  tx_id = refl;
  timestamp = refl;
  last_valid_hash = refl;
  master_node_id = refl;
  compute_node_id = refl;
  tenant_id = refl;
  signature = refl;
  public_key = refl;
  code = refl;
  output = refl;
  input = refl;
  exception = refl;
}

-- What a receiver keeps of its own: the counters and the flags, but that the transaction is full now.
abbrev pub merged : Transaction → Transaction → Transaction
merged tx own = record tx {
  sent_to_client = own.sent_to_client;
  received_output = own.received_output;
  received_full_transaction = true;
  total_verified = own.total_verified;
  in_block = own.in_block;
  block_id = own.block_id;
  compute_node = own.compute_node;
}

-- Reading the JSON form of a transaction into any object succeeds, takes over the twelve members
-- that are sent, marks the object as full, and keeps the object's own counters and flags.
pub from_json-to_json : (tx own : Transaction) → from_json (to_json tx) own ≡ ok (merged tx own)
unfolding from_json to_json get_text get_number find text_beq
from_json-to_json tx own = refl

-- Once the id is read, an object has it, whatever is wrong with the members after it; and no member
-- says whether a transaction is in a block.
pub from_json-keeps :
    (j : JsonObject) (id : Text) (tx : Transaction)
    → get_text (codes "txid") j ≡ some id
    → ((object_of (from_json j tx)).tx_id ≡ id)
      × ((object_of (from_json j tx)).in_block ≡ tx.in_block)
unfolding from_json
from_json-keeps j id tx e = ground arith
