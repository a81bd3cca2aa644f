-- ===== src/Master/Handlers/Verdicts.antt =====
-- What a Master Node answers to a storage node that asks for the check of a block.
use decentralized_cloud.Base.{
  ℕ, ◌≡◌, refl, ap, codes, is_empty, nat_eq, Option, none, some, Bool, [], ◌∷◌, ◌++◌, Text, text_eq,
  get_elem?, if◌then◌else◌, arith,
}
use decentralized_cloud.Base.Outcome.{ok, thrown}
use decentralized_cloud.Base.Decimal.{stol}
use decentralized_cloud.Base.Dict.{find}
use decentralized_cloud.Block.{Block}
use decentralized_cloud.Json.{get_text}
use decentralized_cloud.Message.{FieldValueMap}
use decentralized_cloud.Master.State.{Env, Node, Voter}
use decentralized_cloud.Master.Storage.{get_block_storage_node}
use decentralized_cloud.Master.Producers.{get_block_producer_for}
use decentralized_cloud.Master.Handlers.{
  send_verdict, check_producer, check_block, read_verdict, handle_verify_block,
}

-- Two ways to go on with a value agree if they do on every value.
some_same {ℓ κ} :
    {A : Type ℓ} {B : Type κ} (o : Option A) (b : B) (f g : A → B)
    → ((a : A) → f a ≡ g a)
    → elim o [ none ↦ b | some a ↦ f a ] ≡ elim o [ none ↦ b | some a ↦ g a ]
some_same none b f g same = refl
some_same (some a) b f g same = same a

if_same {ℓ} :
    {A : Type ℓ} (test : Bool) (a b c : A)
    → a ≡ b
    → (if test then a else c) ≡ (if test then b else c)
if_same test a b c e = rw e refl

module _ (env : Env) (verify : Text → Text → Text → Bool) where
  -- The same node with another check of signatures.
  abbrev pub other : Env
  other = record env { verify_x509 = verify }

  send_verdict-same :
      (key signature number : Text) (bid : ℕ) (block : Block) (v : Voter) (n : Node)
      → send_verdict other key signature number bid block v n
        ≡ send_verdict env key signature number bid block v n
  unfolding send_verdict
  send_verdict-same key signature number bid block v n = ground arith

  check_producer-same :
      (key signature number : Text) (bid : ℕ) (block : Block) (time : ℕ) (n : Node)
      → check_producer other key signature number bid block time n
        ≡ check_producer env key signature number bid block time n
  unfolding check_producer
  check_producer-same key signature number bid block time n =
      some_same (get_block_producer_for time n) (ok n) _ _ λ i.
        some_same (get_elem? n.block_producers i) (thrown n) _ _
          λ v. send_verdict-same key signature number bid block v n

  check_block-same :
      (timestamp key signature number : Text) (bid : ℕ) (block : Block) (n : Node)
      → check_block other timestamp key signature number bid block n
        ≡ check_block env timestamp key signature number bid block n
  unfolding check_block get_block_storage_node
  check_block-same timestamp key signature number bid block n =
      if_same (env.is_public_key (key ++ 0 ∷ [])) _ _ _ (
        ap
          (λ answer.
            if is_empty (get_block_storage_node env n).block_storage_node
            then ok (get_block_storage_node env n)
            else answer)
          (some_same (stol env.long_max timestamp) (thrown (get_block_storage_node env n)) _ _
            λ time.
              check_producer-same key signature number bid block time
                (get_block_storage_node env n)))

  -- Whatever the check of the producer's signature says, the node answers the same to the storage
  -- node: the verdict is set in an object whose text was made before.
  handle_verify_block-same :
      (fields : FieldValueMap) (n : Node)
      → handle_verify_block other fields n ≡ handle_verify_block env fields n
  unfolding handle_verify_block read_verdict
  handle_verify_block-same fields n = some_same (find (codes "b") fields) (thrown n) _ _ λ text.
      some_same (env.parse (env.base64_decode text)) (thrown n) _ _ λ b.
        some_same (find (codes "tm") fields) (thrown n) _ _ λ timestamp.
          some_same (get_text (codes "k") b) (thrown n) _ _ λ key.
            some_same (get_text (codes "si") b) (thrown n) _ _ λ signature.
              some_same (get_text (codes "n") b) (thrown n) _ _ λ number.
                some_same (stol env.long_max number) (thrown n) _ _ λ bid.
                  some_same (find bid n.blocks) (ok n) _ _ λ block.
                    check_block-same timestamp (env.base64_decode key) signature number bid block n
