-- ===== src/Storage/Commits/Verified.antt =====
-- A block that was committed, and the verifications that are added to it
-- (StorageNode/StorageNode.cpp, `addTransactions` and the handler of `verifyBlock`).
use decentralized_cloud.Base.Class.{text_beq}
use decentralized_cloud.Base.{
  ◌≡◌, refl, sym, ap, subst, ◌∙◌, false, Option, some, [], ◌∷◌, Text, codes, text_eq, ==_self,
  is_empty,
}
use decentralized_cloud.Base.Decimal.{to_string}
use decentralized_cloud.Base.Dict.{assign}
use decentralized_cloud.Json.{str}
use decentralized_cloud.Message.{gossip, verify_block}
use decentralized_cloud.Storage.World.{
  BlockJson, Env, World, returned, Action, ◌>>=◌, ◌>>◌, after_result, world_of, or_throw, dht_put,
  add_object, emit,
}
use decentralized_cloud.Storage.Trees.{block_tree, joined, root_key}
use decentralized_cloud.Storage.Trees.Fetched.{link_to_root-Keeps, add_object-some}
use decentralized_cloud.Storage.Kept.{Laws, Stored, after_result-Keeps, emit-Keeps}
use decentralized_cloud.Storage.Commits.{
  add_all_to_tx_tree, first_verification, name_block, add_transactions,
}

unfoldable pub block_key : Text → Text
unfolding joined
block_key id = joined block_tree id

module _ {env : Env} (laws : Laws env)
    (available : (o : env.Objects) (d : Text)
      → (o' : env.Objects) × (h : Text) × (env.object_put o d [] ≡ some (o', h))) where
  name_block-Stored :
      (w : World env) (id hash body : Text)
      → is_empty hash ≡ false
      → env.object_data w.objects hash ≡ some body
      → Stored laws (block_key id) body (world_of (name_block id hash w))
  unfolding name_block dht_put joined root_key text_beq block_key
  name_block-Stored w id hash body some_hash has_body =
      (link_to_root-Keeps laws key body block_tree id hash [] refl refl).keeps
        (record w { table = env.put w.table key hash })
        (record {
          hash = hash;
          named = laws.get_put w.table key hash key ∙ rw (==_self key) refl;
          some_hash = some_hash;
          has_body = has_body;
        })
    where
      key : Text
      key = block_key id

  or_throw-some {ℓ κ} :
      {A : Type ℓ} {B : Type κ} {o : Option A} {a : A} (w : World env) (f : A → Action env B)
      → o ≡ some a
      → after_result (or_throw o w) f ≡ f a w
  or_throw-some w f e = ap (λ o. after_result (or_throw o w) f) e

  -- A block whose transactions could all be added to their tree is stored under its number, as its text,
  -- when it is committed, if IPFS takes every object; `laws` are the laws of the table and of the IPFS
  -- objects.
  pub add_transactions-Stored :
      (w w₁ : World env) (input : Text) (block : BlockJson)
      → env.parse_block input ≡ some block
      → add_all_to_tx_tree block.data_array w ≡ returned tt w₁
      → Stored laws
          (block_key (to_string block.number))
          (env.dump_block block)
          (world_of (add_transactions input w))
  unfolding add_transactions
  add_transactions-Stored w w₁ input block e_block e_all =
      subst (λ r. Stored laws key body (world_of r)) (sym steps) named
    where
      key : Text
      key = block_key (to_string block.number)

      body : Text
      body = env.dump_block block

      tell : Action env (Unit {0})
      tell = emit (
          gossip (codes "master21") verify_block (
            (
              codes "b",
              env.base64_encode (
                  env.dump (
                    assign (codes "n") (str (to_string block.number))
                      (first_verification block.verifications))),
            )
            ∷ []))

      named : Stored laws key body (
          world_of (
            after_result (add_object body w₁) (λ h. name_block (to_string block.number) h >> tell)))
      named =
          let (o, h, put) = available w₁.objects body in
          subst
            (λ r.
              Stored laws key body
                (world_of (after_result r (λ h. name_block (to_string block.number) h >> tell))))
            (sym (add_object-some w₁ body h o put))
            (after_result-Keeps laws key body
              (name_block (to_string block.number) h (record w₁ { objects = o })) (λ done. tell)
              (λ done. emit-Keeps laws key body _)
              (name_block-Stored (record w₁ { objects = o }) (to_string block.number) h body
                (laws.hash_put w₁.objects o body h [] put)
                (laws.data_put w₁.objects o body h [] put)))

      steps :
          add_transactions input w
          ≡ after_result (add_object body w₁) (λ h. name_block (to_string block.number) h >> tell)
      steps =
          or_throw-some w _ e_block
          ∙ ap
              (λ r.
                after_result r (λ done.
                  add_object body >>= (λ h. name_block (to_string block.number) h >> tell)))
              e_all
