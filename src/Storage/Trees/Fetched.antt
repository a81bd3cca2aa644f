-- ===== src/Storage/Trees/Fetched.antt =====
-- Functions and templates that were added, updated or deleted, as clients fetch them
-- (StorageNode/StorageNode.cpp).
use decentralized_cloud.Base.Class.{text_beq}
use decentralized_cloud.Base.{
  ◌+◌, ◌≡◌, refl, sym, ap, subst, ◌∙◌, false, some, [], Text, text_eq, ◌==◌, ==_self, is_empty,
}
use decentralized_cloud.Message.{fetch_function, state_change}
use decentralized_cloud.Storage.World.{
  Env, World, returned, after_result, world_of, client_result, caught_result, or_throw, dht_get,
  dht_put, get_guid, add_object, fetch_object, send,
}
use decentralized_cloud.Storage.Trees.{
  function_tree, transaction_tree, joined, object_key, root_key, link_to_root, name_child,
  add_child_node, fetch_function_of,
}
use decentralized_cloud.Storage.Kept.{
  Laws, Stored, Keeps, bind-Keeps, give-Keeps, if-Keeps, dht_get-Keeps, dht_put-Keeps,
  add_object_and_link-Keeps, add_link-Keeps, send-Keeps,
}

module _ {env : Env} where
  pub add_object-some :
      (w : World env) (d h : Text) (o : env.Objects)
      → env.object_put w.objects d [] ≡ some (o, h)
      → add_object d w ≡ returned h (record w { objects = o })
  unfolding add_object
  add_object-some w d h o e = ap (λ r. caught_result [] (client_result r w)) e

  pub fetch_object-some :
      (w : World env) (hash body : Text)
      → env.object_data w.objects hash ≡ some body
      → fetch_object hash w ≡ returned body w
  unfolding fetch_object
  fetch_object-some w hash body e = ap (λ o. caught_result [] (or_throw o w)) e

module _ {env : Env} (laws : Laws env) where
  pub link_to_root-Keeps :
      (key body tree object_id object_hash txid : Text)
      → (joined transaction_tree object_hash == key) ≡ false
      → (root_key tree == key) ≡ false
      → Keeps laws key body (link_to_root tree object_id object_hash txid)
  unfolding link_to_root
  link_to_root-Keeps key body tree object_id object_hash txid other_tx other_root =
      bind-Keeps laws key body _ _
        (if-Keeps laws key body (is_empty txid) _ _ (give-Keeps laws key body tt)
          (dht_put-Keeps laws key body (joined transaction_tree object_hash) txid other_tx))
        (λ done.
          bind-Keeps laws key body _ _ (dht_get-Keeps laws key body (root_key tree)) (λ root_hash.
            bind-Keeps laws key body _ _
              (if-Keeps laws key body (is_empty root_hash) _ _
                (add_object_and_link-Keeps laws key body tree object_hash object_id)
                (add_link-Keeps laws key body root_hash object_id object_hash))
              (λ new_root. dht_put-Keeps laws key body (root_key tree) new_root other_root)))

  name_child-Stored :
      (w : World env) (source channel_id txid tid hash body : Text)
      → is_empty hash ≡ false
      → env.object_data w.objects hash ≡ some body
      → Stored laws
          (object_key function_tree tid (env.guid w.drawn))
          body
          (world_of (name_child source channel_id txid tid function_tree hash w))
  unfolding name_child get_guid dht_put object_key joined root_key text_beq
  name_child-Stored w source channel_id txid tid hash body some_hash has_body =
      (bind-Keeps laws key body _ _
          (send-Keeps laws key body source channel_id state_change txid (env.guid w.drawn) hash)
          (λ done.
            bind-Keeps laws key body _ _
              (link_to_root-Keeps key body (joined function_tree tid) (env.guid w.drawn) hash txid
                refl refl)
              (λ linked. give-Keeps laws key body tt))).keeps
        (record w { table = env.put w.table key hash; drawn = w.drawn + 1 })
        (record {
          hash = hash;
          named = laws.get_put w.table key hash key ∙ rw (==_self key) refl;
          some_hash = some_hash;
          has_body = has_body;
        })
    where
      key : Text
      key = object_key function_tree tid (env.guid w.drawn)

  fetch_function_of-Stored :
      (w : World env) (source channel_id txid tid id body : Text)
      → Stored laws (object_key function_tree tid id) body w
      → fetch_function_of source channel_id txid tid id [] w
        ≡ send source channel_id fetch_function txid id body w
  unfolding fetch_function_of dht_get
  fetch_function_of-Stored w source channel_id txid tid id body s =
      rw (s.named, s.some_hash)
        (ap (λ r. after_result r (λ found. send source channel_id fetch_function txid id found))
          (fetch_object-some w s.hash body s.has_body))

  -- A function that was added is stored under its new id: if IPFS takes the object, fetching the
  -- function afterwards answers with the text that was added, whether or not the client that added it
  -- could be answered. `laws` are the laws of the table and of the IPFS objects.
  pub fetch_function_of-add_child_node :
      (w : World env) (o : env.Objects)
      (source channel_id txid tid object h source' channel_id' txid' : Text)
      → env.object_put w.objects object [] ≡ some (o, h)
      → let w' = world_of (add_child_node source channel_id txid tid function_tree object w) in
        fetch_function_of source' channel_id' txid' tid (env.guid w.drawn) [] w'
        ≡ send source' channel_id' fetch_function txid' (env.guid w.drawn) object w'
  unfolding add_child_node
  fetch_function_of-add_child_node w o source channel_id txid tid object h source' channel_id' txid'
        put =
      fetch_function_of-Stored _ source' channel_id' txid' tid (env.guid w.drawn) object (
        subst
          (λ r.
            Stored laws (object_key function_tree tid (env.guid w.drawn)) object
              (world_of (after_result r (name_child source channel_id txid tid function_tree))))
          (sym (add_object-some w object h o put))
          (name_child-Stored (record w { objects = o }) source channel_id txid tid h object
            (laws.hash_put w.objects o object h [] put)
            (laws.data_put w.objects o object h [] put)))
