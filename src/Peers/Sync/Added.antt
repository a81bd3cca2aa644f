-- ===== src/Peers/Sync/Added.antt =====
-- What the loops of `syncNodes` leave in a node's maps.
use mathlib.Core.List.{append-nil, append_assoc}
use decentralized_cloud.Base.{
  maybe, ◌++◌, ◌≡◌, refl, ◌∙◌, sym, ap, some, [], ◌∷◌, Text, text_eq, arith, map,
}
use decentralized_cloud.Base.Dict.{find, find-insert}
use decentralized_cloud.Peers.{
  Peers, BlockChainNode, NodesMap, add_master, add_verifier, add_storage,
}

-- Every node of a map added.
abbrev pub add_all : (Text → BlockChainNode → Peers → Peers) → NodesMap → Peers → Peers
add_all add [] p = p
add_all add ((key, n) ∷ nodes) p = add_all add nodes (add key n p)

-- What the three loops do to a node's own maps.
masters_added :
    (k : Text) (m : NodesMap) (q : Peers)
    → let q' = add_all add_master m q in
      (find k q'.master_nodes ≡ maybe (find k q.master_nodes) (find k m) some)
      × (q'.verifier_nodes ≡ q.verifier_nodes)
      × (q'.storage_nodes ≡ q.storage_nodes)
      × (q'.verifier_keys ≡ q.verifier_keys)
      × (q'.storage_keys ≡ q.storage_keys)
unfolding add_master find
masters_added k [] q = (ground arith, refl, refl, refl, refl)
masters_added k ((key, n) ∷ m) q =
    let (found, nodes, others, keys, other_keys) = masters_added k m (add_master key n q) in
    (ground (arith, found, find-insert key k n q.master_nodes), nodes, others, keys, other_keys)

verifiers_added :
    (k : Text) (m : NodesMap) (q : Peers)
    → let q' = add_all add_verifier m q in
      (find k q'.verifier_nodes ≡ maybe (find k q.verifier_nodes) (find k m) some)
      × (q'.master_nodes ≡ q.master_nodes)
      × (q'.storage_nodes ≡ q.storage_nodes)
      × (q'.verifier_keys ≡ q.verifier_keys ++ map (λ e. e.0) m)
      × (q'.storage_keys ≡ q.storage_keys)
unfolding add_verifier find
verifiers_added k [] q = (ground arith, refl, refl, sym (append-nil q.verifier_keys), refl)
verifiers_added k ((key, n) ∷ m) q =
    let (found, masters, stores, keys, others) = verifiers_added k m (add_verifier key n q) in
    (
      ground (arith, found, find-insert key k n q.verifier_nodes),
      masters,
      stores,
      keys ∙ append_assoc q.verifier_keys (key ∷ []) (map (λ e. e.0) m),
      others,
    )

stores_added :
    (k : Text) (m : NodesMap) (q : Peers)
    → let q' = add_all add_storage m q in
      (find k q'.storage_nodes ≡ maybe (find k q.storage_nodes) (find k m) some)
      × (q'.master_nodes ≡ q.master_nodes)
      × (q'.verifier_nodes ≡ q.verifier_nodes)
      × (q'.storage_keys ≡ q.storage_keys ++ map (λ e. e.0) m)
      × (q'.verifier_keys ≡ q.verifier_keys)
unfolding add_storage find
stores_added k [] q = (ground arith, refl, refl, sym (append-nil q.storage_keys), refl)
stores_added k ((key, n) ∷ m) q =
    let (found, masters, verifiers, keys, others) = stores_added k m (add_storage key n q) in
    (
      ground (arith, found, find-insert key k n q.storage_nodes),
      masters,
      verifiers,
      keys ∙ append_assoc q.storage_keys (key ∷ []) (map (λ e. e.0) m),
      others,
    )

-- A node's own maps `q` and the maps `m`, `v` and `s` together: a node of its own stays, the keys are
-- appended.
pub record Joined (m v s : NodesMap) (q q' : Peers) : Type 0 where
  pub masters : (k : Text) → find k q'.master_nodes ≡ maybe (find k q.master_nodes) (find k m) some
  pub verifiers :
      (k : Text) → find k q'.verifier_nodes ≡ maybe (find k q.verifier_nodes) (find k v) some
  pub stores : (k : Text) → find k q'.storage_nodes ≡ maybe (find k q.storage_nodes) (find k s) some
  pub verifier_keys : q'.verifier_keys ≡ q.verifier_keys ++ map (λ e. e.0) v
  pub storage_keys : q'.storage_keys ≡ q.storage_keys ++ map (λ e. e.0) s

pub add_all-Joined :
    (m v s : NodesMap) (q : Peers)
    → Joined m v s q (add_all add_storage s (add_all add_verifier v (add_all add_master m q)))
add_all-Joined m v s q =
    let q₁ = add_all add_master m q in
    let q₂ = add_all add_verifier v q₁ in
    record {
      masters = λ k.
          ap (find k) ((stores_added k s q₂).1)
          ∙ ap (find k) ((verifiers_added k v q₁).1)
          ∙ (masters_added k m q).0;
      verifiers = λ k.
          ap (find k) ((stores_added k s q₂).2)
          ∙ (verifiers_added k v q₁).0
          ∙ ap (λ nodes. maybe (find k nodes) (find k v) some) ((masters_added k m q).1);
      stores = λ k.
          (stores_added k s q₂).0
          ∙ ap (λ nodes. maybe (find k nodes) (find k s) some)
              ((verifiers_added k v q₁).2 ∙ (masters_added k m q).2);
      verifier_keys =
          (stores_added [] s q₂).4
          ∙ (verifiers_added [] v q₁).3
          ∙ ap (λ keys. keys ++ map (λ e. e.0) v) ((masters_added [] m q).3);
      storage_keys =
          (stores_added [] s q₂).3
          ∙ ap (λ keys. keys ++ map (λ e. e.0) s)
              ((verifiers_added [] v q₁).4 ∙ (masters_added [] m q).4);
    }
