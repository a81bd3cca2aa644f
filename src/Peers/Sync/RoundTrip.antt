-- ===== src/Peers/Sync/RoundTrip.antt =====
-- What a new Master Node knows after another has told it of its nodes.
use mathlib.Core.List.{Permᴰ}
use mathlib.Core.Option.{bind}
use decentralized_cloud.Base.{
  ◌≡◌, refl, ◌∙◌, sym, ap, Option, none, some, [], ◌∷◌, Text, text_eq, codes, arith, map,
}
use decentralized_cloud.Base.Class.{text_beq}
use decentralized_cloud.Base.Dict.{find}
use decentralized_cloud.Base.Outcome.{ok}
use decentralized_cloud.Json.{JsonObject, JsonValue, str, num, get_text, get_number}
use decentralized_cloud.Peers.{
  Peers, BlockChainNode, NodesMap, add_master, add_verifier, add_storage,
}
use decentralized_cloud.Peers.Sync.{
  to_json_string, node_texts, build_sync_nodes_input, read_node, read_item, sync_items, read_maps,
  sync_nodes,
}
use decentralized_cloud.Peers.Sync.Laws.{
  DistinctKeys, Utf8Object, Utf8Nodes, JsonLaws, unmapped, All-order,
}
use decentralized_cloud.Peers.Sync.Added.{add_all, Joined, add_all-Joined}

module _ (dump : JsonObject → Text) where
  item : Text × BlockChainNode → Text × JsonValue
  item (key, n) = (key, str (to_json_string dump n))

  node_texts-map : (nodes : NodesMap) → node_texts dump nodes ≡ map item nodes
  unfolding node_texts item
  node_texts-map [] = refl
  node_texts-map ((key, n) ∷ nodes) =
      ap (λ j. (key, str (to_json_string dump n)) ∷ j) (node_texts-map nodes)

  find-node_texts :
      (key : Text) (nodes : NodesMap)
      → find key nodes ≡ none
      → find key (node_texts dump nodes) ≡ none
  unfolding find node_texts
  find-node_texts key [] e = refl
  find-node_texts key ((k, n) ∷ nodes) e = ground (arith, e, find-node_texts key nodes)

  node_texts-DistinctKeys :
      (nodes : NodesMap) → DistinctKeys nodes → DistinctKeys (node_texts dump nodes)
  unfolding node_texts
  node_texts-DistinctKeys [] d = tt
  node_texts-DistinctKeys ((key, n) ∷ nodes) (new, d) =
      (find-node_texts key nodes new, node_texts-DistinctKeys nodes d)

module _ (Utf8 : Text → Type 0) (dump : JsonObject → Text) (parse : Text → Option JsonObject)
    (laws : JsonLaws Utf8 dump parse) where
  abbrev node_object : BlockChainNode → JsonObject
  node_object n =
      (codes "k", str n.public_key) ∷ (codes "u", str n.uri) ∷ (codes "t", num n.type) ∷ []

  node_object-Utf8 :
      (n : BlockChainNode) → Utf8 n.public_key → Utf8 n.uri → Utf8Object Utf8 (node_object n)
  node_object-Utf8 n key uri = (
    (laws.ascii (codes "k") (omega arith, tt), key),
    (
      (laws.ascii (codes "u") (omega arith, tt), uri),
      ((laws.ascii (codes "t") (omega arith, tt), tt), tt),
    ),
  )

  node_object-DistinctKeys : (n : BlockChainNode) → DistinctKeys (node_object n)
  unfolding find text_beq
  node_object-DistinctKeys n = (refl, (refl, (refl, tt)))

  read_item-to_json_string :
      (n : BlockChainNode)
      → Utf8 n.public_key
      → Utf8 n.uri
      → read_item parse (str (to_json_string dump n)) ≡ some n
  unfolding read_item read_node to_json_string bind get_text get_number find text_beq
  read_item-to_json_string n key uri =
      let r = laws.read (node_object n) (node_object-Utf8 n key uri) (node_object-DistinctKeys n) in
      rw (r.parsed, bind)
        (rw (r.members (codes "t"), r.members (codes "k"), r.members (codes "u")) refl)

  node_texts-Utf8 :
      (nodes : NodesMap) → Utf8Nodes Utf8 nodes → Utf8Object Utf8 (node_texts dump nodes)
  unfolding node_texts to_json_string
  node_texts-Utf8 [] all = tt
  node_texts-Utf8 ((key, n) ∷ nodes) ((k, public, uri), all) =
      ((k, laws.dumped (node_object n) (node_object-Utf8 n public uri)), node_texts-Utf8 nodes all)

  sync_items-node_texts :
      (add : Text → BlockChainNode → Peers → Peers) (nodes : NodesMap) (p : Peers)
      → Utf8Nodes Utf8 nodes
      → sync_items parse add (node_texts dump nodes) p ≡ ok (add_all add nodes p)
  unfolding sync_items node_texts
  sync_items-node_texts add [] p all = refl
  sync_items-node_texts add ((key, n) ∷ nodes) p ((k, public, uri), all) = ground (
    arith,
    read_item-to_json_string n public uri,
    sync_items-node_texts add nodes (add key n p) all,
  )

  -- A map as it comes out of its text: its nodes in another order.
  record Taken (nodes : NodesMap) (object : JsonObject) : Type 0 where
    order : NodesMap
    same : Permᴰ order nodes
    items : object ≡ node_texts dump order
    clean : Utf8Nodes Utf8 order

  taken :
      (nodes : NodesMap) (u : Utf8Nodes Utf8 nodes) (d : DistinctKeys nodes)
      → Taken nodes
          (laws.read
            (node_texts dump nodes)
            (node_texts-Utf8 nodes u)
            (node_texts-DistinctKeys dump nodes d)).object
  taken nodes u d =
      let r =
        laws.read (node_texts dump nodes) (node_texts-Utf8 nodes u)
          (node_texts-DistinctKeys dump nodes d) in
      let (order, same, items) = unmapped (item dump) r.order nodes (node_texts-map dump nodes) in
      record {
        order = order;
        same = same;
        items = items ∙ sym (node_texts-map dump order);
        clean = All-order _ same u;
      }

  abbrev maps_object : Peers → JsonObject
  maps_object p =
      (codes "m", str (dump (node_texts dump p.master_nodes)))
      ∷ (codes "v", str (dump (node_texts dump p.verifier_nodes)))
      ∷ (codes "s", str (dump (node_texts dump p.storage_nodes)))
      ∷ []

  module _ (p : Peers) (masters : Utf8Nodes Utf8 p.master_nodes)
      (verifiers : Utf8Nodes Utf8 p.verifier_nodes) (stores : Utf8Nodes Utf8 p.storage_nodes)
      (masters_once : DistinctKeys p.master_nodes) (verifiers_once : DistinctKeys p.verifier_nodes)
      (stores_once : DistinctKeys p.storage_nodes) where
    maps_object-Utf8 : Utf8Object Utf8 (maps_object p)
    maps_object-Utf8 = (
      (
        laws.ascii (codes "m") (omega arith, tt),
        laws.dumped _ (node_texts-Utf8 p.master_nodes masters),
      ),
      (
        (
          laws.ascii (codes "v") (omega arith, tt),
          laws.dumped _ (node_texts-Utf8 p.verifier_nodes verifiers),
        ),
        (
          (
            laws.ascii (codes "s") (omega arith, tt),
            laws.dumped _ (node_texts-Utf8 p.storage_nodes stores),
          ),
          tt,
        ),
      ),
    )

    maps_object-DistinctKeys : DistinctKeys (maps_object p)
    unfolding find text_beq
    maps_object-DistinctKeys = (refl, (refl, (refl, tt)))

    read_maps-build_sync_nodes_input :
        (m : Taken p.master_nodes
          (laws.read
            (node_texts dump p.master_nodes)
            (node_texts-Utf8 p.master_nodes masters)
            (node_texts-DistinctKeys dump p.master_nodes masters_once)).object)
        (v : Taken p.verifier_nodes
          (laws.read
            (node_texts dump p.verifier_nodes)
            (node_texts-Utf8 p.verifier_nodes verifiers)
            (node_texts-DistinctKeys dump p.verifier_nodes verifiers_once)).object)
        (s : Taken p.storage_nodes
          (laws.read
            (node_texts dump p.storage_nodes)
            (node_texts-Utf8 p.storage_nodes stores)
            (node_texts-DistinctKeys dump p.storage_nodes stores_once)).object)
        → read_maps parse (build_sync_nodes_input dump p)
          ≡ some (node_texts dump m.order, node_texts dump v.order, node_texts dump s.order)
    unfolding read_maps build_sync_nodes_input bind get_text find text_beq
    read_maps-build_sync_nodes_input m v s =
        let r = laws.read (maps_object p) maps_object-Utf8 maps_object-DistinctKeys in
        let rm =
          laws.read (node_texts dump p.master_nodes) (node_texts-Utf8 p.master_nodes masters)
            (node_texts-DistinctKeys dump p.master_nodes masters_once) in
        let rv =
          laws.read (node_texts dump p.verifier_nodes) (node_texts-Utf8 p.verifier_nodes verifiers)
            (node_texts-DistinctKeys dump p.verifier_nodes verifiers_once) in
        let rs =
          laws.read (node_texts dump p.storage_nodes) (node_texts-Utf8 p.storage_nodes stores)
            (node_texts-DistinctKeys dump p.storage_nodes stores_once) in
        rw (r.parsed, bind)
          (rw (r.members (codes "m"), r.members (codes "v"), r.members (codes "s"))
            (rw (rm.parsed, rv.parsed, rs.parsed, m.items, v.items, s.items) refl))

    -- A node that takes over what another sends of its nodes reads all of it: `m`, `v` and `s` are the three
    -- maps of the sender, each in an order of the library. Under every key it then has the node it had, and
    -- else the sender's; the keys of verifiers and storage nodes are appended, also where they are known. No
    -- key stands twice in a map of the sender, and the texts of its nodes are UTF-8.
    pub sync_nodes-build_sync_nodes_input :
        (q : Peers)
        → (m : NodesMap) × (v : NodesMap) × (s : NodesMap) × (q' : Peers) × Permᴰ m p.master_nodes
          × Permᴰ v p.verifier_nodes
          × Permᴰ s p.storage_nodes
          × (sync_nodes parse (build_sync_nodes_input dump p) q ≡ ok q')
          × Joined m v s q q'
    unfolding sync_nodes
    sync_nodes-build_sync_nodes_input q =
        let m = taken p.master_nodes masters masters_once in
        let v = taken p.verifier_nodes verifiers verifiers_once in
        let s = taken p.storage_nodes stores stores_once in
        let q₁ = add_all add_master m.order q in
        let q₂ = add_all add_verifier v.order q₁ in
        (
          m.order,
          v.order,
          s.order,
          add_all add_storage s.order q₂,
          m.same,
          v.same,
          s.same,
          ground (
            arith,
            read_maps-build_sync_nodes_input m v s,
            sync_items-node_texts add_master m.order q m.clean,
            sync_items-node_texts add_verifier v.order q₁ v.clean,
            sync_items-node_texts add_storage s.order q₂ s.clean,
          ),
          add_all-Joined m.order v.order s.order q,
        )
