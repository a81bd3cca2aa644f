-- ===== src/Storage/Documents/Invalid.antt =====
-- A document whose text is no JSON object (StorageNode/StorageNode.cpp, `createOrDeleteDocument`).
use decentralized_cloud.Base.{
  ◌+◌, ◌≡◌, refl, ap, ◌∙◌, false, none, some, [], ◌∷◌, ◌++◌, Text, codes, text_eq, ◌==◌, is_empty,
  Option-cases, Bool-cases, if◌then◌else◌, inl, inr,
}
use decentralized_cloud.Message.{CommandType, exception, state_change, gossip}
use decentralized_cloud.Base.Dict.{Dict, find}
use decentralized_cloud.Storage.World.{
  Result, Env, World, returned, thrown, ◌>>=◌, ◌>>◌, give, after_result, dht_get, dht_put, get_guid,
  emit, edges_from, get_edge_names_of, send,
}
use decentralized_cloud.Storage.Trees.{data_tree, joined, object_key, root_key}
use decentralized_cloud.Storage.Trees.Fetched.{add_object-some}
use decentralized_cloud.Storage.Documents.{
  create, name_document, store_document, update_indexes, index_document, members_of,
  create_or_delete_document,
}

abbrev pub invalid_structure : Text
invalid_structure =
    codes
      "Issue while parsing document body. Please ensure to pass the document in proper json format"

module _ {env : Env} where
  -- Reading links changes nothing and never throws.
  get_edge_names_of-same :
      (hash : Text) (w : World env)
      → (edges : Dict Text Text) × (get_edge_names_of hash w ≡ returned edges w)
  unfolding get_edge_names_of
  get_edge_names_of-same hash w = elim (Option-cases (env.object_links w.objects hash)) [
    | inl none_read ↦ ([], rw none_read refl)
    | inr (links, read) ↦ (edges_from [] links, rw read refl)
  ]

  -- What `send` adds for a node's request.
  abbrev sent_to_node : Text → CommandType → Text → Text → Text → World env → World env
  sent_to_node channel cmd txid id val w = record w {
    sent =
        w.sent
        ++ gossip channel cmd ((codes "txid", txid) ∷ (codes "id", id) ∷ (codes "data", val) ∷ [])
          ∷ [];
  }

  send-node :
      (source channel : Text) (cmd : CommandType) (txid id val : Text) (w : World env)
      → (source == codes "1") ≡ false
      → send source channel cmd txid id val w ≡ returned tt (sent_to_node channel cmd txid id val w)
  unfolding send emit
  send-node source channel cmd txid id val w other = rw other refl

  name_document-invalid :
      (source channel txid id text : Text) (w : World env)
      → (source == codes "1") ≡ false
      → env.parse text ≡ none
      → name_document create source channel txid id text w
        ≡ returned
            (env.guid w.drawn, text)
            (sent_to_node channel exception txid [] invalid_structure
              (record w { drawn = w.drawn + 1 }))
  unfolding name_document get_guid
  name_document-invalid source channel txid id text w other invalid = rw invalid (
      ap (λ r. after_result r (λ done. give (env.guid w.drawn, text)))
        (send-node source channel exception txid [] invalid_structure
          (record w { drawn = w.drawn + 1 }) other))

  store_document-new :
      (source channel txid tid entity id text : Text) (w : World env) (o : env.Objects)
      (hash : Text)
      → (source == codes "1") ≡ false
      → env.object_put w.objects text [] ≡ some (o, hash)
      → store_document create source channel txid tid entity id text w
        ≡ returned hash (
            sent_to_node channel state_change txid id hash (record w {
              objects = o;
              table = env.put w.table (object_key data_tree tid (joined entity id)) hash;
            }))
  unfolding store_document dht_put
  store_document-new source channel txid tid entity id text w o hash other put =
      ap
        (λ r. after_result r (λ h.
          dht_put (object_key data_tree tid (joined entity id)) h
          >> (send source channel state_change txid id h >> give h)))
        (add_object-some w text hash o put)
      ∙ ap (λ r. after_result r (λ done. give hash))
          (send-node source channel state_change txid id hash
            (record w {
              objects = o;
              table = env.put w.table (object_key data_tree tid (joined entity id)) hash;
            })
            other)

  update_indexes-empty :
      (tid entity id hash entity_root : Text) (a_b : Dict Text Text) (w : World env)
      → update_indexes create tid entity id hash [] a_b entity_root w ≡ returned tt w
  unfolding update_indexes find
  update_indexes-empty tid entity id hash entity_root [] w = refl
  update_indexes-empty tid entity id hash entity_root ((index, b_node) ∷ a_b) w =
      update_indexes-empty tid entity id hash entity_root a_b w

  -- How a call ends that reads the text once more and finds no index in it.
  abbrev pub ended : Text → World env → Result env (Unit {0})
  ended text w = if env.is_json text then returned tt w else thrown w

  index_document-invalid :
      (tid entity id text hash entity_root : Text) (w : World env)
      → env.parse text ≡ none
      → index_document create tid entity id text hash entity_root w ≡ ended text w
  unfolding index_document members_of
  index_document-invalid tid entity id text hash entity_root w invalid =
      let (edges, read) = get_edge_names_of-same entity_root w in
      ap
        (λ r. after_result r (λ a_b.
          members_of text
          >>= (λ input. update_indexes create tid entity id hash input a_b entity_root)))
        read
      ∙ elim (Bool-cases (env.is_json text)) [
        | inl value ↦
            rw (invalid, value, members_of)
              (update_indexes-empty tid entity id hash entity_root edges w)
        | inr wrong ↦ rw (invalid, wrong, members_of) refl
      ]

  -- A node asks for a new document whose text is no JSON object: it is sent the exception and then, as
  -- for a success, the id and the hash of the document; the text is put into the table under the new
  -- id, and no index of the entity is touched. The call ends with an exception if the text is no JSON at
  -- all, and normally if it is a JSON value of another kind. The entity has a root, and IPFS takes the
  -- object.
  pub create_or_delete_document-invalid :
      (w : World env) (source channel txid tid entity id text : Text) (o : env.Objects)
      (hash : Text)
      → (source == codes "1") ≡ false
      → is_empty (env.get w.table (root_key (object_key data_tree tid entity))) ≡ false
      → env.parse text ≡ none
      → env.object_put w.objects text [] ≡ some (o, hash)
      → create_or_delete_document source channel txid tid entity id text create w
        ≡ ended text (record {
          objects = o;
          table =
              env.put w.table (object_key data_tree tid (joined entity (env.guid w.drawn))) hash;
          drawn = w.drawn + 1;
          sent =
              w.sent
              ++ gossip channel exception
                  ((codes "txid", txid) ∷ (codes "id", []) ∷ (codes "data", invalid_structure) ∷ [])
                ∷ []
              ++ gossip channel state_change (
                  (codes "txid", txid) ∷ (codes "id", env.guid w.drawn) ∷ (codes "data", hash) ∷ [])
                ∷ [];
        })
  unfolding create_or_delete_document dht_get
  create_or_delete_document-invalid w source channel txid tid entity id text o hash other root
        invalid put =
      let entity_root = env.get w.table (root_key (object_key data_tree tid entity)) in
      rw root (
        ap
          (λ r. after_result r (λ named.
            store_document create source channel txid tid entity named.0 named.1
            >>= (λ h. index_document create tid entity named.0 named.1 h entity_root)))
          (name_document-invalid source channel txid id text w other invalid)
        ∙ ap
            (λ r.
              after_result r
                (λ h. index_document create tid entity (env.guid w.drawn) text h entity_root))
            (store_document-new source channel txid tid entity (env.guid w.drawn) text
              (sent_to_node channel exception txid [] invalid_structure
                (record w { drawn = w.drawn + 1 }))
              o hash other put)
        ∙ index_document-invalid tid entity (env.guid w.drawn) text hash entity_root _ invalid)
