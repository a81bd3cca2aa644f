-- ===== src/Storage/World.antt =====
-- What surrounds a call of StorageNode/StorageNode.cpp: the IPFS daemon behind `ipfs::Client`, the
-- distributed table behind `dhtGet` and `dhtPut`, and the messages that leave the node.
use decentralized_cloud.Base.{
  ℕ, ◌+◌, Bool, true, false, Option, none, some, List, [], ◌∷◌, ◌++◌, Text, codes, text_eq, ◌==◌,
  if◌then◌else◌, is_empty,
}
use decentralized_cloud.Base.Dict.{Dict, insert}
use decentralized_cloud.Json.{JsonObject, str}
use decentralized_cloud.Message.{CommandType, exception, Effect, gossip, ws_send}

-- A block as a JSON object: its number, the arrays of its transactions and of its verifications, and
-- its other members.
pub record BlockJson : Type 0 where
  pub number : ℕ
  pub data_array : List JsonObject
  pub verifications : List JsonObject
  pub others : JsonObject

-- Third-party code. `none` is an exception of the client, or a parse error.
pub record Env : Type 1 where
  -- the objects of the IPFS daemon; `ObjectPut` with its data and its links (name and hash),
  -- `ObjectData`, `ObjectLinks`, `ObjectPatchAddLink(source, name, target)`, `ObjectPatchRmLink`
  pub Objects : Type 0
  pub object_put : Objects → Text → List (Text × Text) → Option (Objects × Text)
  pub object_data : Objects → Text → Option Text
  pub object_links : Objects → Text → Option (List (Text × Text))
  pub object_patch_add_link : Objects → Text → Text → Text → Option (Objects × Text)
  pub object_patch_rm_link : Objects → Text → Text → Option (Objects × Text)
  -- the distributed table: the last value under a key, or nothing; a permanent put
  pub Table : Type 0
  pub get : Table → Text → Text
  pub put : Table → Text → Text → Table
  pub dump : JsonObject → Text
  -- the object of a text, where null is an object without members; `is_json`, whether `json::parse` takes
  -- the text, which is a value of another kind where it does and no object is there
  pub parse : Text → Option JsonObject
  pub is_json : Text → Bool
  pub dump_array : List JsonObject → Text
  -- `std::sort` by the member of a name, and `operator<` of the objects
  pub sort_documents : Text → List JsonObject → List JsonObject
  pub less_document : JsonObject → JsonObject → Bool
  pub dump_block : BlockJson → Text
  pub parse_block : Text → Option BlockJson
  pub base64_encode : Text → Text
  pub base64_decode : Text → Text
  -- whether `WebSocketServer::getDataFromKey` finds the client; it throws if not
  pub connected : Text → Bool
  -- the GUIDs that `getGUID(36)` draws, one after the other
  pub guid : ℕ → Text

-- The first link of a name counts.
unfoldable pub edges_from : Dict Text Text → List (Text × Text) → Dict Text Text
unfolding insert
edges_from edges [] = edges
edges_from edges ((name, hash) ∷ links) = edges_from (insert name hash edges) links

-- Only an exception goes to the client as `error`, and only a named object has its `id`.
unfoldable pub answer : Bool → Text → Text → Text → JsonObject
answer failed txid object_id val =
    (codes "txid", str txid)
    ∷ ((if failed then codes "error" else codes "data"), str val)
    ∷ (if is_empty object_id then [] else (codes "id", str object_id) ∷ [])

abbrev is_exception : CommandType → Bool
is_exception exception = true
is_exception c = false

module _ (env : Env) where
  pub record World : Type 0 where
    pub objects : env.Objects
    pub table : env.Table
    pub drawn : ℕ
    -- the messages that left the node, the oldest first
    pub sent : List Effect

  -- The end of a call: its result, or an exception, with the world that it leaves.
  pub data Result {ℓ} (A : Type ℓ) : Type ℓ where
    returned : A → World → Result A
    thrown : World → Result A

  abbrev pub Action {ℓ} : Type ℓ → Type ℓ
  Action A = World → Result A

module _ {env : Env} where
  -- The world after a call, whether or not it threw, and the result, with a default.
  abbrev pub world_of {ℓ} : {A : Type ℓ} → Result env A → World env
  world_of (returned a w) = w
  world_of (thrown w) = w

  abbrev pub result_of {ℓ} : {A : Type ℓ} → A → Result env A → A
  result_of default (returned a w) = a
  result_of default (thrown w) = default

  infixl 5 ◌>>=◌
  abbrev pub after_result {ℓ κ} :
      {A : Type ℓ} {B : Type κ} → Result env A → (A → Action env B) → Result env B
  after_result (returned a w) f = f a w
  after_result (thrown w) f = thrown w

  abbrev pub ◌>>=◌ {ℓ κ} :
      {A : Type ℓ} {B : Type κ} → Action env A → (A → Action env B) → Action env B
  (m >>= f) w = after_result (m w) f

  infixl 5 ◌>>◌
  abbrev pub ◌>>◌ {ℓ κ} : {A : Type ℓ} {B : Type κ} → Action env A → Action env B → Action env B
  m >> n = m >>= (λ result. n)

  abbrev pub give {ℓ} : {A : Type ℓ} → A → Action env A
  give a w = returned a w

  abbrev pub throw {ℓ} : {A : Type ℓ} → Action env A
  throw w = thrown w

  abbrev pub caught_result {ℓ} : {A : Type ℓ} → A → Result env A → Result env A
  caught_result a (returned b w) = returned b w
  caught_result a (thrown w) = returned a w

  -- A block whose exception is caught, with what it gives then.
  abbrev pub caught {ℓ} : {A : Type ℓ} → A → Action env A → Action env A
  caught a m w = caught_result a (m w)

  abbrev pub or_throw {ℓ} : {A : Type ℓ} → Option A → Action env A
  or_throw none = throw
  or_throw (some a) = give a

  -- A call of the client: the changed objects and the hash, or the exception.
  abbrev pub client_result : Option (env.Objects × Text) → Action env Text
  client_result none w = thrown w
  client_result (some (objects, hash)) w = returned hash (record w { objects = objects })

  abbrev pub client_call : (env.Objects → Option (env.Objects × Text)) → Action env Text
  client_call call w = client_result (call w.objects) w

  unfoldable pub dht_get : Text → Action env Text
  dht_get key w = returned (env.get w.table key) w

  unfoldable pub dht_put : Text → Text → Action env (Unit {0})
  dht_put key value w = returned tt (record w { table = env.put w.table key value })

  unfoldable pub get_guid : Action env Text
  get_guid w = returned (env.guid w.drawn) (record w { drawn = w.drawn + 1 })

  unfoldable pub emit : Effect → Action env (Unit {0})
  emit e w = returned tt (record w { sent = w.sent ++ e ∷ [] })

  unfoldable pub add_object : Text → Action env Text
  add_object text = caught [] (client_call (λ objects. env.object_put objects text []))

  unfoldable pub add_object_and_link : Text → Text → Text → Action env Text
  add_object_and_link text child link =
      client_call (λ objects. env.object_put objects text ((link, child) ∷ []))

  unfoldable pub add_link : Text → Text → Text → Action env Text
  add_link source name target =
      client_call (λ objects. env.object_patch_add_link objects source name target)

  unfoldable pub rm_link : Text → Text → Action env Text
  rm_link source name = client_call (λ objects. env.object_patch_rm_link objects source name)

  unfoldable pub fetch_object : Text → Action env Text
  fetch_object hash = caught [] (λ w. or_throw (env.object_data w.objects hash) w)

  unfoldable pub get_edge_names_of : Text → Action env (Dict Text Text)
  unfolding edges_from
  get_edge_names_of hash =
      caught []
        (λ w. (do links ← or_throw (env.object_links w.objects hash); give (edges_from [] links)) w)

  -- `send`
  unfoldable pub send : Text → Text → CommandType → Text → Text → Text → Action env (Unit {0})
  unfolding emit answer
  send source channel cmd txid object_id val =
      if source == codes "1"
      then (if env.connected channel
          then emit (ws_send channel (answer (is_exception cmd) txid object_id val))
          else throw)
      else emit (
          gossip channel cmd
            ((codes "txid", txid) ∷ (codes "id", object_id) ∷ (codes "data", val) ∷ []))
