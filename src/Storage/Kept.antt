-- ===== src/Storage/Kept.antt =====
-- What the calls of a Storage Node leave as it is: a text stored under a key of the table, by the laws
-- of the table and of the IPFS objects.
use decentralized_cloud.Base.{
  ◌≡◌, refl, ◌∙◌, Bool, true, false, Option, none, some, List, [], ◌∷◌, Text, codes, text_eq, ◌==◌,
  if◌then◌else◌, is_empty,
}
use decentralized_cloud.Message.{CommandType, Effect}
use decentralized_cloud.Storage.World.{
  Env, World, Result, returned, thrown, Action, ◌>>=◌, give, or_throw, after_result, world_of,
  client_call, client_result, caught, caught_result, dht_get, dht_put, get_guid, emit, add_object,
  add_object_and_link, add_link, rm_link, send,
}

-- What the node relies on. The table answers with the value that was put last under the key; an object
-- has the data it was made with, under a hash that is not empty, and stays.
pub record Laws (env : Env) : Type 0 where
  pub get_put :
      (t : env.Table) (k v j : Text)
      → env.get (env.put t k v) j ≡ (if k == j then v else env.get t j)
  pub data_put :
      (o o' : env.Objects) (d h : Text) (links : List (Text × Text))
      → env.object_put o d links ≡ some (o', h)
      → env.object_data o' h ≡ some d
  pub hash_put :
      (o o' : env.Objects) (d h : Text) (links : List (Text × Text))
      → env.object_put o d links ≡ some (o', h)
      → is_empty h ≡ false
  pub put_keeps :
      (o o' : env.Objects) (d h g x : Text) (links : List (Text × Text))
      → env.object_put o d links ≡ some (o', h)
      → env.object_data o g ≡ some x
      → env.object_data o' g ≡ some x
  pub add_link_keeps :
      (o o' : env.Objects) (source name target h g x : Text)
      → env.object_patch_add_link o source name target ≡ some (o', h)
      → env.object_data o g ≡ some x
      → env.object_data o' g ≡ some x
  pub rm_link_keeps :
      (o o' : env.Objects) (source name h g x : Text)
      → env.object_patch_rm_link o source name ≡ some (o', h)
      → env.object_data o g ≡ some x
      → env.object_data o' g ≡ some x

module _ {env : Env} (laws : Laws env) (key body : Text) where
  -- The object that the table names under the key has the text.
  pub record Stored (w : World env) : Type 0 where
    pub hash : Text
    pub named : env.get w.table key ≡ hash
    pub some_hash : is_empty hash ≡ false
    pub has_body : env.object_data w.objects hash ≡ some body

  pub record Keeps {ℓ} {A : Type ℓ} (m : Action env A) : Type 0 where
    pub keeps : (w : World env) → Stored w → Stored (world_of (m w))

  pub after_result-Keeps {ℓ κ} :
      {A : Type ℓ} {B : Type κ} (r : Result env A) (f : A → Action env B)
      → ((a : A) → Keeps (f a))
      → Stored (world_of r)
      → Stored (world_of (after_result r f))
  after_result-Keeps (returned a w) f h s = (h a).keeps w s
  after_result-Keeps (thrown w) f h s = s

  pub bind-Keeps {ℓ κ} :
      {A : Type ℓ} {B : Type κ} (m : Action env A) (f : A → Action env B)
      → Keeps m
      → ((a : A) → Keeps (f a))
      → Keeps (m >>= f)
  bind-Keeps m f h k = record { keeps = λ w s. after_result-Keeps (m w) f k (h.keeps w s) }

  pub give-Keeps {ℓ} : {A : Type ℓ} (a : A) → Keeps (give a)
  give-Keeps a = record { keeps = λ w s. s }

  pub or_throw-Keeps {ℓ} : {A : Type ℓ} (o : Option A) → Keeps (or_throw o)
  or_throw-Keeps none = record { keeps = λ w s. s }
  or_throw-Keeps (some a) = record { keeps = λ w s. s }

  pub if-Keeps {ℓ} :
      {A : Type ℓ} (b : Bool) (m n : Action env A) → Keeps m → Keeps n → Keeps (if b then m else n)
  if-Keeps true m n h k = h
  if-Keeps false m n h k = k

  pub dht_get-Keeps : (k : Text) → Keeps (dht_get k)
  unfolding dht_get
  dht_get-Keeps k = record { keeps = λ w s. s }

  pub dht_put-Keeps : (k v : Text) → (k == key) ≡ false → Keeps (dht_put k v)
  unfolding dht_put
  dht_put-Keeps k v other = record {
    keeps = λ w s. record {
      hash = s.hash;
      named = laws.get_put w.table k v key ∙ rw other s.named;
      some_hash = s.some_hash;
      has_body = s.has_body;
    };
  }

  pub emit-Keeps : (e : Effect) → Keeps (emit e)
  unfolding emit
  emit-Keeps e = record {
    keeps = λ w s. record {
      hash = s.hash;
      named = s.named;
      some_hash = s.some_hash;
      has_body = s.has_body;
    };
  }

  get_guid-Keeps : Keeps get_guid
  unfolding get_guid
  get_guid-Keeps = record {
    keeps = λ w s. record {
      hash = s.hash;
      named = s.named;
      some_hash = s.some_hash;
      has_body = s.has_body;
    };
  }

  caught_result-Keeps {ℓ} :
      {A : Type ℓ} (a : A) (r : Result env A)
      → Stored (world_of r)
      → Stored (world_of (caught_result a r))
  caught_result-Keeps a (returned b w) s = s
  caught_result-Keeps a (thrown w) s = s

  pub caught-Keeps {ℓ} : {A : Type ℓ} (a : A) (m : Action env A) → Keeps m → Keeps (caught a m)
  caught-Keeps a m h = record { keeps = λ w s. caught_result-Keeps a (m w) (h.keeps w s) }

  client_result-Keeps :
      (o : Option (env.Objects × Text)) (w : World env)
      → ((o' : env.Objects) (h : Text) (s : Stored w)
          → o ≡ some (o', h)
          → env.object_data o' s.hash ≡ some body)
      → Stored w
      → Stored (world_of (client_result o w))
  client_result-Keeps none w kept s = s
  client_result-Keeps (some (o', h)) w kept s = record {
    hash = s.hash;
    named = s.named;
    some_hash = s.some_hash;
    has_body = kept o' h s refl;
  }

  add_object-Keeps : (d : Text) → Keeps (add_object d)
  unfolding add_object
  add_object-Keeps d = caught-Keeps [] (client_call (λ o. env.object_put o d [])) (record {
    keeps = λ w.
        client_result-Keeps (env.object_put w.objects d []) w
          (λ o' h s e. laws.put_keeps w.objects o' d h s.hash body [] e s.has_body);
  })

  pub add_object_and_link-Keeps : (d child link : Text) → Keeps (add_object_and_link d child link)
  unfolding add_object_and_link
  add_object_and_link-Keeps d child link = record {
    keeps = λ w.
        client_result-Keeps (env.object_put w.objects d ((link, child) ∷ [])) w (λ o' h s e.
          laws.put_keeps w.objects o' d h s.hash body ((link, child) ∷ []) e s.has_body);
  }

  pub add_link-Keeps : (source name target : Text) → Keeps (add_link source name target)
  unfolding add_link
  add_link-Keeps source name target = record {
    keeps = λ w.
        client_result-Keeps (env.object_patch_add_link w.objects source name target) w (λ o' h s e.
          laws.add_link_keeps w.objects o' source name target h s.hash body e s.has_body);
  }

  rm_link-Keeps : (source name : Text) → Keeps (rm_link source name)
  unfolding rm_link
  rm_link-Keeps source name = record {
    keeps = λ w.
        client_result-Keeps (env.object_patch_rm_link w.objects source name) w
          (λ o' h s e. laws.rm_link_keeps w.objects o' source name h s.hash body e s.has_body);
  }

  pub send-Keeps :
      (source channel : Text) (cmd : CommandType) (txid object_id val : Text)
      → Keeps (send source channel cmd txid object_id val)
  unfolding send
  send-Keeps source channel cmd txid object_id val =
      if-Keeps (source == codes "1") _ _
        (if-Keeps (env.connected channel) _ _ (emit-Keeps _) (record { keeps = λ w s. s }))
        (emit-Keeps _)
