-- ===== src/Peers/Sync/Laws.antt =====
-- What the exchange of nodes relies on of the library for JSON.
use mathlib.Core.List.{Permᴰ}
use decentralized_cloud.Base.{
  ◌<◌, ◌≡◌, refl, sym, subst, Option, none, some, List, [], ◌∷◌, Text, text_eq, All, map,
}
use decentralized_cloud.Base.Dict.{Dict, find}
use decentralized_cloud.Json.{JsonObject, JsonValue, str, num}
use decentralized_cloud.Peers.{NodesMap}

-- No key stands in a map twice.
abbrev pub DistinctKeys {ℓ} : {V : Type ℓ} → Dict Text V → Type ℓ
DistinctKeys [] = Unit
DistinctKeys ((key, v) ∷ m) = (find key m ≡ none) × DistinctKeys m

module _ (Utf8 : Text → Type 0) where
  abbrev pub Utf8Value : JsonValue → Type 0
  Utf8Value (str text) = Utf8 text
  Utf8Value (num n) = Unit {0}

  abbrev pub Utf8Object : JsonObject → Type 0
  Utf8Object = All (λ m. Utf8 m.0 × Utf8Value m.1)

  abbrev pub Utf8Nodes : NodesMap → Type 0
  Utf8Nodes = All (λ m. Utf8 m.0 × Utf8 m.1.public_key × Utf8 m.1.uri)

  -- What is read of the text of an object: its members, in an order of the library.
  pub record Reads (parse : Text → Option JsonObject) (text : Text) (j : JsonObject) : Type 0 where
    pub object : JsonObject
    pub parsed : parse text ≡ some object
    pub order : Permᴰ object j
    pub members : (key : Text) → find key object ≡ find key j

  -- What the program relies on of `dump` and `parse`: plain characters are UTF-8, an object of such texts
  -- has one too, and it is read back.
  pub record JsonLaws (dump : JsonObject → Text) (parse : Text → Option JsonObject) : Type 0 where
    pub ascii : (text : Text) → All (λ c. c < 128) text → Utf8 text
    pub dumped : (j : JsonObject) → Utf8Object j → Utf8 (dump j)
    pub read : (j : JsonObject) → Utf8Object j → DistinctKeys j → Reads parse (dump j) j

-- The entries whose items stand in another order.
pub unmapped :
    {A B : Type 0} (f : A → B) {ys zs : List B}
    → Permᴰ ys zs
    → (xs : List A) → zs ≡ map f xs
    → (xs' : List A) × Permᴰ xs' xs × (ys ≡ map f xs')
unmapped f Permᴰ.nil [] e = ([], Permᴰ.nil, refl)
unmapped f Permᴰ.nil (x ∷ xs) e = cc
unmapped f (Permᴰ.cons same p) [] e = cc
unmapped f (Permᴰ.cons {a} {b} same p) (x ∷ xs) e =
    let (xs', order, rest) = unmapped f p xs cc in
    let first : a ≡ f x = cc in (x ∷ xs', Permᴰ.cons refl order, cc)
unmapped f (Permᴰ.swap one other) [] e = cc
unmapped f (Permᴰ.swap one other) (x ∷ []) e = cc
unmapped f (Permᴰ.swap one other) (x ∷ y ∷ xs) e = (y ∷ x ∷ xs, Permᴰ.swap refl refl, cc)
unmapped f (Permᴰ.trans p q) xs e =
    let (ys, order, between) = unmapped f q xs e in
    let (xs', order', same) = unmapped f p ys between in (xs', Permᴰ.trans order' order, same)

pub All-order : {A : Type 0} (P : A → Type 0) {xs ys : List A} → Permᴰ xs ys → All P ys → All P xs
All-order P Permᴰ.nil all = tt
All-order P (Permᴰ.cons same p) (first, all) = (subst P (sym same) first, All-order P p all)
All-order P (Permᴰ.swap one other) (first, (second, all)) =
    (subst P (sym one) second, (subst P (sym other) first, all))
All-order P (Permᴰ.trans p q) all = All-order P p (All-order P q all)
