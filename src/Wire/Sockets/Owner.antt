-- ===== src/Wire/Sockets/Owner.antt =====
-- Whose key it is: the entries of the connections of BlockChainCommon/webSocketServer.cpp.
use decentralized_cloud.Base.{
  ℕ, ◌≡◌, refl, sym, subst, ◌∙◌, ◌⊎◌, inl, inr, Bool, true, false, Option, none, some, List, [],
  ◌∷◌, Text, text_eq, ◌==◌, is_empty, codes, if◌then◌else◌, nat_beq, maybe, Bool-cases, arith,
}
use decentralized_cloud.Base.Class.{==_iff}
use decentralized_cloud.Base.Dict.{Dict, find, contains, insert, find-insert, find-erase_ne}
use decentralized_cloud.Message.{FieldValueMap}
use decentralized_cloud.Wire.{get_fields_and_values}
use decentralized_cloud.Wire.Inbox.{Inbox, Site, Fate, atoi_char}
use decentralized_cloud.Wire.Sockets.{
  get_key_from_hdl, add_connection, on_close, request_key, take_message, on_message,
}
use decentralized_cloud.Wire.Sockets.Keys.{
  Distinct, get_key_from_hdl-other, insert-Distinct, erase-Distinct,
}

-- What the server is called with.
pub data Event {κ} (H : Type κ) : Type κ where
  message : H → ℕ → Text → Event H
  close : H → Event H

module _ {κ} {H : Type κ} (same : H → H → Bool) (site : Site) where
  -- The connections after one call, and after a sequence of them.
  unfoldable react : Event H → Dict Text H × Inbox → Dict Text H × Inbox
  unfolding on_message on_close
  react (message hdl now text) (m, box) =
      let (m', fate, box') = on_message same site hdl now text m box in (m', box')
  react (close hdl) (m, box) = (on_close same hdl m, box)

  unfoldable pub react_all : List (Event H) → Dict Text H × Inbox → Dict Text H × Inbox
  unfolding react
  react_all [] state = state
  react_all (event ∷ events) state = react_all events (react event state)

-- The connection that an event comes from.
unfoldable pub handle_of {κ} : {H : Type κ} → Event H → H
handle_of (message hdl now text) = hdl
handle_of (close hdl) = hdl

-- None of the events comes from the connection `a`.
unfoldable pub Others {κ} : {H : Type κ} → (H → H → Bool) → H → List (Event H) → Type 0
unfolding handle_of
Others same a [] = Unit {0}
Others same a (event ∷ events) = (same a (handle_of event) ≡ false) × Others same a events

-- The connections `m'` are `m`, or `m` with a key for the connection.
abbrev Grown {κ} : {H : Type κ} → H → Dict Text H → Dict Text H → Type κ
Grown hdl m m' = (m' ≡ m) ⊎ ((key : Text) × (m' ≡ insert key hdl m))

-- What holds on either branch.
if_both {ℓ κ} :
    {A : Type ℓ} (P : A → Type κ) (b : Bool) {x y : A} → P x → P y → P (if b then x else y)
if_both P true p q = p
if_both P false p q = q

maybe_both {ℓ κ μ} :
    {A : Type ℓ} {B : Type κ} (P : B → Type μ) (o : Option A) {b : B} {f : A → B}
    → P b
    → ((a : A) → P (f a))
    → P (maybe o b f)
maybe_both P none p q = p
maybe_both P (some a) p q = q a

abbrev After {κ} : {H : Type κ} → H → Dict Text H → Dict Text H × Fate × Inbox → Type κ
After hdl m (m', fate, box) = Grown hdl m m'

request_key-Grown {κ} :
    {H : Type κ} (hdl : H) (fields : FieldValueMap) (m : Dict Text H) (box : Inbox)
    → Grown hdl m (request_key hdl fields m box).0
unfolding request_key add_connection
request_key-Grown hdl fields m box =
    maybe_both (After hdl m) (find (codes "k") fields) (inl refl)
      λ key. if_both (Grown hdl m) (contains key m) (inl refl) (inr (key, refl))

take_message-Grown {κ} :
    {H : Type κ} (same : H → H → Bool) (site : Site) (hdl : H) (now : ℕ) (text : Text)
    (m : Dict Text H) (box : Inbox)
    → Grown hdl m (take_message same site hdl now text m box).0
unfolding take_message
take_message-Grown same site hdl now text m box =
    if_both (After hdl m) (is_empty (get_key_from_hdl same hdl m)) (inl refl) (inl refl)

on_message-Grown {κ} :
    {H : Type κ} (same : H → H → Bool) (site : Site) (hdl : H) (now : ℕ) (text : Text)
    (m : Dict Text H) (box : Inbox)
    → Grown hdl m (on_message same site hdl now text m box).0
unfolding on_message
on_message-Grown same site hdl now text m box =
    maybe_both (After hdl m) (get_fields_and_values site.boost text) (inl refl) λ fields.
      if_both (After hdl m) (nat_beq (atoi_char (maybe (find (codes "c") fields) [] λ c. c)) 1)
        (request_key-Grown hdl fields m box) (take_message-Grown same site hdl now text m box)

-- The key `k` belongs to `a`.
unfoldable pub Owned {κ} : {H : Type κ} → Text → H → Dict Text H → Type κ
Owned k a m = Distinct m × (find k m ≡ some a)

insert-Owned {κ} :
    {H : Type κ} (k j : Text) (a h : H) (m : Dict Text H) → Owned k a m → Owned k a (insert j h m)
unfolding Owned
insert-Owned k j a h m (distinct, known) =
    (insert-Distinct j h m distinct, ground (arith, find-insert j k h m))

Grown-Owned {κ} :
    {H : Type κ} (k : Text) (a h : H) (m m' : Dict Text H)
    → Grown h m m'
    → Owned k a m
    → Owned k a m'
Grown-Owned k a h m m' (inl e) owned = subst (Owned k a) (sym e) owned
Grown-Owned k a h m m' (inr (key, e)) owned =
    subst (Owned k a) (sym e) (insert-Owned k key a h m owned)

on_close-Owned {κ} :
    {H : Type κ} (same : H → H → Bool) (k : Text) (a b : H) (m : Dict Text H)
    → is_empty k ≡ false
    → same a b ≡ false
    → Owned k a m
    → Owned k a (on_close same b m)
unfolding on_close Owned
on_close-Owned same k a b m filled apart (distinct, known) = (
  erase-Distinct (get_key_from_hdl same b m) m distinct,
  find-erase_ne (get_key_from_hdl same b m) k m
        (get_key_from_hdl-other same k a b m filled apart distinct known)
      ∙ known,
)

-- A connection that has two keys leaves one of them behind when it closes.
on_close-leaves {κ} :
    {H : Type κ} (same : H → H → Bool) (j k : Text) (a : H) (m : Dict Text H)
    → (j == k) ≡ false
    → find j m ≡ some a
    → find k m ≡ some a
    → (find j (on_close same a m) ≡ some a) ⊎ (find k (on_close same a m) ≡ some a)
unfolding on_close
on_close-leaves same j k a m apart first second =
    let key = get_key_from_hdl same a m in
    elim (Bool-cases (key == j)) [
      | inl e ↦
          inr (
            find-erase_ne key k m (ground (arith, ==_iff key j, ==_iff key k, ==_iff j k)) ∙ second)
      | inr e ↦ inl (find-erase_ne key j m e ∙ first)
    ]

react-Owned {κ} :
    {H : Type κ} (same : H → H → Bool) (site : Site) (k : Text) (a : H) (event : Event H)
    (m : Dict Text H) (box : Inbox)
    → is_empty k ≡ false
    → same a (handle_of event) ≡ false
    → Owned k a m
    → Owned k a (react same site event (m, box)).0
unfolding react handle_of
react-Owned same site k a (message hdl now text) m box filled apart owned =
    Grown-Owned k a hdl m (on_message same site hdl now text m box).0
      (on_message-Grown same site hdl now text m box) owned
react-Owned same site k a (close hdl) m box filled apart owned =
    on_close-Owned same k a hdl m filled apart owned

-- Where no key stands twice, a key that is not empty stays with its connection, whatever messages,
-- also requests for the same key, and closings of other connections follow; and no key stands twice
-- afterwards.
pub react_all-Owned {κ} :
    {H : Type κ} (same : H → H → Bool) (site : Site) (k : Text) (a : H) (events : List (Event H))
    (m : Dict Text H) (box : Inbox)
    → is_empty k ≡ false
    → Others same a events
    → Owned k a m
    → Owned k a (react_all same site events (m, box)).0
unfolding react_all Others
react_all-Owned same site k a [] m box filled others owned = owned
react_all-Owned same site k a (event ∷ events) m box filled (apart, others) owned =
    let (m', box') = react same site event (m, box) in
    react_all-Owned same site k a events m' box' filled others
      (react-Owned same site k a event m box filled apart owned)
