-- ===== src/Wire/Inbox/Once.antt =====
-- No message of another node is acted on twice.
use decentralized_cloud.Base.{
  ℕ, ◌≡◌, refl, Option, none, some, Bool, true, false, List, [], ◌∷◌, Text, text_eq, ◌==◌, ==_iff,
  codes, if◌then◌else◌, arith,
}
use decentralized_cloud.Base.Class.{text_beq}
use decentralized_cloud.Base.Decimal.{to_string}
use decentralized_cloud.Base.Dict.{find, find-insert}
use decentralized_cloud.Message.{FieldValueMap}
use decentralized_cloud.Wire.{get_fields_and_values}
use decentralized_cloud.Wire.Inbox.{
  Inbox, Site, with_field, Fate, dropped, failed, added, handled, member, connect, dispatch, once,
  acknowledge, time_of, take_timely, take_fields, process_incoming_data, Signed, is_old,
}

-- Whether a node was added or a handler called.
abbrev pub acts : Fate → Bool
acts dropped = false
acts failed = false
acts added = true
acts (handled c fields) = true

-- What holds of a failure, and of what comes after any value of the field.
with_field-keeps {ℓ} :
    (P : Fate × Inbox → Type ℓ) (key : Text) (fields : FieldValueMap) (box : Inbox)
    (k : Text → Fate × Inbox)
    → P (failed, box)
    → ((v : Text) → find key fields ≡ some v → P (k v))
    → P (with_field key fields box k)
with_field-keeps P key fields box k h f = found (find key fields) refl
  where
    found :
        (o : Option Text) → find key fields ≡ o → P (elim o [ none ↦ (failed, box) | some v ↦ k v ])
    found none e = h
    found (some v) e = f v e

if-keeps {ℓ} :
    (P : Fate × Inbox → Type ℓ) (test : Bool) (a b : Fate × Inbox)
    → P a
    → P b
    → P (if test then a else b)
if-keeps P true a b h k = h
if-keeps P false a b h k = k

-- The ids that were processed are those of before.
abbrev Same : Inbox → Fate × Inbox → Type 0
Same box r = (r.1).processed ≡ box.processed

connect-Same :
    (site : Site) (fields : FieldValueMap) (box : Inbox) → Same box (connect site fields box)
unfolding connect
connect-Same site fields box = ground arith

dispatch-Same :
    (site : Site) (web : Bool) (key : Text) (fields : FieldValueMap) (box : Inbox)
    → Same box (dispatch site web key fields box)
unfolding dispatch
dispatch-Same site web key fields box =
    with_field-keeps (Same box) _ _ box _ refl
      λ c e. if-keeps (Same box) _ _ _ (connect-Same site _ box) refl

acknowledge-Same :
    (site : Site) (key : Text) (fields : FieldValueMap) (box : Inbox)
    → Same box (acknowledge site key fields box)
unfolding acknowledge
acknowledge-Same site key fields box = with_field-keeps (Same box) _ _ box _ refl λ time e.
    with_field-keeps (Same box) _ _ box _ refl
      λ txid e'. if-keeps (Same box) (site.connected key) _ _ (dispatch-Same site true key _ _) refl

-- An id that was processed before still is.
abbrev Keeps : Text → Fate × Inbox → Type 0
Keeps id r = member id (r.1).processed ≡ true

once-Keeps :
    (site : Site) (id key : Text) (fields : FieldValueMap) (box : Inbox)
    → member id box.processed ≡ true
    → Keeps id (once site key fields box)
unfolding once
once-Keeps site id key fields box h = with_field-keeps (Keeps id) _ fields box _ h λ m e.
    if-keeps (Keeps id) (member m box.processed) _ _ h (
      rw (dispatch-Same site false key fields (record box { processed = m ∷ box.processed }))
        (ground (arith, h)))

take_timely-Keeps :
    (site : Site) (id : Text) (web : Bool) (key : Text) (o : Option (Signed × FieldValueMap))
    (box : Inbox)
    → member id box.processed ≡ true
    → Keeps id (take_timely site web key o box)
unfolding take_timely
take_timely-Keeps site id web key none box h = h
take_timely-Keeps site id web key (some (time, fields)) box h =
    if-keeps (Keeps id) (is_old site.app_startup time) _ _ h (
      if-keeps (Keeps id) web _ _ (rw (acknowledge-Same site key fields box) h)
        (once-Keeps site id key fields box h))

-- No step forgets an id.
process-Keeps :
    (site : Site) (id : Text) (web : Bool) (key : Text) (timestamp : ℕ) (text : Text) (box : Inbox)
    → member id box.processed ≡ true
    → Keeps id (process_incoming_data site web key timestamp text box)
unfolding process_incoming_data
process-Keeps site id web key timestamp text box h = read (get_fields_and_values site.boost text)
  where
    read : (o : Option FieldValueMap) → Keeps id (take_fields site web key timestamp o box)
    read none = h
    read (some fields) =
        let go_on = take_timely-Keeps site id web key (time_of timestamp fields) box h in
        if-keeps (Keeps id) web _ _ go_on (
          with_field-keeps (Keeps id) (codes "k") fields box _ h
            λ sender e. if-keeps (Keeps id) (sender == site.id) _ _ h go_on)

-- A message that was acted on is marked.
abbrev Marks : Text → Fate × Inbox → Type 0
Marks id r = acts r.0 ≡ true → member id (r.1).processed ≡ true

once-Marks :
    (site : Site) (id key : Text) (fields : FieldValueMap) (box : Inbox)
    → find (codes "msgid") fields ≡ some id
    → Marks id (once site key fields box)
unfolding once
once-Marks site id key fields box e =
    with_field-keeps (Marks id) (codes "msgid") fields box _ (λ a. cc)
      λ m e'.
        if-keeps (Marks id) (member m box.processed) _ _ (λ a. cc)
          λ a.
            rw (dispatch-Same site false key fields (record box { processed = m ∷ box.processed }))
              (ground (arith, ==_iff m id, e, e'))

-- Nothing is done, and nothing changes.
abbrev pub Quiet : Inbox → Fate × Inbox → Type 0
Quiet box r = (acts r.0 ≡ false) × (r.1 ≡ box)

once-Quiet :
    (site : Site) (id key : Text) (fields : FieldValueMap) (box : Inbox)
    → find (codes "msgid") fields ≡ some id
    → member id box.processed ≡ true
    → Quiet box (once site key fields box)
unfolding once
once-Quiet site id key fields box e h =
    with_field-keeps (Quiet box) (codes "msgid") fields box _ (refl, refl)
      λ m e'. let same : m ≡ id = cc in rw (same, h) (refl, refl)

-- A message as it arrives: whether over the web socket, with its key, time and text.
pub record Arrival : Type 0 where
  pub web : Bool
  pub key : Text
  pub timestamp : ℕ
  pub text : Text

module _ (site : Site) where
  abbrev pub arrive : Arrival → Inbox → Fate × Inbox
  arrive a box = process_incoming_data site a.web a.key a.timestamp a.text box

  -- The node after a list of arrivals.
  abbrev arrive_all : List Arrival → Inbox → Inbox
  arrive_all [] box = box
  arrive_all (a ∷ arrivals) box = arrive_all arrivals (arrive a box).1

  -- A message of another node with this id.
  pub record Carries (id : Text) (a : Arrival) : Type 0 where
    pub fields : FieldValueMap
    pub read : get_fields_and_values site.boost a.text ≡ some fields
    pub names : find (codes "msgid") fields ≡ some id
    pub from_node : a.web ≡ false

  arrive_all-keeps :
      (id : Text) (arrivals : List Arrival) (box : Inbox)
      → member id box.processed ≡ true
      → member id (arrive_all arrivals box).processed ≡ true
  arrive_all-keeps id [] box h = h
  arrive_all-keeps id (a ∷ arrivals) box h =
      arrive_all-keeps id arrivals (arrive a box).1
        (process-Keeps site id a.web a.key a.timestamp a.text box h)

  time_of-names :
      (id : Text) (timestamp : ℕ) (fields fields' : FieldValueMap) (t : Signed)
      → find (codes "msgid") fields ≡ some id
      → time_of timestamp fields ≡ some (t, fields')
      → find (codes "msgid") fields' ≡ some id
  unfolding time_of text_beq
  time_of-names id timestamp fields fields' t e h =
      ground (arith, find-insert (codes "tm") (codes "msgid") (to_string timestamp) fields)

  timely-once :
      (P : Fate × Inbox → Type 0) (id key : Text) (timestamp : ℕ) (fields : FieldValueMap)
      (box : Inbox)
      → find (codes "msgid") fields ≡ some id
      → P (failed, box)
      → P (dropped, box)
      → ((fields' : FieldValueMap)
          → find (codes "msgid") fields' ≡ some id
          → P (once site key fields' box))
      → P (take_timely site false key (time_of timestamp fields) box)
  unfolding take_timely
  timely-once P id key timestamp fields box e bad drop go = timed (time_of timestamp fields) refl
    where
      timed :
          (o : Option (Signed × FieldValueMap))
          → time_of timestamp fields ≡ o
          → P (take_timely site false key o box)
      timed none h = bad
      timed (some (t, fields')) h =
          if-keeps P (is_old site.app_startup t) _ _ drop
            (go fields' (time_of-names id timestamp fields fields' t e h))

  arrive-once :
      (P : Fate × Inbox → Type 0) (id : Text) (a : Arrival) (box : Inbox)
      → Carries id a
      → P (failed, box)
      → P (dropped, box)
      → ((fields' : FieldValueMap)
          → find (codes "msgid") fields' ≡ some id
          → P (once site a.key fields' box))
      → P (arrive a box)
  unfolding process_incoming_data take_fields
  arrive-once P id a box c bad drop go =
      rw (c.read, c.from_node)
        (with_field-keeps P (codes "k") c.fields box _ bad λ sender e.
          if-keeps P (sender == site.id) _ _ drop
            (timely-once P id a.key a.timestamp c.fields box c.names bad drop go))

  -- Of the messages of other nodes with one id, no second one is acted on: once one was handled or
  -- added a node, a later one changes nothing, whatever arrived in between.
  pub process_incoming_data-once :
      (id : Text) (first second : Arrival) (between : List Arrival) (box : Inbox)
      → Carries id first
      → Carries id second
      → acts (arrive first box).0 ≡ true
      → let later = arrive_all between (arrive first box).1 in Quiet later (arrive second later)
  process_incoming_data-once id first second between box c d acted =
      let marked =
        arrive-once (Marks id) id first box c (λ a. cc) (λ a. cc)
          (λ fields e. once-Marks site id first.key fields box e) acted in
      let later = arrive_all between (arrive first box).1 in
      arrive-once (Quiet later) id second later d (refl, refl) (refl, refl)
        (λ fields e.
          once-Quiet site id second.key fields later e
            (arrive_all-keeps id between (arrive first box).1 marked))
