-- ===== src/Wire/Delivery/Reading.antt =====
-- What a node reads of a message that another node has gossiped.
use decentralized_cloud.Base.{
  ℕ, ◌^◌, ◌≤◌, ◌<◌, ◌≡◌, refl, ap, ◌∙◌, none, some, true, false, List, [], ◌∷◌, ◌++◌, Text, text_eq,
  ◌==◌, ==_iff, codes, if◌then◌else◌, maybe, arith, All, All-append, Bool-cases, inl, inr,
}
use decentralized_cloud.Base.Class.{text_beq}
use decentralized_cloud.Base.Decimal.{to_string}
use decentralized_cloud.Base.Dict.{find, insert, find-insert}
use decentralized_cloud.Message.{CommandType, FieldValueMap, command_number}
use decentralized_cloud.Wire.{field, is_reserved, message, get_fields_and_values}
use decentralized_cloud.Wire.Escapes.{Documented}
use decentralized_cloud.Wire.Plain.{Plain, Sendable, literal, Plain-Sendable, to_string-Plain}
use decentralized_cloud.Wire.Fields.{
  insert_all, text_of, sent_fields, trailer, get_fields_and_values-text_of, text_of-append,
  message-text_of, sent_fields-Sendable,
}
use decentralized_cloud.Wire.Inbox.{
  Inbox, Site, member, dispatch, once, time_of, take_timely, take_fields, process_incoming_data,
}
use decentralized_cloud.Wire.Numbers.{stoll-to_string}
use decentralized_cloud.Wire.Delivery.{last_or_empty, take_fetched, data_handler}

find-insert_all :
    (k : Text) (kv m : FieldValueMap) → find k (insert_all kv m) ≡ maybe (find k m) (find k kv) some
unfolding find
find-insert_all k [] m = ground arith
find-insert_all k ((key, v) ∷ kv) m =
    ground (arith, find-insert_all k kv (insert key v m), find-insert key k v m)

find-append : (k : Text) (a b : FieldValueMap) → find k (a ++ b) ≡ maybe (find k a) (find k b) some
unfolding find
find-append k [] b = refl
find-append k ((key, v) ∷ a) b = ground (arith, find-append k a b)

find_unreserved :
    (k : Text) (kv : FieldValueMap)
    → is_reserved k ≡ true
    → All (λ f. is_reserved f.0 ≡ false) kv
    → find k kv ≡ none
unfolding find
find_unreserved k [] reserved free = refl
find_unreserved k ((key, v) ∷ kv) reserved (first, free) =
    ground (arith, ==_iff key k, find_unreserved k kv reserved free, first)

last_or_empty_of : (earlier : List Text) (v : Text) → last_or_empty (earlier ++ v ∷ []) ≡ v
unfolding last_or_empty
last_or_empty_of [] v = refl
last_or_empty_of (w ∷ []) v = refl
last_or_empty_of (w ∷ x ∷ earlier) v = last_or_empty_of (x ∷ earlier) v

-- The receiver, on fields of which only what `find` gives matters, up to the command.
module _ (site : Site) (F : FieldValueMap) (now : ℕ) (guid id : Text) (box : Inbox)
    (name : find (codes "msgid") F ≡ some guid) (sender : find (codes "k") F ≡ some id)
    (time : find (codes "tm") F ≡ some (to_string now)) (small : now < 2 ^ 63)
    (young : site.app_startup ≤ now) (foreign : (id == site.id) ≡ false)
    (new : member guid box.processed ≡ false) where
  abbrev marked : Inbox
  marked = record box { processed = guid ∷ box.processed }

  once-dispatched : once site [] F box ≡ dispatch site false [] F marked
  unfolding once
  once-dispatched = ground (arith, name, new)

  time_of-same : time_of 0 F ≡ some ((false, now), F)
  unfolding time_of
  time_of-same = ground (arith, time, stoll-to_string now)

  take_fields-dispatched :
      take_fields site false [] 0 (some F) box ≡ dispatch site false [] F marked
  unfolding take_fields take_timely
  take_fields-dispatched = ground (arith, sender, time_of-same, once-dispatched)

module _ (site : Site) (law : Documented site.boost) (cmd : CommandType) (kv : FieldValueMap)
    (guid id : Text) (now nonce : ℕ) (box : Inbox) (plain_guid : Plain guid) (plain_id : Plain id)
    (free : All (λ f. is_reserved f.0 ≡ false) kv) (sendable : All Sendable kv) where
  -- All that the receiver reads.
  abbrev pub received : FieldValueMap
  received = sent_fields site.boost law cmd kv guid id now ++ (codes "nonce", to_string nonce) ∷ []

  received-read :
      get_fields_and_values site.boost (
        text_of site.boost law (sent_fields site.boost law cmd kv guid id now)
        ++ b'|' ∷ field (codes "nonce") (to_string nonce))
      ≡ some (insert_all received [])
  received-read =
      let first : Text × Text = (codes "c", to_string (command_number cmd)) in
      let rest = kv ++ trailer site.boost law cmd kv guid id now in
      ap (get_fields_and_values site.boost) (
        text_of-append site.boost law first rest (codes "nonce") (to_string nonce)
          (to_string-Plain nonce))
      ∙ get_fields_and_values-text_of site.boost law first
          (rest ++ (codes "nonce", to_string nonce) ∷ [])
          (All-append Sendable (first ∷ rest) ((codes "nonce", to_string nonce) ∷ [])
            (sent_fields-Sendable site.boost law cmd kv guid id now plain_guid plain_id sendable)
            (
              Plain-Sendable (codes "nonce") (to_string nonce) (literal refl refl refl refl)
                  (to_string-Plain nonce),
              tt,
            ))

  find-received :
      (k : Text)
      → find k (insert_all received []) ≡ (
          if codes "c" == k
          then some (to_string (command_number cmd))
          else maybe
              (find k kv)
              (maybe
                (find k (trailer site.boost law cmd kv guid id now))
                (find k ((codes "nonce", to_string nonce) ∷ []))
                some)
              some)
  unfolding find
  find-received k = ground (
    arith,
    find-insert_all k received [],
    find-append k (kv ++ trailer site.boost law cmd kv guid id now)
        ((codes "nonce", to_string nonce) ∷ []),
    find-append k kv (trailer site.boost law cmd kv guid id now),
  )

  pub command-received :
      find (codes "c") (insert_all received []) ≡ some (to_string (command_number cmd))
  unfolding text_beq
  command-received = find-received (codes "c")

  name-received : find (codes "msgid") (insert_all received []) ≡ some guid
  unfolding text_beq find is_reserved
  name-received =
      ground (arith, find-received (codes "msgid"), find_unreserved (codes "msgid") kv refl free)

  pub sender-received : find (codes "k") (insert_all received []) ≡ some id
  unfolding text_beq find is_reserved
  sender-received =
      ground (arith, find-received (codes "k"), find_unreserved (codes "k") kv refl free)

  time-received :
      find (codes "tm") kv ≡ none
      → find (codes "tm") (insert_all received []) ≡ some (to_string now)
  unfolding text_beq find
  time-received none_there = ground (arith, find-received (codes "tm"))

  no_command : (key value : Text) → find key kv ≡ some value → (codes "c" == key) ≡ false
  unfolding is_reserved text_beq
  no_command key value there = elim (Bool-cases (codes "c" == key)) [
    | inl e ↦
        let same : codes "c" ≡ key = (==_iff (codes "c") key).0 e in
        let missing = find_unreserved (codes "c") kv refl free in cc
    | inr e ↦ e
  ]

  pub field-received :
      (key value : Text) → find key kv ≡ some value → find key (insert_all received []) ≡ some value
  field-received key value there = ground (arith, no_command key value there, find-received key)

  -- The text that the receiver fetches, up to the command of the message.
  pub data_handler-dispatched :
      (text : Text) (get : Text → List Text) (earlier : List Text)
      → find (codes "tm") kv ≡ none
      → now < 2 ^ 63
      → site.app_startup ≤ now
      → (id == site.id) ≡ false
      → member guid box.processed ≡ false
      → message site.boost cmd kv guid id now ≡ some text
      → get (to_string nonce) ≡ earlier ++ text ∷ []
      → data_handler site get (b'g' ∷ to_string nonce) box
        ≡ dispatch site false []
            (insert_all received [])
            (record box { processed = guid ∷ box.processed })
  unfolding data_handler take_fetched process_incoming_data
  data_handler-dispatched text get earlier no_time small young foreign new sent stored =
      let written : text ≡ text_of site.boost law (sent_fields site.boost law cmd kv guid id now) =
        cc (message-text_of site.boost law cmd kv guid id now plain_guid plain_id free sendable) in
      let fetched : last_or_empty (get (to_string nonce)) ≡ text =
        ap last_or_empty stored ∙ last_or_empty_of earlier text in
      let taken =
        take_fields-dispatched site (insert_all received []) now guid id box name-received
          sender-received (time-received no_time) small young foreign new in
      rw (fetched, written, received-read) taken
