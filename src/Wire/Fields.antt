-- ===== src/Wire/Fields.antt =====
-- What `getFieldsAndValues` reads of a text that `gossip` wrote.
use mathlib.Core.List.{append_assoc, append-nil}
use decentralized_cloud.Base.{
  ℕ, ◌≡◌, refl, ◌∙◌, ap, sym, some, false, List, [], ◌∷◌, ◌++◌, Text, text_eq, codes, arith, All,
  All-append,
}
use decentralized_cloud.Base.Decimal.{to_string}
use decentralized_cloud.Base.Dict.{insert}
use decentralized_cloud.Message.{CommandType, FieldValueMap, command_number}
use decentralized_cloud.Wire.{
  Boost, field, encode_value, is_reserved, put_fields, remove_null_terminators, message, read_pair,
  read_fields, get_fields_and_values,
}
use decentralized_cloud.Wire.Escapes.{
  Documented, has_char, encode_value-escaped, decode_value-encode_value, encode_value-clean,
}
use decentralized_cloud.Wire.Splits.{separated, separated-append, split-separated}
use decentralized_cloud.Wire.Plain.{
  Plain, Sendable, has_char-append, to_string-Plain, literal, Plain-Sendable, escaped-plain,
  escaped-null, remove_null_terminators-same,
}

-- The fields in the map, the first of two with one key staying.
abbrev pub insert_all : FieldValueMap → FieldValueMap → FieldValueMap
insert_all [] m = m
insert_all ((key, value) ∷ kv) m = insert_all kv (insert key value m)

-- Each part with a delimiter before it.
abbrev tail_of : List Text → Text
tail_of = separated b'|'

tail_of-null :
    (ps : List Text) → All (λ q. has_char 0 q ≡ false) ps → has_char 0 (tail_of ps) ≡ false
tail_of-null [] all = refl
tail_of-null (p ∷ ps) all =
    ground (arith, has_char-append 0 p (tail_of ps), tail_of-null ps all.1, all.0)

module _ (boost : Boost) (law : Documented boost) where
  abbrev part_of : Text × Text → Text
  part_of (key, value) = field key (encode_value boost value)

  part_of-clean : (f : Text × Text) → Sendable f → has_char b'|' (part_of f) ≡ false
  part_of-clean (key, value) (plain, percent, null) = ground (
    arith,
    has_char-append b'|' key (b':' ∷ encode_value boost value),
    (encode_value-clean boost law value).1,
    plain.bar,
  )

  part_of-null : (f : Text × Text) → Sendable f → has_char 0 (part_of f) ≡ false
  part_of-null (key, value) (plain, percent, null) = ground (
    arith,
    has_char-append 0 key (b':' ∷ encode_value boost value),
    encode_value-escaped boost law value,
    escaped-null value null,
    plain.null,
  )

  part_of_raw : (key value : Text) → Plain value → part_of (key, value) ≡ field key value
  part_of_raw key value v =
      ap (field key) (encode_value-escaped boost law value ∙ escaped-plain value v.colon v.bar)

  abbrev parts : FieldValueMap → List Text
  parts [] = []
  parts (f ∷ kv) = part_of f ∷ parts kv

  parts-append : (kv kw : FieldValueMap) → parts (kv ++ kw) ≡ parts kv ++ parts kw
  parts-append [] kw = refl
  parts-append (f ∷ kv) kw = ap (λ ps. part_of f ∷ ps) (parts-append kv kw)

  parts-clean :
      (kv : FieldValueMap) → All Sendable kv → All (λ q. has_char b'|' q ≡ false) (parts kv)
  parts-clean [] all = tt
  parts-clean (f ∷ kv) all = (part_of-clean f all.0, parts-clean kv all.1)

  parts-null : (kv : FieldValueMap) → All Sendable kv → All (λ q. has_char 0 q ≡ false) (parts kv)
  parts-null [] all = tt
  parts-null (f ∷ kv) all = (part_of-null f all.0, parts-null kv all.1)

  read_fields-parts :
      (kv : FieldValueMap) (m : FieldValueMap)
      → All Sendable kv
      → read_fields boost (parts kv) m ≡ some (insert_all kv m)
  unfolding read_fields read_pair
  read_fields-parts [] m all = refl
  read_fields-parts ((key, value) ∷ kv) m all =
      let cut : boost.split (part_of (key, value)) b':' ≡ key ∷ encode_value boost value ∷ [] =
        law.split_first key (encode_value boost value) b':' all.0.0.colon
        ∙ ap (λ r. key ∷ r)
            (law.split_none (encode_value boost value) b':'
              (encode_value-clean boost law value).0) in
      let back = decode_value-encode_value boost law value all.0.1 in
      ground (arith, cut, back, read_fields-parts kv (insert key value m) all.1)

  -- The fields as a text, and what is read of it.
  abbrev pub text_of : FieldValueMap → Text
  text_of [] = []
  text_of (f ∷ kv) = part_of f ++ tail_of (parts kv)

  pub get_fields_and_values-text_of :
      (f : Text × Text) (kv : FieldValueMap)
      → All Sendable (f ∷ kv)
      → get_fields_and_values boost (text_of (f ∷ kv)) ≡ some (insert_all (f ∷ kv) [])
  unfolding get_fields_and_values
  get_fields_and_values-text_of f kv all =
      ap (λ ps. read_fields boost ps [])
        (split-separated boost law b'|' (part_of f) (parts kv) (part_of-clean f all.0)
          (parts-clean kv all.1))
      ∙ read_fields-parts (f ∷ kv) [] all

  text_of-null :
      (f : Text × Text) (kv : FieldValueMap)
      → All Sendable (f ∷ kv)
      → has_char 0 (text_of (f ∷ kv)) ≡ false
  text_of-null f kv all = ground (
    arith,
    has_char-append 0 (part_of f) (tail_of (parts kv)),
    part_of-null f all.0,
    tail_of-null (parts kv) (parts-null kv all.1),
  )

  -- A field behind the others.
  pub text_of-append :
      (f : Text × Text) (kv : FieldValueMap) (key value : Text)
      → Plain value
      → text_of (f ∷ kv) ++ b'|' ∷ field key value ≡ text_of (f ∷ kv ++ (key, value) ∷ [])
  text_of-append f kv key value plain =
      ap (λ t. (part_of f ++ tail_of (parts kv)) ++ b'|' ∷ t) (sym (part_of_raw key value plain))
      ∙ append_assoc (part_of f) (tail_of (parts kv)) (b'|' ∷ part_of (key, value))
      ∙ ap (λ t. part_of f ++ t)
          (ap (λ t. tail_of (parts kv) ++ b'|' ∷ t) (sym (append-nil (part_of (key, value))))
            ∙ sym (separated-append b'|' (parts kv) (part_of (key, value) ∷ []))
            ∙ ap tail_of (sym (parts-append kv ((key, value) ∷ []))))

  put_fields-parts :
      (kv : FieldValueMap) (msg : Text)
      → All (λ f. is_reserved f.0 ≡ false) kv
      → put_fields boost kv msg ≡ some (msg ++ tail_of (parts kv))
  unfolding put_fields
  put_fields-parts [] msg all = ap some (sym (append-nil msg))
  put_fields-parts ((key, value) ∷ kv) msg all =
      let part = b'|' ∷ part_of (key, value) in
      rw all.0 (
        put_fields-parts kv (msg ++ part) all.1
        ∙ ap some (append_assoc msg part (tail_of (parts kv))))

  module _ (cmd : CommandType) (kv : FieldValueMap) (guid id : Text) (now : ℕ) where
    -- What `gossip` adds.
    abbrev pub trailer : FieldValueMap
    trailer = (codes "msgid", guid) ∷ (codes "k", id) ∷ (codes "tm", to_string now) ∷ []

    -- All that is sent, in its order.
    abbrev pub sent_fields : FieldValueMap
    sent_fields = (codes "c", to_string (command_number cmd)) ∷ kv ++ trailer

    trailer-Sendable : Plain guid → Plain id → All Sendable trailer
    trailer-Sendable g i = (
      Plain-Sendable (codes "msgid") guid (literal refl refl refl refl) g,
      (
        Plain-Sendable (codes "k") id (literal refl refl refl refl) i,
        (
          Plain-Sendable (codes "tm") (to_string now) (literal refl refl refl refl)
              (to_string-Plain now),
          tt,
        ),
      ),
    )

    abbrev head : Text
    head = field (codes "c") (to_string (command_number cmd))

    -- The text of `trailer`, which is not encoded.
    abbrev raw : Text
    raw =
        (b'|' ∷ field (codes "msgid") guid)
        ++ ((b'|' ∷ field (codes "k") id) ++ (b'|' ∷ field (codes "tm") (to_string now)))

    raw-tail_of : Plain guid → Plain id → tail_of (parts trailer) ≡ raw
    raw-tail_of g i =
        (λ j. tail_of (
          part_of_raw (codes "msgid") guid g j
          ∷ part_of_raw (codes "k") id i j
          ∷ part_of_raw (codes "tm") (to_string now) (to_string-Plain now) j
          ∷ []))
        ∙ ap (λ t. codes "|msgid:" ++ (guid ++ (codes "|k:" ++ (id ++ (codes "|tm:" ++ t)))))
            (append-nil (to_string now))

    message-of_put :
        (msg : Text)
        → put_fields boost kv head ≡ some msg
        → message boost cmd kv guid id now ≡ some (remove_null_terminators (msg ++ raw))
    unfolding message
    message-of_put msg e = rw (e, message) refl

    pub sent_fields-Sendable : Plain guid → Plain id → All Sendable kv → All Sendable sent_fields
    sent_fields-Sendable g i all = (
      Plain-Sendable (codes "c") (to_string (command_number cmd)) (literal refl refl refl refl)
          (to_string-Plain (command_number cmd)),
      All-append Sendable kv trailer all (trailer-Sendable g i),
    )

    -- The text before the zeros are taken out.
    whole :
        Plain guid
        → Plain id
        → (head ++ tail_of (parts kv)) ++ raw ≡ head ++ tail_of (parts (kv ++ trailer))
    whole g i =
        append_assoc head (tail_of (parts kv)) raw
        ∙ ap (λ t. head ++ t)
            (ap (λ t. tail_of (parts kv) ++ t) (sym (raw-tail_of g i))
              ∙ sym (separated-append b'|' (parts kv) (parts trailer))
              ∙ ap tail_of (sym (parts-append kv trailer)))

    head-part : part_of (codes "c", to_string (command_number cmd)) ≡ head
    head-part =
        part_of_raw (codes "c") (to_string (command_number cmd))
          (to_string-Plain (command_number cmd))

    pub message-text_of :
        Plain guid
        → Plain id
        → All (λ f. is_reserved f.0 ≡ false) kv
        → All Sendable kv
        → message boost cmd kv guid id now ≡ some (text_of sent_fields)
    message-text_of g i free all =
        let text = head ++ tail_of (parts (kv ++ trailer)) in
        let same : text_of sent_fields ≡ text =
          ap (λ h. h ++ tail_of (parts (kv ++ trailer))) head-part in
        let no_null : has_char 0 text ≡ false =
          ap (has_char 0) (sym same)
          ∙ text_of-null (codes "c", to_string (command_number cmd)) (kv ++ trailer)
              (sent_fields-Sendable g i all) in
        message-of_put _ (put_fields-parts kv head free)
        ∙ ap some (
            ap remove_null_terminators (whole g i)
            ∙ remove_null_terminators-same text no_null
            ∙ sym same)

    -- Where no field has a reserved key, every key is plain and no value has a percent sign or a
    -- zero, and the message's id and the sender's id are plain, `gossip` sends a text, and who
    -- reads it gets every field with the value it had, together with the command, the two ids and
    -- the time; of two fields with one key the first stays.
    pub get_fields_and_values-message :
        Plain guid
        → Plain id
        → All (λ f. is_reserved f.0 ≡ false) kv
        → All Sendable kv
        → (text : Text) × (message boost cmd kv guid id now ≡ some text)
          × (get_fields_and_values boost text ≡ some (insert_all sent_fields []))
    get_fields_and_values-message g i free all = (
      text_of sent_fields,
      message-text_of g i free all,
      get_fields_and_values-text_of (codes "c", to_string (command_number cmd)) (kv ++ trailer)
          (sent_fields-Sendable g i all),
    )
