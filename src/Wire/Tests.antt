-- ===== src/Wire/Tests.antt =====
-- Messages on concrete values, with functions that split and replace as `Boost` asks.
mod Packets
mod Joining
use decentralized_cloud.Base.{
  ℕ, zero, suc, ◌-◌, ◌≡◌, refl, some, true, false, List, [], ◌∷◌, ◌++◌, Text, nat_beq, length,
  is_empty, codes, if◌then◌else◌, arith, text_eq,
}
use decentralized_cloud.Base.Class.{text_beq}
use decentralized_cloud.Message.{FieldValueMap, verification_result}
use decentralized_cloud.Base.Dict.{Dict, find, insert}
use decentralized_cloud.Wire.{
  Boost, is_reserved, encode_value, decode_value, message, get_fields_and_values, read_fields,
  read_pair,
}
use decentralized_cloud.Wire.Escapes.{Documented, starts_with, has_char, decode_value-encode_value}
use decentralized_cloud.Wire.Inbox.{
  Inbox, Site, process_incoming_data, take_fields, take_timely, time_of, once, dispatch, atoi_char,
  leading, read_sign,
}
use decentralized_cloud.Wire.Inbox.Once.{
  Arrival, arrive, acts, Carries, Quiet, process_incoming_data-once,
}
use decentralized_cloud.Wire.Sockets.Keys.{Distinct}
use decentralized_cloud.Wire.Sockets.Owner.{
  Event, close, react_all, Others, Owned, handle_of, react_all-Owned,
}
use decentralized_cloud.Base.Decimal.{skip_spaces, read_digits}
use decentralized_cloud.Peers.{no_peers}
use decentralized_cloud.Wire.Plain.{literal}
use decentralized_cloud.Wire.Fields.{insert_all, sent_fields, get_fields_and_values-message}

-- `skip` characters of an occurrence are left.
replace : ℕ → Text → Text → Text → Text
replace skip [] f t = []
replace zero (c ∷ s) f t =
    let found = t ++ replace (length f - 1) s f t in
    let other = c ∷ replace zero s f t in if starts_with f (c ∷ s) then found else other
replace (suc skip) (c ∷ s) f t = replace skip s f t

put_first : ℕ → List Text → List Text
put_first c [] = []
put_first c (p ∷ ps) = (c ∷ p) ∷ ps

split_at : Text → ℕ → List Text
unfolding put_first
split_at [] d = [] ∷ []
split_at (c ∷ s) d = let rest = split_at s d in if nat_beq c d then [] ∷ rest else put_first c rest

abbrev plain_boost : Boost
plain_boost = record { split = split_at; replace_all = replace zero }

starts_with-append : (f s : Text) → starts_with f (f ++ s) ≡ true
starts_with-append [] s = refl
starts_with-append (c ∷ f) s = ground (arith, starts_with-append f s)

replace-skip : (g s f t : Text) → replace (length g) (g ++ s) f t ≡ replace zero s f t
unfolding replace
replace-skip [] s f t = refl
replace-skip (c ∷ g) s f t = replace-skip g s f t

replace-found :
    (f t s : Text) → is_empty f ≡ false → replace zero (f ++ s) f t ≡ t ++ replace zero s f t
unfolding replace
replace-found [] t s h = ground arith
replace-found (c ∷ f) t s h =
    ground (arith, starts_with-append (c ∷ f) s, replace-skip f s (c ∷ f) t)

replace-other :
    (f t : Text) (c : ℕ) (s : Text)
    → starts_with f (c ∷ s) ≡ false
    → replace zero (c ∷ s) f t ≡ c ∷ replace zero s f t
unfolding replace
replace-other f t c s h = rw h refl

split_at-none : (s : Text) (d : ℕ) → has_char d s ≡ false → split_at s d ≡ s ∷ []
unfolding split_at
split_at-none [] d h = refl
split_at-none (c ∷ s) d h = ground (arith, split_at-none s d)

split_at-first :
    (s t : Text) (d : ℕ) → has_char d s ≡ false → split_at (s ++ d ∷ t) d ≡ s ∷ split_at t d
unfolding split_at
split_at-first [] t d h = ground arith
split_at-first (c ∷ s) t d h = ground (arith, split_at-first s t d)

plain_boost-Documented : Documented plain_boost
unfolding replace
plain_boost-Documented = record {
  replace_nothing = λ f t. refl;
  replace_found = replace-found;
  replace_other = replace-other;
  split_none = split_at-none;
  split_first = split_at-first;
}

decode_value-encode_value_example :
    decode_value plain_boost (encode_value plain_boost (codes "a:b|c")) ≡ codes "a:b|c"
decode_value-encode_value_example =
    decode_value-encode_value plain_boost plain_boost-Documented (codes "a:b|c") refl

abbrev result_fields : FieldValueMap
result_fields = (codes "txid", codes "T1") ∷ (codes "o", codes "a:b|c") ∷ []

get_fields_and_values-message_example :
    (text : Text) × (message plain_boost verification_result result_fields
        (codes "g")
        (codes "id1")
        1700
      ≡ some text)
    × (get_fields_and_values plain_boost text
        ≡ some (
            insert_all
              (sent_fields plain_boost plain_boost-Documented verification_result result_fields
                (codes "g")
                (codes "id1")
                1700)
              []))
unfolding is_reserved text_beq
get_fields_and_values-message_example =
    get_fields_and_values-message plain_boost plain_boost-Documented verification_result
      result_fields (codes "g") (codes "id1") 1700 (literal refl refl refl refl)
      (literal refl refl refl refl) (refl, (refl, tt))
      ((literal refl refl refl refl, refl, refl), ((literal refl refl refl refl, refl, refl), tt))

abbrev here : Site
here = record {
  boost = plain_boost;
  id = codes "id0";
  app_startup = 1000;
  connected = λ key. true;
  reference = λ key time. codes "r1";
  dump = λ j. [];
}

abbrev new_inbox : Inbox
new_inbox = record { processed = []; peers = no_peers; sent = [] }

abbrev arrival : Arrival
arrival = record {
  web = false;
  key = codes "id1";
  timestamp = 1700;
  text = codes "c:4|msgid:m1|k:id1";
}

abbrev arrived_fields : FieldValueMap
arrived_fields =
    (codes "c", codes "4") ∷ (codes "msgid", codes "m1") ∷ (codes "k", codes "id1") ∷ []

arrived-read : get_fields_and_values plain_boost arrival.text ≡ some arrived_fields
unfolding get_fields_and_values read_fields read_pair decode_value replace split_at put_first insert
    text_beq
arrived-read = refl

arrival-Carries : Carries here (codes "m1") arrival
unfolding find text_beq
arrival-Carries = record {
  fields = arrived_fields;
  read = arrived-read;
  names = refl;
  from_node = refl;
}

arrival-acts : acts (arrive here arrival new_inbox).0 ≡ true
unfolding process_incoming_data take_fields take_timely time_of once dispatch find insert text_beq
    atoi_char leading read_sign skip_spaces read_digits
arrival-acts = rw arrived-read refl

process_incoming_data-once_example :
    let later = (arrive here arrival new_inbox).1 in Quiet later (arrive here arrival later)
process_incoming_data-once_example =
    process_incoming_data-once here (codes "m1") arrival arrival [] new_inbox arrival-Carries
      arrival-Carries arrival-acts

-- The client of connection 1 has the key; connection 2 asks for it, and closes.
abbrev one_client : Dict Text ℕ
one_client = (codes "K", 1) ∷ []

abbrev second_client : List (Event ℕ)
second_client = Event.message 2 1700 (codes "c:1|k:K") ∷ close 2 ∷ []

one_client-Owned : Owned (codes "K") 1 one_client
unfolding Owned Distinct find text_beq
one_client-Owned = ((refl, tt), refl)

second_client-Others : Others nat_beq 1 second_client
unfolding Others handle_of
second_client-Others = (refl, (refl, tt))

react_all-Owned_example :
    Owned (codes "K") 1 (react_all nat_beq here second_client (one_client, new_inbox)).0
react_all-Owned_example =
    react_all-Owned nat_beq here (codes "K") 1 second_client one_client new_inbox refl
      second_client-Others one_client-Owned
