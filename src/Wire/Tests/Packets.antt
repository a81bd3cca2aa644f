-- ===== src/Wire/Tests/Packets.antt =====
-- Packets, compressed texts and messages in fragments on concrete values.
use decentralized_cloud.Base.{
  none, text_eq, ◌≡◌, refl, some, false, List, [], ◌∷◌, Text, codes, is_empty, arith,
}
use decentralized_cloud.Wire.{remove_null_terminators}
use decentralized_cloud.Wire.Tests.{
  plain_boost, plain_boost-Documented, result_fields, here, new_inbox,
}
use decentralized_cloud.Wire.{message, is_reserved}
use decentralized_cloud.Wire.Inbox.{handled}
use decentralized_cloud.Wire.Plain.{literal}
use decentralized_cloud.Wire.Fields.{text_of, sent_fields, message-text_of}
use decentralized_cloud.Wire.Delivery.{data_handler}
use decentralized_cloud.Wire.Delivery.Received.{data_handler-message}
use decentralized_cloud.Message.{FieldValueMap, verification_result, command_number}
use decentralized_cloud.Base.Dict.{find}
use decentralized_cloud.Base.Decimal.{to_string}
use decentralized_cloud.Base.Class.{text_beq}
use decentralized_cloud.Wire.Packing.{Zlib, unpacked, compress_string, decompress_string}
use decentralized_cloud.Wire.Packing.RoundTrip.{decompress_string-compress_string}
use decentralized_cloud.Wire.Fragments.{new_message, assemble, fragment_packet}
use decentralized_cloud.Wire.Fragments.Assembly.{Arrival, add_each, delivered, add_each_complete}
use decentralized_cloud.Wire.Fragments.Single.{Fragmented, fragment_packet-add_each}

-- A compression that puts two bytes in front.
drop_two : Text → Text
drop_two [] = []
drop_two (c ∷ []) = []
drop_two (c ∷ d ∷ s) = s

abbrev two_more : Zlib
unfolding drop_two
two_more = record { compress = λ s. 0 ∷ 7 ∷ s; decompress = λ s. some (drop_two s) }

two_more_inverse : (t : Text) → two_more.decompress (two_more.compress t) ≡ some t
unfolding two_more drop_two
two_more_inverse t = refl

decompress_string-compress_string_example :
    decompress_string plain_boost two_more (compress_string two_more (codes "a_b"))
    ≡ unpacked (codes "a_b")
unfolding two_more remove_null_terminators
decompress_string-compress_string_example =
    decompress_string-compress_string plain_boost plain_boost-Documented two_more (codes "a_b")
      two_more_inverse (omega arith)

-- Three fragments that arrive in another order, one of them twice.
abbrev three : List Text
three = codes "70002:ab" ∷ codes "70102:c" ∷ codes "70202:de" ∷ []

abbrev shuffled : List Arrival
shuffled = (5, 2) ∷ (6, 0) ∷ (7, 2) ∷ (9, 1) ∷ []

three_full : is_empty (assemble three) ≡ false
unfolding assemble
three_full = refl

add_each_complete_example :
    delivered (add_each three shuffled (new_message 0 2 (codes "A"))) ≡ assemble three ∷ []
add_each_complete_example =
    add_each_complete 0 2 (codes "A") three shuffled refl (refl, (refl, (refl, tt))) three_full
      (omega arith)

fragment_packet-add_each_example : Fragmented 7 (codes "a:b") (fragment_packet 7 (codes "a:b"))
fragment_packet-add_each_example = fragment_packet-add_each 7 (codes "a:b") refl

-- A result that a verifier gossips, as the table gives its text.
abbrev gossiped : Text
gossiped = text_of plain_boost plain_boost-Documented (
    sent_fields plain_boost plain_boost-Documented verification_result result_fields (codes "g")
      (codes "id1") 1700)

result_fields-unreserved :
    (is_reserved (codes "txid") ≡ false) × (is_reserved (codes "o") ≡ false) × Unit {0}
unfolding is_reserved text_beq
result_fields-unreserved = (refl, refl, tt)

gossiped-sent :
    message here.boost verification_result result_fields (codes "g") (codes "id1") 1700
    ≡ some gossiped
gossiped-sent =
    message-text_of plain_boost plain_boost-Documented verification_result result_fields (codes "g")
      (codes "id1") 1700 (literal refl refl refl refl) (literal refl refl refl refl)
      (result_fields-unreserved.0, (result_fields-unreserved.1, tt))
      ((literal refl refl refl refl, refl, refl), ((literal refl refl refl refl, refl, refl), tt))

no_time : find (codes "tm") result_fields ≡ none
unfolding find text_beq
no_time = refl

data_handler-message_example :
    (fields : FieldValueMap) × (data_handler here
        (λ key. gossiped ∷ [])
        (b'g' ∷ to_string 77)
        new_inbox
      ≡ (
        handled (command_number verification_result) fields,
        record new_inbox { processed = codes "g" ∷ [] },
      ))
    × ((key value : Text) → find key result_fields ≡ some value → find key fields ≡ some value)
unfolding text_beq command_number
data_handler-message_example =
    data_handler-message here plain_boost-Documented verification_result result_fields (codes "g")
      (codes "id1") 1700 77 new_inbox (literal refl refl refl refl) (literal refl refl refl refl)
      (result_fields-unreserved.0, (result_fields-unreserved.1, tt))
      ((literal refl refl refl refl, refl, refl), ((literal refl refl refl refl, refl, refl), tt))
      gossiped (λ key. gossiped ∷ []) [] no_time (omega arith) (omega arith) refl refl refl
      gossiped-sent refl
