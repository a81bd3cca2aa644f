-- ===== src/Wire/Delivery/Received.antt =====
-- What becomes of a message, from the node that gossips it to the handler of the node that gets it.
use decentralized_cloud.Base.{
  ℕ, ◌^◌, ◌≤◌, ◌<◌, ◌≡◌, ◌∙◌, none, some, false, List, [], ◌∷◌, ◌++◌, Text, text_eq, ◌==◌, nat_beq,
  codes, arith, All,
}
use decentralized_cloud.Base.Class.{text_beq}
use decentralized_cloud.Base.Decimal.{to_string}
use decentralized_cloud.Base.Dict.{find, insert, find-insert}
use decentralized_cloud.Message.{CommandType, connection_request, FieldValueMap, command_number}
use decentralized_cloud.Wire.{is_reserved, message}
use decentralized_cloud.Wire.Escapes.{Documented}
use decentralized_cloud.Wire.Plain.{Plain, Sendable}
use decentralized_cloud.Wire.Fields.{insert_all}
use decentralized_cloud.Wire.Inbox.{Inbox, Site, handled, member, dispatch}
use decentralized_cloud.Wire.Numbers.{atoi_char-to_string}
use decentralized_cloud.Wire.Delivery.{data_handler}
use decentralized_cloud.Wire.Delivery.Reading.{
  received, command-received, field-received, data_handler-dispatched,
}

-- The fields as the handler gets them.
abbrev given : FieldValueMap → FieldValueMap
given F = insert (codes "k") [] (insert (codes "ws") (codes "0") F)

insert_keeps :
    (j w key value : Text) (m : FieldValueMap)
    → find key m ≡ some value
    → find key (insert j w m) ≡ some value
insert_keeps j w key value m there = ground (arith, find-insert j key w m)

given-keeps :
    (key value : Text) (F : FieldValueMap)
    → find key F ≡ some value
    → find key (given F) ≡ some value
given-keeps key value F there =
    insert_keeps (codes "k") [] key value (insert (codes "ws") (codes "0") F)
      (insert_keeps (codes "ws") (codes "0") key value F there)

dispatch-handled :
    (site : Site) (F : FieldValueMap) (num : ℕ) (b : Inbox)
    → find (codes "c") F ≡ some (to_string num)
    → num < 256
    → nat_beq num 1 ≡ false
    → dispatch site false [] F b ≡ (handled num (given F), b)
unfolding dispatch text_beq
dispatch-handled site F num b command byte no_request =
    let c : find (codes "c") (insert (codes "ws") (codes "0") F) ≡ some (to_string num) =
      find-insert (codes "ws") (codes "c") (codes "0") F ∙ command in
    ground (arith, c, atoi_char-to_string num)

command_number-lt : (cmd : CommandType) → command_number cmd < 256
unfolding command_number
command_number-lt connection_request = omega arith
command_number-lt _ = omega arith

module _ (site : Site) (law : Documented site.boost) (cmd : CommandType) (kv : FieldValueMap)
    (guid id : Text) (now nonce : ℕ) (box : Inbox) (plain_guid : Plain guid) (plain_id : Plain id)
    (free : All (λ f. is_reserved f.0 ≡ false) kv) (sendable : All Sendable kv) where
  -- A node gossips a command that is no connection request, with fields as `getFieldsAndValues` reads
  -- them back and none for the time. Another node, started before, that has not had the message and
  -- fetches its text by the nonce, gives the handler of the command every field that was sent, and
  -- marks the message as had.
  pub data_handler-message :
      (text : Text) (get : Text → List Text) (earlier : List Text)
      → find (codes "tm") kv ≡ none
      → now < 2 ^ 63
      → site.app_startup ≤ now
      → nat_beq (command_number cmd) 1 ≡ false
      → (id == site.id) ≡ false
      → member guid box.processed ≡ false
      → message site.boost cmd kv guid id now ≡ some text
      → get (to_string nonce) ≡ earlier ++ text ∷ []
      → (fields : FieldValueMap) × (data_handler site get (b'g' ∷ to_string nonce) box
          ≡ (handled (command_number cmd) fields, record box { processed = guid ∷ box.processed }))
        × ((key value : Text) → find key kv ≡ some value → find key fields ≡ some value)
  data_handler-message text get earlier no_time small young no_request foreign new sent stored =
      let F =
        insert_all
          (received site law cmd kv guid id now nonce box plain_guid plain_id free sendable) [] in
      let command =
        command-received site law cmd kv guid id now nonce box plain_guid plain_id free sendable in
      (
        given F,
        data_handler-dispatched site law cmd kv guid id now nonce box plain_guid plain_id free
              sendable text get earlier no_time small young foreign new sent stored
            ∙ dispatch-handled site F (command_number cmd) _ command (command_number-lt cmd)
                no_request,
        λ key value there. given-keeps key value F (
            field-received site law cmd kv guid id now nonce box plain_guid plain_id free sendable
              key value there),
      )
