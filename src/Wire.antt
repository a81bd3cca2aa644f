-- ===== src/Wire.antt =====
-- The text that nodes send one another: `gossip` writes it and `getFieldsAndValues` reads it
-- (BlockChainCommon/functions.cpp). `boost::split` and `boost::replace_all` are parameters.
pub mod Escapes
pub mod Splits
pub mod Packing
pub mod Plain
pub mod Fields
pub mod Inbox
pub mod Numbers
pub mod Delivery
pub mod Sockets
pub mod Fragments
mod Tests
use decentralized_cloud.Base.{
  ℕ, Option, none, some, Bool, true, false, not, ◌&&◌, ◌||◌, List, [], ◌∷◌, ◌++◌, Text, text_eq,
  ◌==◌, nat_beq, is_empty, codes, if◌then◌else◌,
}
use decentralized_cloud.Base.Decimal.{to_string}
use decentralized_cloud.Base.Dict.{insert}
use decentralized_cloud.Message.{CommandType, FieldValueMap, command_number}

-- `boost::split(parts, text, is_any_of(d))` for a single character, and
-- `boost::replace_all(text, search, format)`.
pub record Boost : Type 0 where
  pub split : Text → ℕ → List Text
  pub replace_all : Text → Text → Text → Text

abbrev pair_delimiter : ℕ
pair_delimiter = b':'

abbrev field_delimiter : ℕ
field_delimiter = b'|'

unfoldable pub encode_value : Boost → Text → Text
encode_value boost value =
    boost.replace_all (boost.replace_all value (pair_delimiter ∷ []) (codes "%3A"))
      (field_delimiter ∷ []) (codes "%7C")

unfoldable pub decode_value : Boost → Text → Text
decode_value boost value =
    boost.replace_all (boost.replace_all value (codes "%3A") (pair_delimiter ∷ [])) (codes "%7C")
      (field_delimiter ∷ [])

-- The keys that a caller must not use.
unfoldable pub is_reserved : Text → Bool
is_reserved key =
    key == codes "msgid" || (key == codes "k" || (key == codes "c" || key == codes "chanid"))

-- A field as it stands in the text.
abbrev pub field : Text → Text → Text
field key value = key ++ pair_delimiter ∷ value

-- The loop over the fields; `none` is the exception for a reserved key.
unfoldable pub put_fields : Boost → FieldValueMap → Text → Option Text
unfolding is_reserved encode_value
put_fields boost [] msg = some msg
put_fields boost ((key, value) ∷ kv) msg =
    let rest =
      put_fields boost kv (msg ++ field_delimiter ∷ field key (encode_value boost value)) in
    if is_reserved key then none else rest

unfoldable pub remove_null_terminators : Text → Text
remove_null_terminators [] = []
remove_null_terminators (c ∷ s) =
    let rest = remove_null_terminators s in if nat_beq c 0 then rest else c ∷ rest

-- `gossip(channelId, cmd, kv)` up to the text that is put into the table, with the id of the message,
-- the id of the node and the time that the second `gossip` appends.
unfoldable pub message : Boost → CommandType → FieldValueMap → Text → Text → ℕ → Option Text
unfolding put_fields remove_null_terminators
message boost cmd kv guid id now =
    elim (put_fields boost kv (field (codes "c") (to_string (command_number cmd)))) [
      | none ↦ none
      | some msg ↦ some (
          remove_null_terminators (
            msg
            ++ ((field_delimiter ∷ field (codes "msgid") guid)
                ++ ((field_delimiter ∷ field (codes "k") id)
                    ++ (field_delimiter ∷ field (codes "tm") (to_string now))))))
    ]

-- The loop of `getFieldsAndValues`; `none` is the exception for a part without a value. What stands
-- behind a second `:` is not read.
unfoldable pub read_pair : Boost → List Text → FieldValueMap → Option FieldValueMap
unfolding decode_value insert
read_pair boost [] m = none
read_pair boost (key ∷ []) m = none
read_pair boost (key ∷ value ∷ rest) m = some (insert key (decode_value boost value) m)

unfoldable pub read_fields : Boost → List Text → FieldValueMap → Option FieldValueMap
unfolding read_pair
read_fields boost [] m = some m
read_fields boost (part ∷ parts) m = elim (read_pair boost (boost.split part pair_delimiter) m) [
  | none ↦ none
  | some m' ↦ read_fields boost parts m'
]

unfoldable pub get_fields_and_values : Boost → Text → Option FieldValueMap
unfolding read_fields
get_fields_and_values boost text = read_fields boost (boost.split text field_delimiter) []
