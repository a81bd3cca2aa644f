-- ===== src/Wire/Sockets.antt =====
-- The connections of a node's web socket server (`WebSocketServer` of
-- BlockChainCommon/webSocketServer.cpp): the key of each client, and what becomes of its messages.
-- `same` stands for the comparison of two locked handles of websocketpp.
pub mod Keys
pub mod Owner
use decentralized_cloud.Base.{
  ℕ, Bool, true, false, Option, none, some, List, [], ◌∷◌, Text, text_eq, ◌==◌, nat_beq, is_empty,
  codes, if◌then◌else◌, maybe,
}
use decentralized_cloud.Base.Dict.{Dict, find, contains, insert, erase}
use decentralized_cloud.Message.{FieldValueMap}
use decentralized_cloud.Wire.{Boost, get_fields_and_values}
use decentralized_cloud.Wire.Inbox.{
  Inbox, Site, Fate, dropped, failed, process_incoming_data, atoi_char,
}

-- The key of a handle, which is empty where there is none. The map is not ordered; where a handle
-- stands there twice, the first one in the list stands for the one that the loop meets first.
unfoldable pub get_key_from_hdl {κ} : {H : Type κ} → (H → H → Bool) → H → Dict Text H → Text
get_key_from_hdl same hdl [] = []
get_key_from_hdl same hdl ((key, h) ∷ m) =
    let rest = get_key_from_hdl same hdl m in if same h hdl then key else rest

-- `insert` keeps a connection that is there.
unfoldable pub add_connection {κ} : {H : Type κ} → Text → H → Dict Text H → Dict Text H
unfolding insert
add_connection key hdl m = insert key hdl m

unfoldable pub on_close {κ} : {H : Type κ} → (H → H → Bool) → H → Dict Text H → Dict Text H
unfolding erase get_key_from_hdl
on_close same hdl m = erase (get_key_from_hdl same hdl m) m

-- A client's request for a key.
unfoldable pub request_key {κ} :
    {H : Type κ} → H → FieldValueMap → Dict Text H → Inbox → Dict Text H × Fate × Inbox
unfolding find contains add_connection
request_key hdl fields m box =
    maybe (find (codes "k") fields) (m, failed, box)
      λ key. (if contains key m then m else add_connection key hdl m, dropped, box)

-- Any other message, under the key of its connection.
unfoldable pub take_message {κ} :
    {H : Type κ}
    → (H → H → Bool)
    → Site
    → H
    → ℕ
    → Text
    → Dict Text H
    → Inbox
    → Dict Text H × Fate × Inbox
unfolding get_key_from_hdl contains process_incoming_data
take_message same site hdl now text m box =
    let key = get_key_from_hdl same hdl m in
    let site' = record site { connected = λ k. contains k m } in
    let (fate, box') = process_incoming_data site' true key now text box in
    if is_empty key then (m, failed, box) else (m, fate, box')

-- `theFields["c"]` of a text without a command is empty, which is the command 0.
unfoldable pub on_message {κ} :
    {H : Type κ}
    → (H → H → Bool)
    → Site
    → H
    → ℕ
    → Text
    → Dict Text H
    → Inbox
    → Dict Text H × Fate × Inbox
unfolding find get_fields_and_values atoi_char request_key take_message
on_message same site hdl now text m box =
    maybe (get_fields_and_values site.boost text) (m, failed, box)
      λ fields.
        if nat_beq (atoi_char (maybe (find (codes "c") fields) [] λ c. c)) 1
        then request_key hdl fields m box
        else take_message same site hdl now text m box
