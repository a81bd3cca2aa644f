-- ===== src/Wire/Delivery.antt =====
-- How a text gets from one node to another: the second `gossip`, `sendMessageWithRetry`, `dhtGet` and
-- `dataHandler` of BlockChainCommon/functions.cpp, with OpenDHT as the protocol.
pub mod Reading
pub mod Received
pub mod Joined
use decentralized_cloud.Base.{
  ℕ, zero, suc, ◌+◌, ◌*◌, Bool, true, false, List, [], ◌∷◌, ◌++◌, Text, nat_beq, ltb, is_empty,
  codes, if◌then◌else◌,
}
use decentralized_cloud.Base.Decimal.{to_string}
use decentralized_cloud.Wire.Inbox.{Inbox, Site, Fate, dropped, process_incoming_data}

-- What a node asks OpenDHT for: a value that is put, a message to a channel, and a pause before another
-- try.
pub data Call : Type 0 where
  put : Text → Text → Call
  put_signed : Text → Text → Call
  sleep_ms : ℕ → Call

-- `ok` is what the callback of each try gets. Two tries follow the first one at most.
unfoldable send_message_with_retry : ℕ → (ℕ → Bool) → Text → Text → ℕ → List Call
send_message_with_retry zero ok channel packet tries = []
send_message_with_retry (suc fuel) ok channel packet tries =
    let again =
      sleep_ms (500 * (tries + 1)) ∷ send_message_with_retry fuel ok channel packet (tries + 1) in
    put_signed channel packet ∷ (if ok tries then [] else if ltb tries 2 then again else [])

-- What `gossip` does with the text that is sent, under a nonce that is drawn.
unfoldable gossip_text : (ℕ → Bool) → Text → ℕ → Text → List Call
unfolding send_message_with_retry
gossip_text ok channel id text =
    let nonce = to_string id in
    put nonce text ∷ send_message_with_retry 3 ok channel (b'g' ∷ nonce) 0

-- The last of the values that the table answers with.
unfoldable pub last_or_empty : List Text → Text
last_or_empty [] = []
last_or_empty (v ∷ []) = v
last_or_empty (v ∷ w ∷ vs) = last_or_empty (w ∷ vs)

-- A text that was fetched, with its nonce behind it.
unfoldable pub take_fetched : Site → Text → Text → Inbox → Fate × Inbox
unfolding process_incoming_data
take_fetched site nonce text box =
    let more = codes "|nonce:" ++ nonce in
    if is_empty text
    then (dropped, box)
    else process_incoming_data site false [] 0 (text ++ more) box

-- `get` gives the values of a key. Only a packet that begins with `g` does anything.
unfoldable pub data_handler : Site → (Text → List Text) → Text → Inbox → Fate × Inbox
unfolding last_or_empty take_fetched
data_handler site get [] box = (dropped, box)
data_handler site get (c ∷ nonce) box =
    if nat_beq c b'g'
    then take_fetched site nonce (last_or_empty (get nonce)) box
    else (dropped, box)
