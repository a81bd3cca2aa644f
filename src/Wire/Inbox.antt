-- ===== src/Wire/Inbox.antt =====
-- What a node does with a message that arrives (`processIncomingData` of
-- BlockChainCommon/functions.cpp, with OpenDHT as the protocol).
pub mod Once
use decentralized_cloud.Base.{
  ℕ, zero, suc, ◌+◌, ◌-◌, ◌*◌, ◌%◌, ◌^◌, Option, none, some, Bool, true, false, not, ◌&&◌, ◌||◌,
  List, [], ◌∷◌, ◌++◌, Text, text_eq, ◌==◌, nat_beq, ltb, leb, codes, if◌then◌else◌,
}
use decentralized_cloud.Base.Decimal.{is_digit, read_digits, skip_spaces, to_string}
use decentralized_cloud.Base.Dict.{find, insert, assign}
use decentralized_cloud.Json.{JsonObject, str}
use decentralized_cloud.Message.{FieldValueMap, Effect, ws_send, gossip, sync_nodes}
use decentralized_cloud.Peers.{Peers, master_node, add_node}
use decentralized_cloud.Peers.Sync.{build_sync_nodes_input}
use decentralized_cloud.Wire.{Boost, get_fields_and_values}

-- A number with its sign; `true` is minus.
abbrev pub Signed : Type 0
Signed = Bool × ℕ

unfoldable pub leading : Text → Option ℕ
unfolding read_digits
leading [] = none
leading (c ∷ s) = if is_digit c then some (read_digits 0 (c ∷ s)) else none

unfoldable pub read_sign : Text → Bool × Text
read_sign [] = (false, [])
read_sign (c ∷ s) =
    if nat_beq c b'-' then (true, s) else if nat_beq c b'+' then (false, s) else (false, c ∷ s)

-- `std::stoll`, which throws without a digit and past 64 bits.
unfoldable pub stoll : Text → Option Signed
unfolding skip_spaces read_sign leading
stoll text =
    let (minus, s) = read_sign (skip_spaces text) in
    elim (leading s) [
      | none ↦ none
      | some n ↦ if leb n (if minus then 2 ^ 63 else 2 ^ 63 - 1) then some (minus, n) else none
    ]

-- `static_cast<char>(atoi(text))` as a number below 256: zero without a digit. A text past 32 bits has
-- no defined result in the source.
unfoldable pub atoi_char : Text → ℕ
unfolding skip_spaces read_sign leading
atoi_char text =
    let (minus, s) = read_sign (skip_spaces text) in
    elim (leading s) [ none ↦ 0 | some n ↦ if minus then (256 - n % 256) % 256 else n % 256 ]

-- What the node knows that a message arrives at, and `processedMessages`.
pub record Inbox : Type 0 where
  pub processed : List Text
  pub peers : Peers
  pub sent : List Effect

-- The surroundings: `dhtNode.getId().toString()`, `appStartupTime`, the connected clients, and the text
-- that `InfoHash::get(...).toString()` gives for a client's message, and `json::dump`.
pub record Site : Type 0 where
  pub boost : Boost
  pub id : Text
  pub app_startup : ℕ
  pub connected : Text → Bool
  pub reference : Text → Text → Text
  pub dump : JsonObject → Text

-- What becomes of a message: it is dropped without an error, an exception is logged, a node is added, or
-- the handler of a command, if there is one, gets the fields.
pub data Fate : Type 0 where
  dropped : Fate
  failed : Fate
  added : Fate
  handled : ℕ → FieldValueMap → Fate

abbrev pub member : Text → List Text → Bool
member m [] = false
member m (x ∷ xs) = x == m || member m xs

-- `theFields.at(key)`, which throws.
abbrev pub with_field : Text → FieldValueMap → Inbox → (Text → Fate × Inbox) → Fate × Inbox
with_field key fields box k = elim (find key fields) [ none ↦ (failed, box) | some v ↦ k v ]

-- The end of `addNode`: a new master node is told of the nodes, those of before and itself.
unfoldable pub greet : Site → Text → ℕ → Peers → List Effect
unfolding build_sync_nodes_input
greet site key type peers =
    if nat_beq type master_node
    then gossip key sync_nodes ((codes "d", build_sync_nodes_input site.dump peers) ∷ []) ∷ []
    else []

-- `addNode`
unfoldable pub add_and_greet : Site → Text → Text → ℕ → Inbox → Inbox
unfolding add_node greet
add_and_greet site key uri type box =
    let peers = add_node key uri type box.peers in
    record box { peers = peers; sent = box.sent ++ greet site key type peers }

-- The node of a connection request.
unfoldable pub connect : Site → FieldValueMap → Inbox → Fate × Inbox
unfolding find atoi_char add_and_greet
connect site fields box = with_field (codes "k") fields box λ key.
    with_field (codes "t") fields box λ type.
      with_field (codes "u") fields box
        λ uri. (added, add_and_greet site key uri (atoi_char type) box)

-- From the field `ws` on. `insert` keeps a field that is there.
unfoldable pub dispatch : Site → Bool → Text → FieldValueMap → Inbox → Fate × Inbox
unfolding insert find atoi_char connect
dispatch site web key fields box =
    let fields' = insert (codes "ws") (if web then codes "1" else codes "0") fields in
    with_field (codes "c") fields' box λ c.
      let fields'' = insert (codes "k") key fields' in
      if nat_beq (atoi_char c) 1
      then connect site fields'' box
      else (handled (atoi_char c) fields'', box)

-- A message of another node, which is handled once.
unfoldable pub once : Site → Text → FieldValueMap → Inbox → Fate × Inbox
unfolding find dispatch
once site key fields box = with_field (codes "msgid") fields box λ id.
    if member id box.processed
    then (dropped, box)
    else dispatch site false key fields (record box { processed = id ∷ box.processed })

-- A message of a client, which is acknowledged; the send throws if the client is gone.
unfoldable pub acknowledge : Site → Text → FieldValueMap → Inbox → Fate × Inbox
unfolding find assign dispatch
acknowledge site key fields box = with_field (codes "tm") fields box λ time.
    with_field (codes "txid") fields box λ txid.
      let ref = site.reference key time in
      let fields' = assign (codes "txid") ref (assign (codes "utxid") txid fields) in
      let ack =
        (codes "type", str (codes "ack")) ∷ (codes "id", str ref) ∷ (codes "txid", str txid) ∷ [] in
      if site.connected key
      then dispatch site true key fields' (record box { sent = box.sent ++ ws_send key ack ∷ [] })
      else (failed, box)

-- The time of the message: the field's, or the one that came with it, which is put into the fields.
unfoldable pub time_of : ℕ → FieldValueMap → Option (Signed × FieldValueMap)
unfolding find insert stoll
time_of timestamp fields = elim (find (codes "tm") fields) [
  | none ↦ some ((false, timestamp), insert (codes "tm") (to_string timestamp) fields)
  | some text ↦ elim (stoll text) [ none ↦ none | some t ↦ some (t, fields) ]
]

-- Before the start of the node: `appStartupTime > timestamp`.
abbrev pub is_old : ℕ → Signed → Bool
is_old start (minus, n) = ltb n start || (minus && (ltb 0 n || ltb 0 start))

unfoldable pub take_timely :
    Site → Bool → Text → Option (Signed × FieldValueMap) → Inbox → Fate × Inbox
unfolding once acknowledge
take_timely site web key none box = (failed, box)
take_timely site web key (some (time, fields)) box =
    if is_old site.app_startup time
    then (dropped, box)
    else if web
    then acknowledge site key fields box
    else once site key fields box

unfoldable pub take_fields : Site → Bool → Text → ℕ → Option FieldValueMap → Inbox → Fate × Inbox
unfolding find time_of take_timely
take_fields site web key timestamp none box = (failed, box)
take_fields site web key timestamp (some fields) box =
    let go_on = take_timely site web key (time_of timestamp fields) box in
    if web
    then go_on
    else with_field (codes "k") fields box
        λ sender. if sender == site.id then (dropped, box) else go_on

unfoldable pub process_incoming_data : Site → Bool → Text → ℕ → Text → Inbox → Fate × Inbox
unfolding get_fields_and_values take_fields
process_incoming_data site web key timestamp text box =
    take_fields site web key timestamp (get_fields_and_values site.boost text) box
