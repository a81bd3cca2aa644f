-- ===== src/Compute.antt =====
-- ComputeNode/main.cpp: a Compute Node fetches the function of a request, runs it, sends the result or
-- its hash to the Master Nodes, and hands the state changes to a Storage Node when it may commit.
pub mod Requests
pub mod Script
pub mod Tests
use decentralized_cloud.Base.{
  ℕ, ◌^◌, ◌-◌, Bool, true, false, Option, none, some, List, [], ◌∷◌, ◌++◌, leb, nat_beq,
  if◌then◌else◌, is_empty, Text, codes, text_eq,
}
use decentralized_cloud.Base.Tests.{maybe}
use decentralized_cloud.Base.Dict.{Dict, find, insert, assign, erase}
use decentralized_cloud.Base.Outcome.{Outcome, ok, thrown}
use decentralized_cloud.Json.{JsonObject, get_text}
use decentralized_cloud.Message.{
  FieldValueMap, CommandType, fetch_function, verification_result, exception, state_change_response,
}
use decentralized_cloud.Wire.Inbox.{stoll}

-- `class RequestData`
pub record RequestData : Type 0 where
  pub req_id : Text
  pub tx_id : Text
  pub timestamp : Text
  pub input : Text
  pub tenant_id : Text
  pub hash : Text
  pub channel_id : Text
  pub node_type : Text
  pub storage_node : Text

-- `class TransactionResult`
pub record TransactionResult : Type 0 where
  pub tx_id : Text
  pub timestamp : Text
  pub result : Text
  pub deterministic_code : Text
  pub state_change_cmds : Text

-- What a Compute Node sends: `gossip` of a command with its fields, and of a text as it is.
pub data Message : Type 0 where
  command : Text → CommandType → FieldValueMap → Message
  raw : Text → Text → Message

-- The maps `rds`, `trs` and `dds`, and what was sent, the oldest first.
pub record ComputeNode : Type 0 where
  pub rds : Dict Text RequestData
  pub trs : Dict Text TransactionResult
  pub dds : Dict Text Text
  pub sent : List Message

-- The UUID of a new request, the JavaScript host (`executeScript` with the code, the input and the
-- tenant; `none` is an exception), JSON texts, `InfoHash::get(text).toString()`, and the text of a
-- caught exception.
pub record Host : Type 0 where
  pub uuid : Text
  pub execute_script : Text → Text → Text → Option JsonObject
  pub parse : Text → Option JsonObject
  pub info_hash : Text → Text
  pub what : Text

-- `theFields[name]`
abbrev or_empty : Option Text → Text
or_empty none = []
or_empty (some v) = v

unfoldable pub field : Text → FieldValueMap → Text
unfolding find
field name fields = or_empty (find name fields)

unfoldable pub tell : Message → ComputeNode → ComputeNode
tell m n = record n { sent = n.sent ++ m ∷ [] }

unfoldable pub request_of : Host → FieldValueMap → RequestData
unfolding field
request_of host fields = record {
  req_id = host.uuid;
  tx_id = field (codes "txid") fields;
  timestamp = field (codes "tm") fields;
  input = field (codes "i") fields;
  tenant_id = field (codes "tid") fields;
  hash = field (codes "co") fields;
  channel_id = field (codes "k") fields;
  node_type = field (codes "com") fields;
  storage_node = field (codes "s") fields;
}

unfoldable pub process_request : Host → FieldValueMap → ComputeNode → ComputeNode
unfolding field request_of insert tell
process_request host fields n =
    tell
      (command (field (codes "s") fields) fetch_function (
        (codes "txid", host.uuid)
        ∷ (codes "h", field (codes "co") fields)
        ∷ (codes "tid", field (codes "tid") fields)
        ∷ []))
      (record n { rds = insert host.uuid (request_of host fields) n.rds })

-- `enum class NodeType`
pub data NodeType : Type 0 where
  compute verifier other_type : NodeType

-- `static_cast<NodeType>(std::stoi(text))`; a number that is neither is a type that the switch ignores.
unfoldable pub read_node_type : Text → Option NodeType
unfolding stoll
read_node_type text = elim (stoll text) [
  | none ↦ none
  | some (minus, n) ↦
      if leb n (if minus then 2 ^ 31 else 2 ^ 31 - 1)
      then some (
          if nat_beq n 0
          then compute
          else if minus
          then other_type
          else if nat_beq n 1
          then verifier
          else other_type)
      else none
]

-- The message of a result, and for the node that is to commit what it remembers; `none` is an
-- exception.
unfoldable pub send_result :
    Host → RequestData → JsonObject → Text → NodeType → ComputeNode → Option ComputeNode
unfolding get_text insert tell
send_result host rq j result compute n = maybe (get_text (codes "statechangecmds") j) none (λ cmds.
    let transaction_result : TransactionResult = record {
      tx_id = rq.tx_id;
      timestamp = rq.timestamp;
      result = [];
      deterministic_code = [];
      state_change_cmds = cmds;
    } in
    some (
      tell
        (command (codes "master21") verification_result (
          (codes "txid", rq.tx_id) ∷ (codes "o", result) ∷ (codes "h", host.info_hash result) ∷ []))
        (record n { trs = insert rq.tx_id transaction_result n.trs })))
send_result host rq j result verifier n = some (
    tell
      (command (codes "master21") verification_result
        ((codes "txid", rq.tx_id) ∷ (codes "h", host.info_hash result) ∷ []))
      n)
send_result host rq j result other_type n = some n

-- The part of `executeJsCode` whose exceptions are caught.
unfoldable pub run_request : Host → RequestData → Text → ComputeNode → Option ComputeNode
unfolding get_text read_node_type send_result
run_request host rq code n = maybe (host.execute_script code rq.input rq.tenant_id) none (λ j.
    maybe (get_text (codes "result") j) none (λ result.
      maybe (read_node_type rq.node_type) none (λ type. send_result host rq j result type n)))

-- A run that ended forgets the request; one that failed tells the sender.
unfoldable pub conclude : Host → Text → RequestData → Option ComputeNode → ComputeNode → ComputeNode
unfolding erase tell
conclude host req_id rq (some done) n = record done { rds = erase req_id done.rds }
conclude host req_id rq none n =
    tell (command rq.channel_id exception ((codes "txid", rq.tx_id) ∷ (codes "e", host.what) ∷ []))
      n

unfoldable pub code_of : Option JsonObject → Option Text
unfolding get_text
code_of none = none
code_of (some j) = get_text (codes "code") j

unfoldable pub execute_js_code : Host → FieldValueMap → ComputeNode → Outcome ComputeNode
unfolding field find code_of run_request conclude
execute_js_code host fields n =
    maybe (code_of (host.parse (field (codes "data") fields))) (thrown n) (λ code.
      maybe (find (field (codes "txid") fields) n.rds) (ok n)
        (λ rq. ok (conclude host (field (codes "txid") fields) rq (run_request host rq code n) n)))

unfoldable pub process_state_change_cmds : FieldValueMap → ComputeNode → ComputeNode
unfolding field find tell
process_state_change_cmds fields n = maybe (find (field (codes "txid") fields) n.trs) n (λ result.
    if is_empty result.state_change_cmds
    then n
    else tell
        (raw (field (codes "sid") fields) (
          codes "txid:"
          ++ (field (codes "txid") fields ++ (codes "|" ++ result.state_change_cmds))))
        n)

unfoldable update_document_map : FieldValueMap → ComputeNode → ComputeNode
unfolding field assign
update_document_map fields n = record n {
  dds = assign (field (codes "txid") fields) (field (codes "data") fields) n.dds;
}

-- The handler of `stateChange`.
unfoldable handle_state_change : FieldValueMap → ComputeNode → ComputeNode
unfolding field tell
handle_state_change fields = tell (
    command (codes "master21") state_change_response (
      (codes "id", field (codes "id") fields)
      ∷ (codes "txid", field (codes "txid") fields)
      ∷ (codes "data", field (codes "data") fields)
      ∷ []))
