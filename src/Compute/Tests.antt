-- ===== src/Compute/Tests.antt =====
-- A request at a Compute Node, by one host whose code runs and one whose code fails.
use decentralized_cloud.Base.Class.{text_beq}
use decentralized_cloud.Base.Decimal.{skip_spaces, read_digits}
use decentralized_cloud.Base.{
  Text, false, ◌==◌, ◌≡◌, refl, none, some, [], ◌∷◌, ◌++◌, codes, text_eq,
}
use decentralized_cloud.Base.Dict.{find}
use decentralized_cloud.Base.Outcome.{ok, object_of}
use decentralized_cloud.Json.{JsonObject, str, get_text}
use decentralized_cloud.Message.{FieldValueMap}
use decentralized_cloud.Wire.Inbox.{stoll}
use decentralized_cloud.Compute.{
  raw, ComputeNode, Host, field, process_request, compute, read_node_type, code_of, execute_js_code,
  process_state_change_cmds,
}
use decentralized_cloud.Compute.Script.{Engine, returned, answer_of, execute_script, trim_right}
use decentralized_cloud.Compute.Script.Injected.{function_of, execute_script-function_of}
use decentralized_cloud.Compute.Requests.{
  kept_result, fetch_message, result_message, execute_js_code-process_request,
  process_state_change_cmds-execute_js_code,
}

abbrev outcome : JsonObject
outcome = (codes "result", str (codes "42")) ∷ (codes "statechangecmds", str (codes "1 x")) ∷ []

abbrev host : Host
host = record {
  uuid = codes "u1";
  execute_script = λ code input tid. some outcome;
  parse = λ text. some ((codes "code", str text) ∷ []);
  info_hash = λ text. text;
  what = codes "exception";
}

abbrev failing : Host
failing = record host { execute_script = λ code input tid. none }

abbrev request : FieldValueMap
request =
    (codes "tid", codes "t")
    ∷ (codes "txid", codes "x")
    ∷ (codes "tm", codes "9")
    ∷ (codes "co", codes "h")
    ∷ (codes "k", codes "m")
    ∷ (codes "com", codes "0")
    ∷ (codes "s", codes "s")
    ∷ (codes "i", codes "i")
    ∷ []

abbrev reply : FieldValueMap
reply = (codes "txid", codes "u1") ∷ (codes "data", codes "f") ∷ []

abbrev commit : FieldValueMap
commit = (codes "txid", codes "x") ∷ (codes "sid", codes "s2") ∷ []

abbrev idle : ComputeNode
idle = record { rds = []; trs = []; dds = []; sent = [] }

-- What the properties ask of these.
none_known :
    (find host.uuid idle.rds ≡ none) × (find (field (codes "txid") request) idle.trs ≡ none)
unfolding find
none_known = (refl, refl)

same_id : field (codes "txid") reply ≡ host.uuid
unfolding field find text_beq
same_id = refl

parsed : code_of (host.parse (field (codes "data") reply)) ≡ some (codes "f")
unfolding field find text_beq code_of get_text
parsed = refl

results :
    (get_text (codes "result") outcome ≡ some (codes "42"))
    × (get_text (codes "statechangecmds") outcome ≡ some (codes "1 x"))
unfolding find text_beq get_text
results = (refl, refl)

to_compute : read_node_type (field (codes "com") request) ≡ some compute
unfolding field find text_beq read_node_type stoll skip_spaces read_digits
to_compute = refl

same_transaction : field (codes "txid") commit ≡ field (codes "txid") request
unfolding field find text_beq
same_transaction = refl

execute_js_code-process_request_example :
    (n' : ComputeNode) × (execute_js_code host reply (process_request host request idle) ≡ ok n')
    × (n'.rds ≡ [])
    × (find (field (codes "txid") request) n'.trs ≡ some (kept_result request (codes "1 x")))
    × ((id : Text) → (field (codes "txid") request == id) ≡ false → find id n'.trs ≡ none)
    × (n'.sent
        ≡ [] ++ fetch_message host request ∷ [] ++ result_message host request (codes "42") ∷ [])
unfolding find
execute_js_code-process_request_example =
    execute_js_code-process_request host request reply idle (codes "f") none_known.0 same_id parsed
      outcome (codes "42") (codes "1 x") refl results.0 results.1 to_compute

process_state_change_cmds-execute_js_code_example :
    (process_state_change_cmds commit
      (object_of (execute_js_code host reply (process_request host request idle)))).sent
    ≡ []
      ++ fetch_message host request ∷ []
      ++ result_message host request (codes "42") ∷ []
      ++ raw
          (field (codes "sid") commit)
          (codes "txid:" ++ (field (codes "txid") request ++ (codes "|" ++ codes "1 x")))
        ∷ []
process_state_change_cmds-execute_js_code_example =
    process_state_change_cmds-execute_js_code host request reply idle (codes "f") none_known.0
      same_id parsed outcome (codes "42") (codes "1 x") commit refl results.0 results.1 to_compute
      none_known.1 same_transaction refl

-- An engine that knows one input, and gives the name that it is to call.
abbrev echo : Engine
echo = record {
  members = λ text. some ((codes "n", codes "1") ∷ []);
  decode = λ text. text;
  cmd_builder_script = codes " var stateChangeCmds = 0;";
  run = λ code tenant_id. some (λ name. returned name []);
}

execute_script-function_of_example :
    execute_script echo
      (function_of
        (codes "f")
        (codes "a = {}")
        (codes " ")
        (codes " return n; }")
        (codes " return n; }"))
      (codes "e")
      (codes "t")
    ≡ answer_of (returned (codes "f") [])
unfolding trim_right
execute_script-function_of_example =
    execute_script-function_of (codes "f") (codes "a = {}") (codes " ") (codes " return n; }") refl
      refl echo (codes "e") (codes "t") ((codes "n", codes "1") ∷ []) (λ name. returned name [])
      refl refl refl refl refl
