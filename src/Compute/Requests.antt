-- ===== src/Compute/Requests.antt =====
-- The course of a request at a Compute Node (ComputeNode/main.cpp).
use decentralized_cloud.Base.{
  ◌≡◌, refl, ap, ◌∙◌, false, Option, none, some, [], ◌∷◌, ◌++◌, is_empty, Text, codes, text_eq,
  ==_self, maybe, ◌==◌, arith,
}
use decentralized_cloud.Base.Dict.{Dict, find, insert, find-insert, erase-insert}
use decentralized_cloud.Base.Outcome.{ok, object_of}
use decentralized_cloud.Json.{JsonObject, get_text}
use decentralized_cloud.Message.{FieldValueMap, fetch_function, verification_result, exception}
use decentralized_cloud.Compute.{
  RequestData, TransactionResult, Message, command, raw, ComputeNode, Host, field, tell, request_of,
  process_request, compute, read_node_type, send_result, run_request, conclude, code_of,
  execute_js_code, process_state_change_cmds,
}

-- The result that a node keeps for its request's transaction.
abbrev pub kept_result : FieldValueMap → Text → TransactionResult
kept_result fields cmds = record {
  tx_id = field (codes "txid") fields;
  timestamp = field (codes "tm") fields;
  result = [];
  deterministic_code = [];
  state_change_cmds = cmds;
}

abbrev pub fetch_message : Host → FieldValueMap → Message
fetch_message host fields = command (field (codes "s") fields) fetch_function (
    (codes "txid", host.uuid)
    ∷ (codes "h", field (codes "co") fields)
    ∷ (codes "tid", field (codes "tid") fields)
    ∷ [])

abbrev pub result_message : Host → FieldValueMap → Text → Message
result_message host fields result = command (codes "master21") verification_result (
    (codes "txid", field (codes "txid") fields)
    ∷ (codes "o", result)
    ∷ (codes "h", host.info_hash result)
    ∷ [])

find_inserted :
    (id : Text) (rq : RequestData) (rds : Dict Text RequestData)
    → find id rds ≡ none
    → find id (insert id rq rds) ≡ some rq
find_inserted id rq rds fresh = find-insert id id rq rds ∙ rw (==_self id, fresh) refl

module _ (host : Host) (fields reply : FieldValueMap) (n : ComputeNode) (code : Text)
    (fresh : find host.uuid n.rds ≡ none) (id : field (codes "txid") reply ≡ host.uuid)
    (coded : code_of (host.parse (field (codes "data") reply)) ≡ some code) where
  execute_found :
      execute_js_code host reply (process_request host fields n)
      ≡ ok (
          conclude host host.uuid
            (request_of host fields)
            (run_request host (request_of host fields) code (process_request host fields n))
            (process_request host fields n))
  unfolding execute_js_code process_request tell
  execute_found =
      rw (coded, id) (rw (find_inserted host.uuid (request_of host fields) n.rds fresh) refl)

  conclude_run :
      (o : Option ComputeNode)
      → run_request host (request_of host fields) code (process_request host fields n) ≡ o
      → execute_js_code host reply (process_request host fields n)
        ≡ ok (conclude host host.uuid (request_of host fields) o (process_request host fields n))
  conclude_run o e =
      execute_found
      ∙ ap
          (λ o.
            ok (conclude host host.uuid (request_of host fields) o (process_request host fields n)))
          e

  module _ (j : JsonObject) (result cmds : Text)
      (e_run : host.execute_script code (field (codes "i") fields) (field (codes "tid") fields)
        ≡ some j)
      (e_result : get_text (codes "result") j ≡ some result)
      (e_cmds : get_text (codes "statechangecmds") j ≡ some cmds)
      (e_type : read_node_type (field (codes "com") fields) ≡ some compute) where
    execute_committed :
        execute_js_code host reply (process_request host fields n)
        ≡ ok (record n {
          trs = insert (field (codes "txid") fields) (kept_result fields cmds) n.trs;
          sent = n.sent ++ fetch_message host fields ∷ [] ++ result_message host fields result ∷ [];
        })
    unfolding run_request send_result conclude process_request request_of tell
    execute_committed =
        conclude_run
          (send_result host (request_of host fields) j result compute
            (process_request host fields n))
          (rw e_run (rw (e_result, e_type) refl))
        ∙ rw e_cmds (rw (erase-insert host.uuid (request_of host fields) n.rds fresh) refl)

    -- A node takes a request to run a function under a new UUID, and the Storage Node answers with code
    -- that parses. If the node is to commit and the code runs to a result and state changes, the request
    -- is forgotten; under the transaction stands an earlier result of it, if the node had one, and else
    -- one with these state changes; the results of other transactions are as before; and what was sent
    -- is the one question for the function and the one result with its hash.
    pub execute_js_code-process_request :
        (n' : ComputeNode) × (execute_js_code host reply (process_request host fields n) ≡ ok n')
        × (n'.rds ≡ n.rds)
        × (find (field (codes "txid") fields) n'.trs
            ≡ maybe
                (find (field (codes "txid") fields) n.trs)
                (some (kept_result fields cmds))
                some)
        × ((id : Text)
            → (field (codes "txid") fields == id) ≡ false
            → find id n'.trs ≡ find id n.trs)
        × (n'.sent
            ≡ n.sent ++ fetch_message host fields ∷ [] ++ result_message host fields result ∷ [])
    execute_js_code-process_request =
        let id = field (codes "txid") fields in
        (
          _,
          execute_committed,
          refl,
          ground (arith, find-insert id id (kept_result fields cmds) n.trs, ==_self id),
          λ other ne. ground (arith, find-insert id other (kept_result fields cmds) n.trs, ne),
          refl,
        )

  -- When the node may then commit a transaction it had no result of, and the code had state changes,
  -- the Storage Node that is named gets them, with the id of the transaction, and nothing else is sent.
  pub process_state_change_cmds-execute_js_code :
      (j : JsonObject) (result cmds : Text) (commit : FieldValueMap)
      → host.execute_script code (field (codes "i") fields) (field (codes "tid") fields) ≡ some j
      → get_text (codes "result") j ≡ some result
      → get_text (codes "statechangecmds") j ≡ some cmds
      → read_node_type (field (codes "com") fields) ≡ some compute
      → find (field (codes "txid") fields) n.trs ≡ none
      → field (codes "txid") commit ≡ field (codes "txid") fields
      → is_empty cmds ≡ false
      → (process_state_change_cmds commit
          (object_of (execute_js_code host reply (process_request host fields n)))).sent
        ≡ n.sent
          ++ fetch_message host fields ∷ []
          ++ result_message host fields result ∷ []
          ++ raw
              (field (codes "sid") commit)
              (codes "txid:" ++ (field (codes "txid") fields ++ (codes "|" ++ cmds)))
            ∷ []
  unfolding process_state_change_cmds tell
  process_state_change_cmds-execute_js_code j result cmds commit e_run e_result e_cmds e_type
        unknown same some_cmds =
      ap (λ o. (process_state_change_cmds commit (object_of o)).sent)
        (execute_committed j result cmds e_run e_result e_cmds e_type)
      ∙ rw
          (
            same,
            find-insert (field (codes "txid") fields) (field (codes "txid") fields)
                (kept_result fields cmds) n.trs,
          )
          (rw (==_self (field (codes "txid") fields), unknown) (rw some_cmds refl))

  -- If the code fails instead, the sender is told, and the request stays in the node's map.
  execute_js_code-fails :
      host.execute_script code (field (codes "i") fields) (field (codes "tid") fields) ≡ none
      → execute_js_code host reply (process_request host fields n)
        ≡ ok (record n {
          rds = insert host.uuid (request_of host fields) n.rds;
          sent =
              n.sent
              ++ fetch_message host fields ∷ []
              ++ command
                  (field (codes "k") fields)
                  exception
                  ((codes "txid", field (codes "txid") fields) ∷ (codes "e", host.what) ∷ [])
                ∷ [];
        })
  unfolding run_request conclude process_request request_of tell
  execute_js_code-fails e_run = conclude_run none (rw e_run refl)
