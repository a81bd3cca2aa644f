-- ===== src/Master/Request.antt =====
-- A client's request to run a function (`processCodePacket` of MasterNodeLib.cpp).
use decentralized_cloud.Base.{
  Option, none, some, [], ◌∷◌, ◌++◌, Text, text_eq, codes, if◌then◌else◌, not,
}
use decentralized_cloud.Base.Dict.{find, insert}
use decentralized_cloud.Base.Decimal.{to_string}
use decentralized_cloud.Base.Outcome.{Outcome, ok, thrown}
use decentralized_cloud.Json.{str}
use decentralized_cloud.Message.{gossip, tx_notification, exe_function, command_number}
use decentralized_cloud.Transaction.{
  Transaction, originate, set_master_node_id, set_tenant_id, set_function_id, set_signature,
  set_public_key, set_input,
}
use decentralized_cloud.Transaction.Codec.{to_json}
use decentralized_cloud.Master.State.{Env, Node, emit}
use decentralized_cloud.Master.Ledger.{send_to_client, send_to_verifier, put_back}

pub record Request : Type 0 where
  pub utxid : Text
  pub htxid : Text
  pub tenant_id : Text
  pub code : Text
  pub inputs : Text
  pub signature : Text
  pub public_key : Text

-- What a client signs.
unfoldable signed_message : Text → Text → Text → Text → Text → Text
unfolding to_string command_number
signed_message utxid key tenant code inputs =
    codes "c:"
    ++ (to_string (command_number exe_function)
        ++ (codes "|txid:"
            ++ (utxid
                ++ (codes "|k:"
                    ++ (key
                        ++ (codes "|tid:"
                            ++ (tenant ++ (codes "|h:" ++ (code ++ (codes "|i:" ++ inputs))))))))))

-- The transaction of a request, with the GUID that was drawn for it.
unfoldable new_transaction : Env → Request → Node → Transaction
unfolding originate set_master_node_id set_tenant_id set_function_id set_signature set_public_key
    set_input
new_transaction env r n = set_input r.inputs (
    set_public_key r.public_key (
      set_signature r.signature (
        set_function_id r.code
          (set_tenant_id r.tenant_id (set_master_node_id env.node_id (originate env.guid n.now))))))

-- The entry of the map is notified to the 21 as it stands, and sent to a verifier; the dump may throw.
notify_and_send : Env → Request → Option Transaction → Node → Outcome Node
unfolding emit to_json send_to_verifier put_back
notify_and_send env r none n = thrown n
notify_and_send env r (some tx) n =
    let notified =
      emit
        (gossip (codes "master21") tx_notification
          ((codes "utxid", r.htxid) ∷ (codes "tx", env.dump (to_json tx)) ∷ []))
        n in
    if env.dumps (to_json tx)
    then put_back env.guid (send_to_verifier env (tx, notified))
    else thrown n

-- The request is dropped if the signature does not verify, and refused by a node that is not one of
-- the 21. `insert` keeps the entry that is there, should the GUID be one.
unfoldable pub process_code_packet : Env → Request → Node → Outcome Node
unfolding signed_message new_transaction notify_and_send find insert send_to_client
process_code_packet env r n =
    let message = signed_message r.utxid r.public_key r.tenant_id r.code r.inputs in
    let stored = record n {
      transactions = insert env.guid (new_transaction env r n) n.transactions;
    } in
    if not (env.verify_ed25519 message r.public_key r.signature)
    then ok n
    else if not n.subscribed_to21
    then send_to_client env r.public_key
        ((
          codes "error",
          str (
              codes
                "Sorry,You are hitting a Master Node that is not in m21; please hit the right one"),
        )
          ∷ (codes "txid", str r.htxid)
          ∷ [])
        n
    else notify_and_send env r (find env.guid stored.transactions) stored
