-- ===== src/Message.antt =====
-- What the nodes say to one another and to clients: `CommandType` and `FieldValueMap` of
-- shared/common/types.h, and the calls that leave a node, in the order in which they are made.
use decentralized_cloud.Base.{ℕ, Bool, List, Text}
use decentralized_cloud.Base.Dict.{Dict}
use decentralized_cloud.Json.{JsonObject}

pub data CommandType : Type 0 where
  connection_request code_delivery chose_random_number verification_result : CommandType
  close_block state_change sync_new_block block_request block_response : CommandType
  fetch_function fetch_template fetch_document deterministic_code_delivery : CommandType
  can_commit tx_notification verify_block exception storageurl exe_function : CommandType
  sync_nodes state_change_response : CommandType

-- The numbers of the enumeration, from `connectionRequest=1` on.
unfoldable pub command_number : CommandType → ℕ
command_number connection_request = 1
command_number code_delivery = 2
command_number chose_random_number = 3
command_number verification_result = 4
command_number close_block = 5
command_number state_change = 6
command_number sync_new_block = 7
command_number block_request = 8
command_number block_response = 9
command_number fetch_function = 10
command_number fetch_template = 11
command_number fetch_document = 12
command_number deterministic_code_delivery = 13
command_number can_commit = 14
command_number tx_notification = 15
command_number verify_block = 16
command_number exception = 17
command_number storageurl = 18
command_number exe_function = 19
command_number sync_nodes = 20
command_number state_change_response = 21

abbrev pub FieldValueMap : Type 0
FieldValueMap = Dict Text Text

-- `gossip(channel, cmd, fields)`, `wsServer.send(key, j.dump())`, `dhtPut(key, value, permanent)`,
-- `subscribeTo`, `unsubscribeFrom`, and the write of masternodes.dat.
pub data Effect : Type 0 where
  gossip : Text → CommandType → FieldValueMap → Effect
  ws_send : Text → JsonObject → Effect
  dht_put : Text → Text → Bool → Effect
  subscribe : Text → Effect
  unsubscribe : Text → Effect
  save_elected : Dict Text (List Text) → Effect
