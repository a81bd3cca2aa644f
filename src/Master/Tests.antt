-- ===== src/Master/Tests.antt =====
-- A Master Node and its surroundings on concrete values.
mod Rounds
mod Calls
use decentralized_cloud.Base.{ℕ, true, false, Option, none, [], ◌∷◌, ◌++◌, Text, codes}
use decentralized_cloud.Base.Sort.{sort_by}
use decentralized_cloud.Block.{initial_chain}
use decentralized_cloud.Json.{JsonObject}
use decentralized_cloud.Peers.{no_peers}
use decentralized_cloud.Master.State.{Env, Node, Voter}

abbrev pub me : Text
me = codes "id0"

-- Signatures of one character that always verify, a table that knows nothing, no client.
abbrev pub world : Env
world = record {
  node_id = me;
  node_key = codes "key0";
  sign = λ text. 70 ∷ [];
  verify_x509 = λ text signature key. true;
  verify_ed25519 = λ text key signature. true;
  is_public_key = λ key. true;
  long_max = 2147483647;
  base64_encode = λ text. text;
  base64_decode = λ text. text;
  hash = λ text. 104 ∷ text;
  dht_get = λ key. [];
  dump = λ j. codes "{}";
  dumps = λ j. true;
  parse = λ text. none;
  connected = λ key. false;
  uniform = λ a b. a;
  guid = codes "T1";
  sort_voters = sort_by (λ v. v.number);
  sort_transactions = sort_by (λ t. t.timestamp);
}

abbrev pub fresh : Node
fresh = record {
  now = 1700;
  next_voting_timestamp_str = codes "3300";
  ignore_this_voting_round = false;
  in_voting_phase = false;
  subscribed_to21 = false;
  random_numbers = [];
  block_producers = [];
  elected_master_nodes = [];
  transactions = [];
  queue_out = [];
  block_storage_node = [];
  state_change_storage_node = [];
  base64encoded_key = [];
  blocks = [];
  chain = initial_chain;
  peers = no_peers;
  last_round_timestamp = 1700;
  last_cleanup_time = 1700;
  sent = [];
}

abbrev pub voter : Text → ℕ → Voter
voter key number = record { signature = 70 ∷ []; public_key = key; number = number; valid = true }
