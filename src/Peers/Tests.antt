-- ===== src/Peers/Tests.antt =====
-- The nodes that connect, on concrete values.
use decentralized_cloud.Base.{
  zero, suc, none, ◌∷◌, ◌++◌, [], ap, refl, length, take, drop, nat_beq, if◌then◌else◌, ℕ, Option,
  ◌≡◌, some, Text, codes, arith,
}
use decentralized_cloud.Base.Dict.{insert, find}
use decentralized_cloud.Peers.{
  Peers, BlockChainNode, NodesMap, add_verifier, no_peers, verifier_node, storage_node, add_node,
}
use decentralized_cloud.Base.Outcome.{ok}
use decentralized_cloud.Json.{JsonObject, JsonValue, str, num}
use decentralized_cloud.Peers.Sync.{build_sync_nodes_input, sync_nodes}
use decentralized_cloud.Peers.Sync.Laws.{JsonLaws, DistinctKeys, Utf8Nodes}
use decentralized_cloud.Peers.Sync.Added.{Joined}
use decentralized_cloud.Peers.Sync.RoundTrip.{sync_nodes-build_sync_nodes_input}
use mathlib.Core.List.{Permᴰ}
use mathlib.Core.List.Permᴰ
use decentralized_cloud.Peers.Keys.{Covers}

abbrev a_verifier : BlockChainNode
a_verifier = record {
  public_key = codes "v1";
  uri = codes "udp/10.0.0.1:4222";
  type = verifier_node;
}

no_peers-Covers : Covers no_peers
no_peers-Covers = record { verifiers = omega arith; storage = omega arith }

abbrev one_verifier : Peers
one_verifier = add_node (codes "v1") (codes "udp/10.0.0.1:4222") verifier_node no_peers

-- A text form of objects: the number of members, and each with the lengths of its texts.
members : JsonObject → Text
members [] = []
members ((key, str s) ∷ j) = length key ∷ (key ++ 0 ∷ length s ∷ (s ++ members j))
members ((key, num n) ∷ j) = length key ∷ (key ++ 1 ∷ n ∷ members j)

write_object : JsonObject → Text
unfolding members
write_object j = length j ∷ members j

read_value : Text → Option (JsonValue × Text)
read_value [] = none
read_value (tag ∷ []) = none
read_value (tag ∷ n ∷ t) =
    if nat_beq tag 0 then some (str (take n t), drop n t) else some (num n, t)

read_members : ℕ → Text → Option JsonObject
unfolding read_value
read_members zero t = some []
read_members (suc count) [] = none
read_members (suc count) (len ∷ t) = elim (read_value (drop len t)) [
  | none ↦ none
  | some (v, rest) ↦ elim (read_members count rest) [
    | none ↦ none
    | some j ↦ some ((take len t, v) ∷ j)
  ]
]

read_object : Text → Option JsonObject
unfolding read_members
read_object [] = none
read_object (count ∷ t) = read_members count t

take-whole : (s t : Text) → take (length s) (s ++ t) ≡ s
take-whole [] t = refl
take-whole (c ∷ s) t = ap (λ r. c ∷ r) (take-whole s t)

drop-whole : (s t : Text) → drop (length s) (s ++ t) ≡ t
drop-whole [] t = refl
drop-whole (c ∷ s) t = drop-whole s t

read_members-members : (j : JsonObject) → read_members (length j) (members j) ≡ some j
unfolding read_members members read_value
read_members-members [] = refl
read_members-members ((key, str s) ∷ j) = ground (
  arith,
  take-whole key (0 ∷ length s ∷ (s ++ members j)),
  drop-whole key (0 ∷ length s ∷ (s ++ members j)),
  take-whole s (members j),
  drop-whole s (members j),
  read_members-members j,
)
read_members-members ((key, num n) ∷ j) = ground (
  arith,
  take-whole key (1 ∷ n ∷ members j),
  drop-whole key (1 ∷ n ∷ members j),
  read_members-members j,
)

read_object-write_object : (j : JsonObject) → read_object (write_object j) ≡ some j
unfolding read_object write_object
read_object-write_object j = read_members-members j

abbrev one_storage : Peers
one_storage = add_node (codes "s1") (codes "udp/10.0.0.2:4222") storage_node no_peers

write_object-JsonLaws : JsonLaws (λ text. Unit {0}) write_object read_object
write_object-JsonLaws = record {
  ascii = λ text plain. tt;
  dumped = λ j clean. tt;
  read = λ j clean once. record {
    object = j;
    parsed = read_object-write_object j;
    order = Permᴰ.refl j;
    members = λ key. refl;
  };
}

one_verifier-once : DistinctKeys one_verifier.verifier_nodes
unfolding find add_node add_verifier insert
one_verifier-once = (refl, tt)

one_verifier-Utf8 : Utf8Nodes (λ text. Unit {0}) one_verifier.verifier_nodes
unfolding add_node add_verifier insert
one_verifier-Utf8 = ((tt, tt, tt), tt)

sync_nodes-build_sync_nodes_input_example :
    (m : NodesMap) × (v : NodesMap) × (s : NodesMap) × (q' : Peers) × Permᴰ m []
    × Permᴰ v ((codes "v1", a_verifier) ∷ [])
    × Permᴰ s []
    × (sync_nodes read_object (build_sync_nodes_input write_object one_verifier) one_storage
        ≡ ok q')
    × Joined m v s one_storage q'
unfolding add_node add_verifier insert
sync_nodes-build_sync_nodes_input_example =
    sync_nodes-build_sync_nodes_input (λ text. Unit {0}) write_object read_object
      write_object-JsonLaws one_verifier tt one_verifier-Utf8 tt tt one_verifier-once tt one_storage
