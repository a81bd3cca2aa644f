-- ===== src/Storage/Tests/Storing.antt =====
-- A daemon whose hashes are the objects themselves, a table that keeps the last value, and what the
-- properties of a Storage Node say there.
pub mod Blocks
pub mod Changes
use decentralized_cloud.Base.Class.{text_beq}
use decentralized_cloud.Base.{
  ℕ, ◌+◌, ◌≡◌, refl, sym, ap, ◌∙◌, Bool, true, false, Option, none, some, List, [], ◌∷◌, ◌++◌, Text,
  codes, text_eq, ◌==◌, if◌then◌else◌, is_empty, arith,
}
use decentralized_cloud.Base.Decimal.{to_string}
use decentralized_cloud.Base.Dict.{Dict, find, assign, find-assign}
use decentralized_cloud.Json.{JsonObject, str, get_text}
use decentralized_cloud.Message.{FieldValueMap, fetch_function, exception, state_change, gossip}
use mathlib.Core.List.{Perm}
use decentralized_cloud.Storage.World.{
  BlockJson, Env, World, returned, thrown, world_of, dht_get, dht_put, emit, add_object,
  add_object_and_link, add_link, send,
}
use decentralized_cloud.Base.Sort.{insert_by}
use decentralized_cloud.Storage.Kept.{Laws, Stored}
use decentralized_cloud.Storage.Trees.{
  function_tree, data_tree, joined, object_key, root_key, link_to_root, add_child_node,
  fetch_function_of,
}
use decentralized_cloud.Storage.Trees.Fetched.{fetch_function_of-add_child_node}
use decentralized_cloud.Storage.Commits.{
  BlockQueue, add_transactions, handle_verify_block, handle_close_block, closed_block, push_closed,
  push_block, process_turn, add_all_to_tx_tree, add_to_tx_tree, first_verification, name_block,
}
use decentralized_cloud.Storage.Commits.Waiting.{
  Event, close, turn, run, closed, commit_all, run-commit_all,
}
use decentralized_cloud.Storage.Commits.Verified.{block_key, add_transactions-Stored}
use decentralized_cloud.Storage.Commands.{CommandInfo, start_top, finish_top, arrive}
use decentralized_cloud.Storage.Commands.Overtaking.{finish_top-arrive_earlier}
use decentralized_cloud.Storage.Documents.{create, create_or_delete_document}
use decentralized_cloud.Storage.Documents.Invalid.{
  invalid_structure, create_or_delete_document-invalid,
}

abbrev value_or_empty : Option Text → Text
value_or_empty none = []
value_or_empty (some v) = v

abbrev object_of_hash : Text → Option Text
object_of_hash [] = none
object_of_hash (c ∷ body) = some body

abbrev read_table : Dict Text Text → Text → Text
read_table t k = value_or_empty (find k t)

-- One transaction of one tenant.
abbrev first_block : BlockJson
first_block = record {
  number = 1;
  data_array = ((codes "txid", str (codes "x")) ∷ (codes "tid", str (codes "t")) ∷ []) ∷ [];
  verifications = [];
  others = [];
}

abbrev no_number : Text → Option JsonObject
no_number [] = none
no_number (c ∷ text) = some ((codes "k", str text) ∷ [])

abbrev site : Env
site = record {
  Objects = Unit {0};
  object_put = λ o body links. some (o, b'Q' ∷ body);
  object_data = λ o hash. object_of_hash hash;
  object_links = λ o hash. some [];
  object_patch_add_link = λ o source name target. some (o, source);
  object_patch_rm_link = λ o source name. some (o, source);
  Table = Dict Text Text;
  get = read_table;
  put = λ t k v. assign k v t;
  dump = λ j. [];
  parse = no_number;
  is_json = λ text. false;
  dump_array = λ docs. [];
  sort_documents = λ name docs. docs;
  less_document = λ d e. false;
  dump_block = λ b. codes "block";
  parse_block = λ text. some first_block;
  base64_encode = λ text. text;
  base64_decode = λ text. text;
  connected = λ k. true;
  guid = λ n. to_string n;
}

value_or_empty-if :
    (b : Bool) (v : Text) (o : Option Text)
    → value_or_empty (if b then some v else o) ≡ (if b then v else value_or_empty o)
value_or_empty-if true v o = refl
value_or_empty-if false v o = refl

hash_of : Option (Unit {0} × Text) → Text
hash_of none = []
hash_of (some (o, h)) = h

site-Laws : Laws site
unfolding hash_of
site-Laws = record {
  get_put =
      λ t k v j. ap value_or_empty (find-assign k j v t) ∙ value_or_empty-if (k == j) v (find j t);
  data_put = λ o o' d h links e. ap object_of_hash (sym (ap hash_of e));
  hash_put = λ o o' d h links e. ap is_empty (sym (ap hash_of e));
  put_keeps = λ o o' d h g x links e k. k;
  add_link_keeps = λ o o' source name target h g x e k. k;
  rm_link_keeps = λ o o' source name h g x e k. k;
}

site_available :
    (o : Unit {0}) (d : Text)
    → (o' : Unit {0}) × (h : Text) × (site.object_put o d [] ≡ some (o', h))
site_available o d = (o, b'Q' ∷ d, refl)

abbrev empty_world : World site
empty_world = record { objects = tt; table = []; drawn = 7; sent = [] }

fetch_function_of-add_child_node_example :
    let w' = world_of (
      add_child_node
        (codes "n")
        (codes "c")
        (codes "x")
        (codes "t")
        function_tree
        (codes "f()")
        empty_world) in
    fetch_function_of (codes "1") (codes "d") (codes "y") (codes "t") (to_string 7) [] w'
    ≡ send (codes "1") (codes "d") fetch_function (codes "y") (to_string 7) (codes "f()") w'
fetch_function_of-add_child_node_example =
    fetch_function_of-add_child_node site-Laws empty_world tt (codes "n") (codes "c") (codes "x")
      (codes "t") (codes "f()") (b'Q' ∷ codes "f()") (codes "1") (codes "d") (codes "y") refl
