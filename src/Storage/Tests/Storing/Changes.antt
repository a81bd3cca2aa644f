-- ===== src/Storage/Tests/Storing/Changes.antt =====
-- Changes of documents, and commands that come while another is executed.
use decentralized_cloud.Base.Class.{text_beq}
use decentralized_cloud.Base.{
  ℕ, ◌+◌, ◌≡◌, refl, false, none, [], ◌∷◌, ◌++◌, codes, text_eq, ◌==◌, is_empty, arith,
}
use decentralized_cloud.Base.Decimal.{to_string}
use decentralized_cloud.Base.Dict.{find, assign}
use decentralized_cloud.Message.{exception, state_change, gossip}
use decentralized_cloud.Storage.World.{World, thrown}
use decentralized_cloud.Storage.Trees.{data_tree, joined, object_key, root_key}
use decentralized_cloud.Storage.Commands.{CommandInfo, start_top, finish_top, arrive}
use decentralized_cloud.Storage.Commands.Overtaking.{finish_top-arrive_earlier}
use decentralized_cloud.Storage.Documents.{create, create_or_delete_document}
use decentralized_cloud.Storage.Documents.Invalid.{
  invalid_structure, create_or_delete_document-invalid,
}
use decentralized_cloud.Storage.Tests.Storing.{site}

abbrev entity_world : World site
entity_world = record {
  objects = tt;
  table = (codes ".data_t_e", codes "Qroot") ∷ [];
  drawn = 0;
  sent = [];
}

entity_root :
    is_empty (site.get entity_world.table (root_key (object_key data_tree (codes "t") (codes "e"))))
    ≡ false
unfolding find text_beq root_key object_key joined
entity_root = refl

other_source : (codes "n" == codes "1") ≡ false
unfolding text_beq
other_source = refl

create_or_delete_document-invalid_example :
    create_or_delete_document
      (codes "n")
      (codes "c")
      (codes "x")
      (codes "t")
      (codes "e")
      []
      []
      create
      entity_world
    ≡ thrown (record {
      objects = tt;
      table =
          assign
            (object_key data_tree (codes "t") (joined (codes "e") (to_string 0)))
            (b'Q' ∷ [])
            entity_world.table;
      drawn = 0 + 1;
      sent =
          []
          ++ gossip (codes "c") exception (
              (codes "txid", codes "x") ∷ (codes "id", []) ∷ (codes "data", invalid_structure) ∷ [])
            ∷ []
          ++ gossip (codes "c") state_change (
              (codes "txid", codes "x")
              ∷ (codes "id", to_string 0)
              ∷ (codes "data", b'Q' ∷ [])
              ∷ [])
            ∷ [];
    })
create_or_delete_document-invalid_example =
    create_or_delete_document-invalid {env = site} entity_world (codes "n") (codes "c") (codes "x")
      (codes "t") (codes "e") [] [] tt (b'Q' ∷ []) other_source entity_root refl refl

abbrev at_time : ℕ → CommandInfo
at_time n = record { fields = []; timestamp = (false, n); command = [] }

finish_top-arrive_earlier_example :
    finish_top (
      arrive (at_time 3) (
        start_top (record { queue = at_time 5 ∷ at_time 8 ∷ []; executing = none; executed = [] })))
    ≡ record { queue = at_time 5 ∷ at_time 8 ∷ []; executing = none; executed = at_time 5 ∷ [] }
finish_top-arrive_earlier_example =
    finish_top-arrive_earlier (at_time 5) (at_time 3) (at_time 8 ∷ []) [] (omega arith)
