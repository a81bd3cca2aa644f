-- ===== src/Storage/Tests/Storing/Blocks.antt =====
-- Blocks that a Storage Node closes.
use decentralized_cloud.Base.Class.{text_beq}
use decentralized_cloud.Base.{◌≡◌, refl, List, [], ◌∷◌, ◌++◌, codes, text_eq}
use decentralized_cloud.Base.Decimal.{to_string}
use decentralized_cloud.Base.Dict.{find, assign}
use decentralized_cloud.Json.{get_text}
use mathlib.Core.List.{Perm}
use decentralized_cloud.Storage.World.{
  World, returned, world_of, dht_get, dht_put, emit, add_object, add_object_and_link, add_link,
}
use decentralized_cloud.Base.Sort.{insert_by}
use decentralized_cloud.Storage.Kept.{Stored}
use decentralized_cloud.Storage.Trees.{joined, root_key, link_to_root}
use decentralized_cloud.Storage.Commits.{
  BlockQueue, add_transactions, handle_close_block, closed_block, push_closed, push_block,
  process_turn, add_all_to_tx_tree, add_to_tx_tree, first_verification, name_block,
}
use decentralized_cloud.Storage.Commits.Waiting.{
  Event, close, turn, run, closed, commit_all, run-commit_all,
}
use decentralized_cloud.Storage.Commits.Verified.{block_key, add_transactions-Stored}
use decentralized_cloud.Storage.Tests.Storing.{
  first_block, site, site-Laws, site_available, empty_world,
}

-- A message that closes a block, two turns of the processor.
abbrev messages : List Event
messages =
    close ((codes "b", codes "B") ∷ (codes "key", codes "K") ∷ (codes "si", codes "S") ∷ [])
    ∷ turn
    ∷ turn
    ∷ []

after_turns : World site
unfolding run
after_turns = world_of (run {env = site} messages [] empty_world)

messages-run : run {env = site} messages [] empty_world ≡ returned [] after_turns
unfolding run after_turns handle_close_block closed_block push_closed push_block insert_by
    process_turn add_transactions add_all_to_tx_tree add_to_tx_tree name_block link_to_root joined
    root_key dht_get dht_put emit add_object add_object_and_link add_link first_verification find
    assign text_beq get_text
messages-run = refl

run-commit_all_example :
    (committed : BlockQueue) × (commit_all {env = site} committed empty_world
      ≡ returned tt after_turns)
    × Perm (committed ++ []) ([] ++ closed site messages)
run-commit_all_example = run-commit_all messages [] [] empty_world after_turns messages-run

abbrev closing : World site
closing = record { objects = tt; table = []; drawn = 0; sent = [] }

added : World site
unfolding add_all_to_tx_tree
added = world_of (add_all_to_tx_tree {env = site} first_block.data_array closing)

transactions_added : add_all_to_tx_tree first_block.data_array closing ≡ returned tt added
unfolding added add_all_to_tx_tree add_to_tx_tree joined root_key dht_get dht_put add_object
    add_link find assign text_beq get_text
transactions_added = refl

add_transactions-Stored_example :
    Stored site-Laws
      (block_key (to_string 1))
      (codes "block")
      (world_of (add_transactions (codes "text") closing))
add_transactions-Stored_example =
    add_transactions-Stored site-Laws site_available closing added (codes "text") first_block refl
      transactions_added
