-- ===== src/Master/Storage.antt =====
-- The storage nodes that a Master Node sends to (`getStateChangeStorageNode`, `getBlockStorageNode`).
use decentralized_cloud.Base.{false, codes, is_empty, ltb, if◌then◌else◌}
use decentralized_cloud.Message.{dht_put}
use decentralized_cloud.Peers.{get_number_of_storage_nodes, get_storage_node_key}
use decentralized_cloud.Master.State.{Env, Node, emit}

unfoldable pub get_state_change_storage_node : Env → Node → Node
unfolding get_number_of_storage_nodes get_storage_node_key emit
get_state_change_storage_node env n =
    let known = env.dht_get (codes "sn_state_change_key") in
    let key = get_storage_node_key 1 n.peers in
    if is_empty n.state_change_storage_node
    then (if ltb (get_number_of_storage_nodes n.peers) 2
        then n
        else if is_empty known
        then emit (dht_put (codes "sn_state_change_key") key false)
            (record n { state_change_storage_node = key })
        else record n { state_change_storage_node = known })
    else n

unfoldable pub get_block_storage_node : Env → Node → Node
unfolding get_number_of_storage_nodes get_storage_node_key emit
get_block_storage_node env n =
    let known = env.dht_get (codes "sn_block_close_key") in
    let key = get_storage_node_key 0 n.peers in
    if is_empty n.block_storage_node
    then (if ltb (get_number_of_storage_nodes n.peers) 1
        then n
        else if is_empty known
        then emit (dht_put (codes "sn_block_close_key") key false)
            (record n { block_storage_node = key })
        else record n { block_storage_node = known })
    else n
