-- ===== src/Storage/Commands.antt =====
-- State changes in StorageNode/StorageNode.cpp: `onStateChange` puts the commands of a message into
-- queues ordered by time (StorageNode/Command.h), and `processStateUpdates` works off each queue.
pub mod Overtaking
pub mod Routing
use decentralized_cloud.Base.{
  ℕ, ◌+◌, ◌-◌, ◌%◌, ◌^◌, Bool, true, false, Option, none, some, List, [], ◌∷◌, ◌++◌, get_elem?,
  ◌||◌, if◌then◌else◌, leb, drop, ◌&&◌, Text, codes, text_eq, ◌==◌,
}
use decentralized_cloud.Base.Dict.{Dict, find, assign, insert, erase}
use decentralized_cloud.Base.Outcome.{Outcome, ok, thrown}
use decentralized_cloud.Base.Sort.{insert_by}
use decentralized_cloud.Message.{FieldValueMap}
use decentralized_cloud.Wire.{Boost}
use decentralized_cloud.Wire.Inbox.{Signed, stoll}
use decentralized_cloud.Storage.World.{
  Env, World, Action, ◌>>=◌, ◌>>◌, give, throw, or_throw, caught,
}
use decentralized_cloud.Storage.Trees.{
  function_tree, template_tree, add_child_node, update_child_node, delete_object,
}
use decentralized_cloud.Storage.Documents.{
  Operation, create, update, delete, create_or_delete_document, update_or_delete_document,
}

-- `enum class Command`
pub data Command : Type 0 where
  add_template add_document add_function update_template update_document : Command
  update_function delete_template delete_document delete_function : Command

abbrev commands_in_order : List Command
commands_in_order =
    add_template ∷ add_document ∷ add_function ∷ update_template ∷ update_document ∷ update_function
    ∷ delete_template ∷ delete_document ∷ delete_function ∷ []

-- The numbers of the enumeration, from `addTemplate = 1` on.
unfoldable command_of : ℕ → Option Command
command_of n = if leb 1 n then get_elem? commands_in_order (n - 1) else none

-- `static_cast<Command>(stoi(text))`: a `char`.
unfoldable read_command : Text → Option (Option Command)
unfolding stoll command_of
read_command text = elim (stoll text) [
  | none ↦ none
  | some (minus, n) ↦
      if leb n (if minus then 2 ^ 31 else 2 ^ 31 - 1)
      then some (command_of (if minus then (256 - n % 256) % 256 else n % 256))
      else none
]

-- `class CommandInfo`
pub record CommandInfo : Type 0 where
  pub fields : FieldValueMap
  pub timestamp : Signed
  pub command : List Text

-- The order of the timestamps, as a natural number.
abbrev pub time_key : CommandInfo → ℕ
time_key info = let (minus, n) = info.timestamp in if minus then 2 ^ 63 - n else 2 ^ 63 + n

-- `OrderedPriorityQueue`: the least timestamp on top.
unfoldable pub push_command : CommandInfo → List CommandInfo → List CommandInfo
unfolding insert_by
push_command = insert_by time_key

-- `stateChangeQueueMap`, and the keys of the queues in the order in which their threads were started.
pub record Queues : Type 0 where
  pub queues : Dict Text (List CommandInfo)
  pub started : List Text

unfoldable pub push_or_start : Text → CommandInfo → Queues → Queues
unfolding find assign push_command
push_or_start key info q = elim (find key q.queues) [
  | some queue ↦ record q { queues = assign key (push_command info queue) q.queues }
  | none ↦ record q { queues = assign key (info ∷ []) q.queues; started = q.started ++ key ∷ [] }
]

-- The queue of a command: for each document template one of its own, else one for each kind.
unfoldable pub queue_key : Text → Text → List Text → Option Text
queue_key tid index rest =
    if index == codes "2" || (index == codes "5" || index == codes "8")
    then elim rest [ [] ↦ none | entity ∷ more ↦ some (tid ++ entity) ]
    else some (tid ++ index)

-- The commands of a message; one without its template ends the loop.
unfoldable pub push_commands : Boost → Text → FieldValueMap → Signed → List Text → Queues → Queues
unfolding queue_key push_or_start
push_commands boost tid fields tm [] q = q
push_commands boost tid fields tm (val ∷ commands) q = elim (boost.split val b' ') [
  | [] ↦ push_commands boost tid fields tm commands q
  | index ∷ rest ↦ elim (queue_key tid index rest) [
    | none ↦ q
    | some key ↦
        let info : CommandInfo = record {
          fields = fields;
          timestamp = tm;
          command = index ∷ rest;
        } in
        push_commands boost tid fields tm commands (push_or_start key info q)
  ]
]

unfoldable pub present : Text → FieldValueMap → Bool
unfolding find
present name fields = elim (find name fields) [ none ↦ false | some v ↦ true ]

unfoldable pub on_state_change : Boost → FieldValueMap → Queues → Outcome Queues
unfolding find erase stoll push_commands present
on_state_change boost fields q = elim (find (codes "tid") fields) [
  | none ↦ thrown q
  | some tid ↦ elim (find (codes "cmds") fields) [
    | none ↦ thrown q
    | some cmds ↦
        if present (codes "txid") fields
          && (present (codes "ws") fields && present (codes "k") fields)
        then elim (find (codes "tm") fields) [
          | none ↦ ok q
          | some text ↦ elim (stoll text) [
            | none ↦ ok q
            | some tm ↦
                ok (
                  push_commands boost tid (erase (codes "cmds") fields) tm (boost.split cmds b',')
                    q)
          ]
        ]
        else thrown q
  ]
]

module _ {env : Env} where
  -- `command[i]`, which is undefined past the end in the source.
  abbrev argument : ℕ → List Text → Action env Text
  argument i command = or_throw (get_elem? command i)

  unfoldable run_command : Command → List Text → Text → Text → Text → Text → Action env (Unit {0})
  unfolding add_child_node update_child_node delete_object create_or_delete_document
      update_or_delete_document
  run_command add_function command source channel_id txid tid = caught tt (do
    object ← argument 1 command
    add_child_node source channel_id txid tid function_tree (env.base64_decode object))
  run_command add_document command source channel_id txid tid = do
    entity ← argument 1 command
    object ← argument 2 command
    create_or_delete_document source channel_id txid tid entity [] (env.base64_decode object) create
  run_command add_template command source channel_id txid tid = do
    object ← argument 1 command
    add_child_node source channel_id txid tid template_tree (env.base64_decode object)
  run_command update_function command source channel_id txid tid = do
    object_id ← argument 1 command
    object ← argument 2 command
    update_child_node source function_tree channel_id txid tid object_id (env.base64_decode object)
  run_command update_template command source channel_id txid tid = do
    object_id ← argument 1 command
    object ← argument 2 command
    update_child_node source template_tree channel_id txid tid object_id (env.base64_decode object)
  run_command update_document command source channel_id txid tid = do
    entity ← argument 1 command
    expression ← argument 2 command
    object ← argument 3 command
    update_or_delete_document source channel_id txid tid entity expression
        (env.base64_decode object) update
  run_command delete_function command source channel_id txid tid = do
    object_id ← argument 1 command
    delete_object source function_tree channel_id txid tid object_id
  run_command delete_template command source channel_id txid tid = do
    object_id ← argument 1 command
    delete_object source template_tree channel_id txid tid object_id
  run_command delete_document command source channel_id txid tid = do
    entity ← argument 1 command
    expression ← argument 2 command
    update_or_delete_document source channel_id txid tid entity expression [] delete

  unfoldable execute_state_change_command :
      List Text → Text → Text → Text → Text → Action env (Unit {0})
  unfolding read_command run_command
  execute_state_change_command command source channel_id txid tid = caught tt (do
    index ← argument 0 command
    cmd ← or_throw (read_command index)
    elim cmd [ none ↦ give tt | some c ↦ run_command c command source channel_id txid tid ])

  -- The command of an entry, with what its fields say of the request.
  unfoldable execute_info : CommandInfo → Action env (Unit {0})
  unfolding find execute_state_change_command
  execute_info info = caught tt (do
    source ← or_throw (find (codes "ws") info.fields)
    channel_id ← or_throw (find (codes "k") info.fields)
    txid ← or_throw (find (codes "txid") info.fields)
    tid ← or_throw (find (codes "tid") info.fields)
    execute_state_change_command info.command source channel_id txid tid)

-- One queue and the thread that works it off: the command that it executes, and those it has executed.
pub record Worker : Type 0 where
  pub queue : List CommandInfo
  pub executing : Option CommandInfo
  pub executed : List CommandInfo

-- The first critical section of `processStateUpdates`: a copy of the top. It is not popped.
unfoldable pub start_top : Worker → Worker
start_top w = elim w.queue [ [] ↦ w | info ∷ rest ↦ record w { executing = some info } ]

-- After the execution, the second critical section: the top, whatever it is by now, is popped.
unfoldable pub finish_top : Worker → Worker
finish_top w = elim w.executing [
  | none ↦ w
  | some info ↦ record w {
    queue = drop 1 w.queue;
    executing = none;
    executed = w.executed ++ info ∷ [];
  }
]

-- `onStateChange` pushes between the two.
unfoldable pub arrive : CommandInfo → Worker → Worker
unfolding push_command
arrive info w = record w { queue = push_command info w.queue }
