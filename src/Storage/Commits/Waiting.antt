-- ===== src/Storage/Commits/Waiting.antt =====
-- Every block that the handler of `closeBlock` takes is committed once or waits in the queue
-- (StorageNode/StorageNode.cpp): both sides hold the lock.
use decentralized_cloud.Base.{
  ℕ, ◌≡◌, refl, sym, ap, subst, ◌∙◌, Option, none, some, List, [], ◌∷◌, ◌++◌, Text,
}
use mathlib.Core.List.{Perm, append-nil}
use mathlib.Core.List.Perm
use decentralized_cloud.Base.Perms.{middle-perm}
use decentralized_cloud.Base.Sort.{insert_by-same}
use decentralized_cloud.Message.{FieldValueMap}
use decentralized_cloud.Storage.World.{
  Env, World, Action, Result, returned, thrown, after_result, world_of, result_of, ◌>>=◌, ◌>>◌,
  give,
}
use decentralized_cloud.Storage.Commits.{
  BlockQueue, block_number, push_block, push_closed, closed_block, handle_close_block,
  add_transactions, process_turn,
}

-- A message of a master node, or a turn of `processBlocks`.
pub data Event : Type 0 where
  close : FieldValueMap → Event
  turn : Event

-- The blocks of the messages.
abbrev with_closed : Option (ℕ × Text) → BlockQueue → BlockQueue
with_closed none blocks = blocks
with_closed (some entry) blocks = entry ∷ blocks

unfoldable pub closed : Env → List Event → BlockQueue
unfolding closed_block
closed env [] = []
closed env (close fields ∷ events) = with_closed (closed_block env fields) (closed env events)
closed env (turn ∷ events) = closed env events

-- What is waiting after a message, with the blocks still to come.
push_closed-with_closed :
    (o : Option (ℕ × Text)) (queue later : BlockQueue)
    → Perm (push_closed o queue ++ later) (queue ++ with_closed o later)
unfolding push_closed push_block
push_closed-with_closed none queue later = Perm.refl _
push_closed-with_closed (some entry) queue later =
    Perm.trans (Perm.append_right later (insert_by-same block_number entry queue))
      (Perm.symm (middle-perm entry queue later))

module _ {env : Env} where
  unfoldable pub run : List Event → BlockQueue → Action env BlockQueue
  unfolding handle_close_block process_turn
  run [] queue = give queue
  run (close fields ∷ events) queue = run events (handle_close_block env fields queue)
  run (turn ∷ events) queue = do left ← process_turn queue; run events left

  -- Commits, one after the other.
  unfoldable pub commit_all : BlockQueue → Action env (Unit {0})
  unfolding add_transactions
  commit_all [] = give tt
  commit_all ((number, block) ∷ blocks) = do add_transactions block; commit_all blocks

  Accounted : List Event → BlockQueue → BlockQueue → World env → World env → Type 0
  Accounted events queue left w w' =
      (committed : BlockQueue) × (commit_all committed w ≡ returned tt w')
      × Perm (committed ++ left) (queue ++ closed env events)

  after_commit :
      (number : ℕ) (block : Text) (events : List Event) (queue left : BlockQueue) (w w' : World env)
      (r : Result env (Unit {0}))
      → add_transactions block w ≡ r
      → ((w₁ : World env)
          → run events queue w₁ ≡ returned left w'
          → Accounted events queue left w₁ w')
      → after_result (after_result r (λ done. give queue)) (run events) ≡ returned left w'
      → Accounted (turn ∷ events) ((number, block) ∷ queue) left w w'
  unfolding Accounted commit_all closed
  after_commit number block events queue left w w' (thrown w₁) e later h = cc
  after_commit number block events queue left w w' (returned tt w₁) e later h =
      let (committed, commits, accounted) = later w₁ h in
      (
        (number, block) ∷ committed,
        ap (λ r. after_result r (λ done. commit_all committed)) e ∙ commits,
        Perm.cons (number, block) accounted,
      )

  -- When a run of messages and turns comes to its end, the blocks that were waiting and those of the
  -- messages are, up to their order, the blocks that were committed, each once, and those that wait:
  -- the world is what committing these blocks alone, one after the other, makes of it.
  pub run-commit_all :
      (events : List Event) (queue left : BlockQueue) (w w' : World env)
      → run events queue w ≡ returned left w'
      → (committed : BlockQueue) × (commit_all committed w ≡ returned tt w')
        × Perm (committed ++ left) (queue ++ closed env events)
  unfolding run commit_all closed process_turn handle_close_block Accounted
  run-commit_all [] queue left w w' h = (
    [],
    ap (λ r. returned tt (world_of r)) h,
    subst (λ q. Perm q (queue ++ [])) (ap (result_of []) h)
        (subst (Perm queue) (sym (append-nil queue)) (Perm.refl queue)),
  )
  run-commit_all (close fields ∷ events) queue left w w' h =
      let (committed, commits, accounted) =
        run-commit_all events (handle_close_block env fields queue) left w w' h in
      (
        committed,
        commits,
        Perm.trans accounted
            (push_closed-with_closed (closed_block env fields) queue (closed env events)),
      )
  run-commit_all (turn ∷ events) [] left w w' h = run-commit_all events [] left w w' h
  run-commit_all (turn ∷ events) ((number, block) ∷ queue) left w w' h =
      after_commit number block events queue left w w' (add_transactions block w) refl
        (λ w₁. run-commit_all events queue left w₁ w') h
