-- ===== src/Storage/Commands/Overtaking.antt =====
-- A command that arrives at a queue while another is executed (StorageNode/StorageNode.cpp,
-- `onStateChange` and `processStateUpdates`).
use decentralized_cloud.Base.{◌<◌, ◌≡◌, refl, none, List, [], ◌∷◌, ◌++◌, arith}
use decentralized_cloud.Base.Sort.{insert_by}
use decentralized_cloud.Storage.Commands.{
  CommandInfo, time_key, push_command, start_top, finish_top, arrive,
}

before_top :
    (d c : CommandInfo) (q : List CommandInfo)
    → time_key d < time_key c
    → push_command d (c ∷ q) ≡ d ∷ c ∷ q
unfolding push_command insert_by
before_top d c q h = ground arith

behind_top :
    (d c : CommandInfo) (q : List CommandInfo)
    → time_key c < time_key d
    → push_command d (c ∷ q) ≡ c ∷ push_command d q
unfolding push_command insert_by
behind_top d c q h = ground arith

-- While the top command of a queue is executed, one with an earlier timestamp arrives: it is taken
-- from the queue in the other's place, never executed, and the queue is as before with the command
-- that was executed, so that the next turn executes it again.
pub finish_top-arrive_earlier :
    (c d : CommandInfo) (q done : List CommandInfo)
    → time_key d < time_key c
    → finish_top
        (arrive d (start_top (record { queue = c ∷ q; executing = none; executed = done })))
      ≡ record { queue = c ∷ q; executing = none; executed = done ++ c ∷ [] }
unfolding start_top finish_top arrive
finish_top-arrive_earlier c d q done h = rw (before_top d c q h) refl

-- A command with a later timestamp that arrives meanwhile is put into the rest of the queue, and the
-- command that was executed is the one that leaves it.
finish_top-arrive_later :
    (c d : CommandInfo) (q done : List CommandInfo)
    → time_key c < time_key d
    → finish_top
        (arrive d (start_top (record { queue = c ∷ q; executing = none; executed = done })))
      ≡ record { queue = push_command d q; executing = none; executed = done ++ c ∷ [] }
unfolding start_top finish_top arrive
finish_top-arrive_later c d q done h = rw (behind_top d c q h) refl
