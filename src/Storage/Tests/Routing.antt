-- ===== src/Storage/Tests/Routing.antt =====
-- The commands of a message on their way to the queues.
use decentralized_cloud.Base.{
  ℕ, ◌≡◌, refl, List, [], ◌∷◌, Text, codes, text_eq, nat_beq, if◌then◌else◌,
}
use decentralized_cloud.Base.Class.{text_beq}
use decentralized_cloud.Base.Dict.{find}
use decentralized_cloud.Base.Outcome.{object_of}
use decentralized_cloud.Message.{FieldValueMap}
use decentralized_cloud.Wire.{Boost}
use decentralized_cloud.Storage.Commands.{Queues, on_state_change}
use decentralized_cloud.Storage.Commands.Routing.{Routed, threads_of, on_state_change-Routed}

-- `boost::split` at one character.
split_at : Text → ℕ → List Text
split_at [] d = [] ∷ []
split_at (c ∷ s) d =
    let rest = split_at s d in
    if nat_beq c d then [] ∷ rest else elim rest [ [] ↦ (c ∷ []) ∷ [] | w ∷ ws ↦ (c ∷ w) ∷ ws ]

abbrev splitting : Boost
splitting = record { split = split_at; replace_all = λ text search format. text }

abbrev two_commands : FieldValueMap
two_commands =
    (codes "tid", codes "T")
    ∷ (codes "cmds", codes "2 Users YQ==,1 YQ==")
    ∷ (codes "txid", codes "x")
    ∷ (codes "ws", codes "0")
    ∷ (codes "k", codes "n")
    ∷ (codes "tm", codes "7")
    ∷ []

abbrev no_queues : Queues
no_queues = record { queues = []; started = [] }

no_queues-Routed : Routed no_queues
unfolding find threads_of
no_queues-Routed = record { threads = λ key. refl; lined = λ key queue there. cc }

two_started :
    (object_of (on_state_change splitting two_commands no_queues)).started
    ≡ codes "TUsers" ∷ codes "T1" ∷ []
unfolding on_state_change text_beq split_at
two_started = refl

on_state_change-Routed_example :
    Routed (object_of (on_state_change splitting two_commands no_queues))
on_state_change-Routed_example =
    on_state_change-Routed splitting two_commands no_queues no_queues-Routed
