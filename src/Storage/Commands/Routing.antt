-- ===== src/Storage/Commands/Routing.antt =====
-- Where the commands of a message go (`onStateChange` of StorageNode/StorageNode.cpp).
use decentralized_cloud.Base.{
  ◌||◌, Bool, true, false, ℕ, ◌+◌, ◌≡◌, refl, ◌∙◌, sym, none, some, List, [], ◌∷◌, ◌++◌, ◌⊎◌, ◌≢◌,
  Text, codes, text_eq, ◌==◌, ==_iff, if◌then◌else◌, arith, All, Bool-cases, Option-cases, inl, inr,
  ◌&&◌,
}
use decentralized_cloud.Base.Class.{text_beq}
use decentralized_cloud.Base.Dict.{find, assign, find-assign, find-erase_ne, erase}
use decentralized_cloud.Base.Sort.{SortedBy, All-insert_by, insert_by-SortedBy}
use decentralized_cloud.Base.Outcome.{object_of}
use decentralized_cloud.Message.{FieldValueMap}
use decentralized_cloud.Wire.{Boost}
use decentralized_cloud.Wire.Inbox.{Signed, stoll}
use decentralized_cloud.Storage.Commands.{
  CommandInfo, Queues, time_key, push_command, push_or_start, queue_key, push_commands,
  on_state_change, present,
}

-- How many threads were started for a queue.
unfoldable pub threads_of : Text → List Text → ℕ
threads_of key [] = 0
threads_of key (k ∷ started) =
    let rest = threads_of key started in if k == key then rest + 1 else rest

-- What the queues are for, read off the protocol: the commands on the documents of a template (adding,
-- updating and deleting one) go by the tenant and the template, all others by the tenant and their
-- number.
pub data Belongs (key : Text) (info : CommandInfo) : Type 0 where
  on_document :
      (tid entity index : Text) (more : List Text)
      → find (codes "tid") info.fields ≡ some tid
      → info.command ≡ index ∷ entity ∷ more
      → (index ≡ codes "2") ⊎ ((index ≡ codes "5") ⊎ (index ≡ codes "8"))
      → key ≡ tid ++ entity
      → Belongs key info
  on_kind :
      (tid index : Text) (more : List Text)
      → find (codes "tid") info.fields ≡ some tid
      → info.command ≡ index ∷ more
      → index ≢ codes "2"
      → index ≢ codes "5"
      → index ≢ codes "8"
      → key ≡ tid ++ index
      → Belongs key info

abbrev is_document : Text → Bool
is_document index = index == codes "2" || (index == codes "5" || index == codes "8")

is_document_lem :
    (index : Text)
    → is_document index ≡ true
    → (index ≡ codes "2") ⊎ ((index ≡ codes "5") ⊎ (index ≡ codes "8"))
is_document_lem index e = elim (Bool-cases (index == codes "2")) [
  | inl two ↦ inl ((==_iff index (codes "2")).0 two)
  | inr no_two ↦ elim (Bool-cases (index == codes "5")) [
    | inl five ↦ inr (inl ((==_iff index (codes "5")).0 five))
    | inr no_five ↦ inr (inr ((==_iff index (codes "8")).0 (ground arith)))
  ]
]

of_kind :
    (tid key index : Text) (rest : List Text) (info : CommandInfo)
    → find (codes "tid") info.fields ≡ some tid
    → info.command ≡ index ∷ rest
    → is_document index ≡ false
    → key ≡ tid ++ index
    → Belongs key info
of_kind tid key index rest info there same other e =
    on_kind tid index rest there same (λ two. ground (arith, other, ==_iff index (codes "2")))
      (λ five. ground (arith, other, ==_iff index (codes "5")))
      (λ eight. ground (arith, other, ==_iff index (codes "8"))) e

queue_key-Belongs :
    (tid key index : Text) (rest : List Text) (info : CommandInfo)
    → find (codes "tid") info.fields ≡ some tid
    → info.command ≡ index ∷ rest
    → queue_key tid index rest ≡ some key
    → Belongs key info
unfolding queue_key
queue_key-Belongs tid key index [] info there same e = elim (Bool-cases (is_document index)) [
  | inl document ↦ ground (arith, document, e)
  | inr other ↦ of_kind tid key index [] info there same other (ground (arith, other, e))
]
queue_key-Belongs tid key index (entity ∷ more) info there same e =
    elim (Bool-cases (is_document index)) [
      | inl document ↦
          on_document tid entity index more there same (is_document_lem index document)
            (ground (arith, document, e))
      | inr other ↦
          of_kind tid key index (entity ∷ more) info there same other (ground (arith, other, e))
    ]

abbrev Lined : Text → List CommandInfo → Type 0
Lined key queue = SortedBy time_key queue × All (Belongs key) queue

-- One thread for every queue and none besides; each queue holds its own commands, by time.
pub record Routed (q : Queues) : Type 0 where
  pub threads :
      (key : Text) → threads_of key q.started ≡ elim (find key q.queues) [ none ↦ 0 | some _ ↦ 1 ]
  pub lined :
      (key : Text) (queue : List CommandInfo) → find key q.queues ≡ some queue → Lined key queue

threads_of-started :
    (key k : Text) (started : List Text)
    → threads_of key (started ++ k ∷ [])
      ≡ (if k == key then threads_of key started + 1 else threads_of key started)
unfolding threads_of
threads_of-started key k [] = refl
threads_of-started key k (j ∷ started) = ground (arith, threads_of-started key k started)

push_command-Lined :
    (key : Text) (info : CommandInfo) (queue : List CommandInfo)
    → Belongs key info
    → Lined key queue
    → Lined key (push_command info queue)
unfolding push_command
push_command-Lined key info queue own (sorted, all) =
    (insert_by-SortedBy time_key info queue sorted, All-insert_by time_key _ info queue own all)

assign-Lined :
    (key : Text) (new : List CommandInfo) (q : Queues)
    → Lined key new
    → Routed q
    → (k : Text) (queue : List CommandInfo) → find k (assign key new q.queues) ≡ some queue
    → Lined k queue
assign-Lined key new q own routed k queue there = elim (Bool-cases (key == k)) [
  | inl e ↦
      let same : k ≡ key = sym ((==_iff key k).0 e) in
      let found : find k (assign key new q.queues) ≡ some new =
        ground (arith, find-assign key k new q.queues) in
      let all : queue ≡ new = cc in rw (same, all) own
  | inr e ↦ routed.lined k queue (ground (arith, find-assign key k new q.queues))
]

pub push_or_start-Routed :
    (key : Text) (info : CommandInfo) (q : Queues)
    → Belongs key info
    → Routed q
    → Routed (push_or_start key info q)
unfolding push_or_start
push_or_start-Routed key info q own routed = elim (Option-cases (find key q.queues)) [
  | inl e ↦
      rw (e, push_or_start)
        (record {
          threads = λ k. ground (
            arith,
            threads_of-started k key q.started,
            find-assign key k (info ∷ []) q.queues,
            routed.threads k,
            ==_iff key k,
          );
          lined = assign-Lined key (info ∷ []) q ((tt, tt), (own, tt)) routed;
        })
  | inr (queue, e) ↦
      rw (e, push_or_start)
        (record {
          threads = λ k. ground (
            arith,
            find-assign key k (push_command info queue) q.queues,
            routed.threads k,
            ==_iff key k,
          );
          lined =
              assign-Lined key (push_command info queue) q
                (push_command-Lined key info queue own (routed.lined key queue e)) routed;
        })
]

words_of : (words : List Text) → (words ≡ []) ⊎ ((w : Text) × (ws : List Text) × (words ≡ w ∷ ws))
words_of [] = inl refl
words_of (w ∷ ws) = inr (w, ws, refl)

push_commands-Routed :
    (boost : Boost) (tid : Text) (fields : FieldValueMap) (tm : Signed) (commands : List Text)
    (q : Queues)
    → find (codes "tid") fields ≡ some tid
    → Routed q
    → Routed (push_commands boost tid fields tm commands q)
unfolding push_commands
push_commands-Routed boost tid fields tm [] q there routed = routed
push_commands-Routed boost tid fields tm (val ∷ commands) q there routed =
    elim (words_of (boost.split val b' ')) [
      | inl e ↦
          rw (e, push_commands) (push_commands-Routed boost tid fields tm commands q there routed)
      | inr (index, rest, e) ↦ elim (Option-cases (queue_key tid index rest)) [
        | inl k ↦ rw (e, k, push_commands) routed
        | inr (key, k) ↦
            let info : CommandInfo = record {
              fields = fields;
              timestamp = tm;
              command = index ∷ rest;
            } in
            rw (e, k, push_commands)
              (push_commands-Routed boost tid fields tm commands (push_or_start key info q) there (
                push_or_start-Routed key info q
                  (queue_key-Belongs tid key index rest info there refl k) routed))
      ]
    ]

-- A message with commands, also one that throws, that has no time or whose commands end at one without
-- its template, keeps it so that every queue had one thread started and nothing else had, and that each
-- queue has the earliest command on top and holds only commands for its key: for a document, its tenant
-- and document template run together, else the tenant and the number of the command.
pub on_state_change-Routed :
    (boost : Boost) (fields : FieldValueMap) (q : Queues)
    → Routed q
    → Routed (object_of (on_state_change boost fields q))
unfolding on_state_change text_beq
on_state_change-Routed boost fields q routed = elim (Option-cases (find (codes "tid") fields)) [
  | inl e ↦ rw (e, on_state_change) routed
  | inr (tid, e) ↦ elim (Option-cases (find (codes "cmds") fields)) [
    | inl c ↦ rw (e, c, on_state_change) routed
    | inr (cmds, c) ↦
        elim (Bool-cases (
          present (codes "txid") fields
          && (present (codes "ws") fields && present (codes "k") fields))) [
            | inr absent ↦ rw (e, c, absent, on_state_change) routed
            | inl all ↦ elim (Option-cases (find (codes "tm") fields)) [
              | inl t ↦ rw (e, c, all, t, on_state_change) routed
              | inr (text, t) ↦ elim (Option-cases (stoll text)) [
                | inl n ↦ rw (e, c, all, t, n, on_state_change) routed
                | inr (tm, n) ↦
                    rw (e, c, all, t, n, on_state_change)
                      (push_commands-Routed boost tid (erase (codes "cmds") fields) tm
                        (boost.split cmds b',') q
                        (find-erase_ne (codes "cmds") (codes "tid") fields refl ∙ e) routed)
              ]
            ]
          ]
  ]
]
