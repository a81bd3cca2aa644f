-- ===== src/Master/Voting/Election.antt =====
-- Who is elected when voting closes.
use mathlib.Core.List.{filter, Perm, append-nil, append_assoc}
use mathlib.Core.List.Perm
use mathlib.Core.Bool.{Bool-discrete}
use decentralized_cloud.Base.{
  ℕ, zero, suc, ◌+◌, ◌≤◌, ◌<◌, ◌≡◌, refl, ap, Bool, true, false, ◌||◌, List, [], ◌∷◌, ◌++◌, Text,
  text_eq, ◌==◌, length, length-append, take, drop, length-take, All, All-drop, take-append-drop,
  lt→ltb, if◌then◌else◌, arith, inl, inr, Bool-cases,
}
use Prim.Native.Nat.{min}
use decentralized_cloud.Base.Sort.{SortedBy, Sorts}
use decentralized_cloud.Base.Perms.{length-perm}
use decentralized_cloud.Master.State.{Env, Node, Voter}
use decentralized_cloud.Transaction.{total_master_nodes}
use decentralized_cloud.Master.Voting.{elect, count_votes}

-- The ballots that were computed.
abbrev pub valid_voters : List Voter → List Voter
valid_voters [] = []
valid_voters (v ∷ vs) = if v.valid then v ∷ valid_voters vs else valid_voters vs

-- What the program relies on of `std::sort` with `a < b` on the numbers.
abbrev pub Ascending : List Voter → Type 0
Ascending = SortedBy (λ v. v.number)

abbrev pub SortsByNumber : (List Voter → List Voter) → Type 0
SortsByNumber = Sorts (λ v. v.number)

abbrev pub is_listed : Text → List Voter → Bool
is_listed id [] = false
is_listed id (v ∷ vs) = (v.public_key == id) || is_listed id vs

is_listed-cons :
    (id : Text) (v : Voter) (listed rest : Bool)
    → (if v.public_key == id then true else listed) || rest
      ≡ listed || ((v.public_key == id) || rest)
is_listed-cons id v listed rest = ground arith

-- From `acc` on, with room for `room` more, the loop takes the first `room` valid voters.
elect-take :
    (id : Text) (vs acc : List Voter) (listed : Bool) (room : ℕ)
    → length acc + suc room ≡ total_master_nodes
    → let chosen = take (suc room) (valid_voters vs) in
      ((elect id vs acc listed).0 ≡ acc ++ chosen)
      × ((elect id vs acc listed).1 ≡ listed || is_listed id chosen)
unfolding elect
elect-take id [] acc listed room h = (simp append-nil, ground arith)
elect-take id (v ∷ vs) acc listed zero h = elim (Bool-cases v.valid) [
  | inl good ↦ ground (arith, length-append acc (v ∷ []), is_listed-cons id v listed false)
  | inr bad ↦ ground (arith, elect-take id vs acc listed zero h)
]
elect-take id (v ∷ vs) acc listed (suc room) h = elim (Bool-cases v.valid) [
  | inl good ↦
      let chosen = take (suc room) (valid_voters vs) in
      let listed' : Bool = if v.public_key == id then true else listed in
      ground (
        arith,
        length-append acc (v ∷ []),
        elect-take id vs (acc ++ v ∷ []) listed' room,
        append_assoc acc (v ∷ []) chosen,
        is_listed-cons id v listed (is_listed id chosen),
      )
  | inr bad ↦ ground (arith, elect-take id vs acc listed (suc room) h)
]

valid_voters-filter :
    (vs : List Voter) → valid_voters vs ≡ filter (λ v. Bool-discrete v.valid true) vs
valid_voters-filter [] = refl
valid_voters-filter (v ∷ vs) = ground (arith, valid_voters-filter vs)

valid_voters-perm : {vs ws : List Voter} → Perm vs ws → Perm (valid_voters vs) (valid_voters ws)
valid_voters-perm {vs} {ws} p =
    rw (valid_voters-filter vs, valid_voters-filter ws) (Perm.filter _ p)

All-if {ℓ} :
    (P : Voter → Type ℓ) (b : Bool) (vs ws : List Voter)
    → All P vs
    → All P ws
    → All P (if b then vs else ws)
All-if P true vs ws h k = h
All-if P false vs ws h k = k

All-valid_voters {ℓ} : (P : Voter → Type ℓ) (vs : List Voter) → All P vs → All P (valid_voters vs)
All-valid_voters P [] h = tt
All-valid_voters P (v ∷ vs) h =
    let rest = All-valid_voters P vs h.1 in All-if P v.valid _ _ (h.0, rest) rest

Ascending-valid_voters : (vs : List Voter) → Ascending vs → Ascending (valid_voters vs)
Ascending-valid_voters [] h = tt
Ascending-valid_voters (v ∷ vs) h = elim (Bool-cases v.valid) [
  | inl good ↦ rw good (All-valid_voters _ vs h.0, Ascending-valid_voters vs h.1)
  | inr bad ↦ rw bad (Ascending-valid_voters vs h.1)
]

Ascending-split :
    (n : ℕ) (vs : List Voter)
    → Ascending vs
    → All (λ v. All (λ w. v.number ≤ w.number) (drop n vs)) (take n vs)
Ascending-split zero vs h = tt
Ascending-split (suc n) [] h = tt
Ascending-split (suc n) (v ∷ vs) h = (All-drop _ n vs h.0, Ascending-split n vs h.1)

-- Where two or more votes were cast, and the sort sorts by number, voting elects valid voters with
-- the lowest numbers, 21 of them or all if there are fewer: the others that voted validly, `rest`,
-- have no lower number. The node counts as listed exactly if one of the elected has its id, and the
-- votes are used up.
pub count_votes-lowest :
    (env : Env) (n : Node)
    → SortsByNumber env.sort_voters
    → 1 < length n.random_numbers
    → let (n', listed) = count_votes env n in
      (rest : List Voter) × Perm (n'.block_producers ++ rest) (valid_voters n.random_numbers)
      × All (λ v. All (λ w. v.number ≤ w.number) rest) n'.block_producers
      × (length n'.block_producers
          ≡ min total_master_nodes (length (valid_voters n.random_numbers)))
      × (listed ≡ is_listed env.node_id n'.block_producers)
      × (n'.random_numbers ≡ [])
unfolding count_votes
count_votes-lowest env n sorts many =
    let sorted = env.sort_voters n.random_numbers in
    let all = valid_voters sorted in
    let (chosen, listed) = elect-take env.node_id sorted [] false 20 refl in
    let ascending = Ascending-valid_voters sorted (sorts.ascending n.random_numbers) in
    rw (lt→ltb 1 (length n.random_numbers) many) (
      drop 21 all,
      rw (chosen, take-append-drop 21 all) (valid_voters-perm (sorts.same n.random_numbers)),
      rw chosen (Ascending-split 21 all ascending),
      rw (chosen, length-take 21 all)
          (ap (min 21) (length-perm (valid_voters-perm (sorts.same n.random_numbers)))),
      rw chosen listed,
      refl,
    )
