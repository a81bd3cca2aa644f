-- ===== src/Wire/Fragments/Assembly.antt =====
-- A message whose fragments arrive in any order (BlockChainCommon/IncomingMessage.cpp).
use decentralized_cloud.Base.{
  ℕ, ◌+◌, ◌<◌, ◌≡◌, refl, sym, ap, ◌∙◌, Bool, true, false, not, ◌||◌, List, [], ◌∷◌, Text, nat_beq,
  is_empty, if◌then◌else◌, maybe, length, get_elem?, arith, Bool-cases, inl, inr, All,
  get_elem?-of_lt,
}
use decentralized_cloud.Base.Lists.{filter}
use decentralized_cloud.Wire.Fragments.{IncomingMessage, empty_slots, new_message, add, assemble}
use decentralized_cloud.Wire.Fragments.Slots.{
  mask, all_of, mark, all_of-congr, all_of-false, all_of-or, count_none,
}
use decentralized_cloud.Wire.Fragments.Filling.{
  Fits, Filled, add_known, add_new-Fits, add_new-result,
}

-- What arrives: the time and the index of a fragment.
abbrev pub Arrival : Type 0
Arrival = ℕ × ℕ

abbrev has_index : ℕ → List Arrival → Bool
has_index j [] = false
has_index j ((now, i) ∷ arrivals) = nat_beq i j || has_index j arrivals

-- The results of the calls of `add`.
unfoldable pub add_each : List Text → List Arrival → IncomingMessage → List Text
unfolding add
add_each fs [] m = []
add_each fs ((now, j) ∷ arrivals) m =
    let (result, m') = add now j (maybe (get_elem? fs j) [] λ f. f) m in
    result ∷ add_each fs arrivals m'

-- The results that are no empty text.
abbrev pub delivered : List Text → List Text
delivered = filter (λ t. not (is_empty t))

abbrev covered : (ℕ → Bool) → List Arrival → List Text → Bool
covered p arrivals fs = all_of (λ j. has_index j arrivals || p j) 0 (length fs)

covered-known :
    (p : ℕ → Bool) (now j : ℕ) (arrivals : List Arrival) (fs : List Text)
    → p j ≡ true
    → covered p ((now, j) ∷ arrivals) fs ≡ covered p arrivals fs
covered-known p now j arrivals fs known = all_of-congr _ _ 0 (length fs) λ i.
    elim (Bool-cases (nat_beq j i)) [
      | inl same ↦ let e : j ≡ i = ground arith in ground (arith, ap p e)
      | inr other ↦ ground arith
    ]

covered-new :
    (p : ℕ → Bool) (now j : ℕ) (arrivals : List Arrival) (fs : List Text)
    → covered p ((now, j) ∷ arrivals) fs ≡ covered (mark j p) arrivals fs
covered-new p now j arrivals fs = all_of-congr _ _ 0 (length fs) λ i. ground arith

-- One arrival more, of a fragment that was missing.
delivered-new :
    (whole result : Text) (rest : List Text) (before after then_covered : Bool)
    → is_empty whole ≡ false
    → before ≡ false
    → (after ≡ true → then_covered ≡ true)
    → result ≡ (if after then whole else [])
    → delivered rest ≡ (if after then [] else if then_covered then whole ∷ [] else [])
    → delivered (result ∷ rest) ≡ (if before then [] else if then_covered then whole ∷ [] else [])
unfolding filter
delivered-new whole result rest before after then_covered full new more e ih = ground arith

module _ (fs : List Text) (filled : Filled fs) (full : is_empty (assemble fs) ≡ false) where
  -- What is delivered while the fragments that `p` holds of are there.
  abbrev Expected : (ℕ → Bool) → List Arrival → IncomingMessage → Type 0
  Expected p arrivals m = delivered (add_each fs arrivals m) ≡ (
      if all_of p 0 (length fs) then [] else if covered p arrivals fs then assemble fs ∷ [] else [])

  add_each-delivered :
      (arrivals : List Arrival) (p : ℕ → Bool) (m : IncomingMessage)
      → All (λ a. a.1 < length fs) arrivals
      → Fits p fs m
      → Expected p arrivals m
  unfolding add_each filter
  add_each-delivered [] p m known fits = ground arith
  add_each-delivered ((now, j) ∷ arrivals) p m (inside, known) fits =
      let (f, there) = get_elem?-of_lt fs j inside in
      elim (Bool-cases (p j)) [
        | inl old ↦
            rw (there, add_known fs filled now j f there p m fits old)
              (rw (covered-known p now j arrivals fs old)
                (add_each-delivered arrivals p m known fits))
        | inr new ↦ rw there (
            delivered-new (assemble fs) (add now j f m).0 (add_each fs arrivals (add now j f m).1)
              (all_of p 0 (length fs)) (all_of (mark j p) 0 (length fs))
              (covered p ((now, j) ∷ arrivals) fs) full
              (all_of-false p 0 j j (length fs) (omega arith) inside new)
              (λ all.
                covered-new p now j arrivals fs
                ∙ all_of-or (mark j p) (λ i. has_index i arrivals) 0 (length fs) all)
              (add_new-result fs filled now j f there p m fits new)
              (add_each-delivered arrivals (mark j p) (add now j f m).1 known
                  (add_new-Fits fs filled now j f there p m fits new)
                ∙ ap
                    (λ b.
                      if all_of (mark j p) 0 (length fs)
                      then []
                      else if b
                      then assemble fs ∷ []
                      else [])
                    (sym (covered-new p now j arrivals fs))))
      ]

mask_none : (k : ℕ) (fs : List Text) → empty_slots (length fs) ≡ mask (λ j. false) k fs
mask_none k [] = refl
mask_none k (f ∷ fs) = ap (λ ms. [] ∷ ms) (mask_none (k + 1) fs)

new_message-Fits :
    (now last : ℕ) (originator : Text) (fs : List Text)
    → length fs ≡ last + 1
    → Fits (λ j. false) fs (new_message now last originator)
unfolding new_message
new_message-Fits now last originator fs e = record {
  slots = ap empty_slots (sym e) ∙ mask_none 0 fs;
  counted = sym (count_none 0 (length fs));
  last = omega (arith, e);
}

-- Where no fragment is empty and the message is not, the fragments may arrive in any order and more than
-- once: once each has arrived, the message has been delivered, exactly once, and as long as one is
-- missing, nothing is.
pub add_each_complete :
    (now last : ℕ) (originator : Text) (fs : List Text) (arrivals : List Arrival)
    → length fs ≡ last + 1
    → Filled fs
    → is_empty (assemble fs) ≡ false
    → All (λ a. a.1 < length fs) arrivals
    → delivered (add_each fs arrivals (new_message now last originator))
      ≡ (if all_of (λ j. has_index j arrivals) 0 (length fs) then assemble fs ∷ [] else [])
add_each_complete now last originator fs arrivals e filled full known =
    add_each-delivered fs filled full arrivals (λ j. false) (new_message now last originator) known
      (new_message-Fits now last originator fs e)
    ∙ ground (
      arith,
      all_of-false (λ j. false) 0 0 0 (length fs) refl (omega (arith, e)) refl,
      all_of-congr (λ j. has_index j arrivals || false) (λ j. has_index j arrivals) 0 (length fs)
          (λ j. ground arith),
    )
