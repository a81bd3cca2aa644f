-- ===== src/Wire/Fragments/Filling.antt =====
-- One fragment that is added to a message (`add` of BlockChainCommon/IncomingMessage.cpp).
use decentralized_cloud.Base.{
  ℕ, suc, ◌+◌, ◌<◌, ◌≡◌, ap, ◌∙◌, some, Bool, true, false, List, [], Text, ltb, leb, is_empty,
  if◌then◌else◌, length, set, get_elem?, arith, Bool-cases, inl, inr, All, All-get, get_elem?-of_ge,
}
use decentralized_cloud.Wire.Fragments.{IncomingMessage, get_segment_at, add, assemble}
use decentralized_cloud.Wire.Fragments.Slots.{
  mask, count, all_of, mark, length-mask, get_elem?-mask, mask-all, set-mask, count-mark,
  count_full, count_short,
}

-- The message holds the fragments that `p` holds of.
pub record Fits (p : ℕ → Bool) (fs : List Text) (m : IncomingMessage) : Type 0 where
  pub slots : m.messages ≡ mask p 0 fs
  pub counted : m.how_many_received ≡ count p 0 (length fs)
  pub last : suc m.last_packet_index ≡ length fs

-- A fragment that is no empty text.
abbrev pub Filled : List Text → Type 0
Filled fs = All (λ f. is_empty f ≡ false) fs

module _ (fs : List Text) (filled : Filled fs) (now j : ℕ) (f : Text)
    (there : get_elem? fs j ≡ some f) (p : ℕ → Bool) (m : IncomingMessage)
    (fits : Fits p fs m) where
  inside : j < length fs
  inside = ground (arith, get_elem?-of_ge fs j)

  slot : get_segment_at j m ≡ (if p j then f else [])
  unfolding get_segment_at
  slot = ground (arith, get_elem?-mask p 0 j j fs (omega arith) there, fits.slots)

  in_range : leb (length m.messages) j ≡ false
  in_range = ground (arith, ap length fits.slots, length-mask p 0 fs, inside)

  -- A fragment that is there already.
  pub add_known : p j ≡ true → add now j f m ≡ ([], m)
  unfolding add
  add_known known =
      ground (arith, in_range, slot, All-get (λ g. is_empty g ≡ false) fs j {a = f} filled there)

  add_new-slots : p j ≡ false → (add now j f m).1.messages ≡ mask (mark j p) 0 fs
  unfolding add
  add_new-slots new =
      ground (arith, in_range, slot, set-mask p 0 j j fs {f = f} (omega arith) there, fits.slots)

  add_new-counted :
      p j ≡ false → (add now j f m).1.how_many_received ≡ count (mark j p) 0 (length fs)
  unfolding add
  add_new-counted new =
      ground (arith, in_range, slot, count-mark p 0 j j (length fs), fits.counted, inside)

  add_new-last : p j ≡ false → suc (add now j f m).1.last_packet_index ≡ length fs
  unfolding add
  add_new-last new = ground (arith, in_range, slot, fits.last)

  pub add_new-Fits : p j ≡ false → Fits (mark j p) fs (add now j f m).1
  add_new-Fits new = record {
    slots = add_new-slots new;
    counted = add_new-counted new;
    last = add_new-last new;
  }

  add_new_raw :
      p j ≡ false
      → (add now j f m).0 ≡ (
          if ltb m.last_packet_index (m.how_many_received + 1)
          then assemble (set m.messages j f)
          else [])
  unfolding add
  add_new_raw new = ground (arith, in_range, slot)

  segments : set m.messages j f ≡ mask (mark j p) 0 fs
  segments = ap (λ ms. set ms j f) fits.slots ∙ set-mask p 0 j j fs {f = f} (omega arith) there

  pub add_new-result :
      p j ≡ false
      → (add now j f m).0 ≡ (if all_of (mark j p) 0 (length fs) then assemble fs else [])
  add_new-result new = elim (Bool-cases (all_of (mark j p) 0 (length fs))) [
    | inl all ↦
        let complete : set m.messages j f ≡ fs = segments ∙ mask-all (mark j p) 0 fs all in
        ground (
          arith,
          add_new_raw new,
          all,
          ap assemble complete,
          count_full (mark j p) 0 (length fs) all,
          count-mark p 0 j j (length fs) (omega arith) inside new,
          fits.counted,
          fits.last,
        )
    | inr short ↦ ground (
      arith,
      add_new_raw new,
      short,
      count_short (mark j p) 0 (length fs) short,
      count-mark p 0 j j (length fs) (omega arith) inside new,
      fits.counted,
      fits.last,
    )
  ]
