-- ===== src/Wire/Fragments/Single.antt =====
-- A packet that fits into one fragment, from `fragmentPacket` of BlockChainCommon/functions.cpp to the
-- message that `IncomingMessage` gives.
use mathlib.Core.List.{append-nil}
use decentralized_cloud.Base.{
  ℕ, zero, suc, ◌≤◌, ◌<◌, ◌≡◌, refl, ap, some, false, List, [], ◌∷◌, ◌++◌, Text, ltb, is_empty,
  length, take, arith, codes, Bool-cases, inl, inr, ◌⊎◌,
}
use decentralized_cloud.Base.Decimal.{to_string}
use decentralized_cloud.Message.{Effect, dht_put}
use decentralized_cloud.Wire.Escapes.{has_char}
use decentralized_cloud.Wire.Plain.{has_char-append, to_string-Plain}
use decentralized_cloud.Wire.Fragments.Assembly.{add_each}
use decentralized_cloud.Wire.Fragments.{
  new_message, add, assemble, payload, after_colon, fragment_packet, cut_packets, two_digits,
  num_packets, packet_size,
}

take-whole : (n : ℕ) (s : Text) → length s ≤ n → take n s ≡ s
take-whole zero [] h = refl
take-whole zero (c ∷ s) h = absurd (omega arith)
take-whole (suc n) [] h = refl
take-whole (suc n) (c ∷ s) h = ap (λ t. c ∷ t) (take-whole n s (omega arith))

after_colon-append : (h s : Text) → has_char b':' h ≡ false → after_colon (h ++ b':' ∷ s) ≡ some s
unfolding after_colon
after_colon-append [] s none_there = refl
after_colon-append (c ∷ h) s none_there = ground (arith, after_colon-append h s)

-- The header of the only packet.
abbrev only_header : ℕ → Text
only_header nonce = (to_string nonce ++ codes "00") ++ codes "00"

only_header-colon : (nonce : ℕ) → has_char b':' (only_header nonce) ≡ false
only_header-colon nonce = ground (
  arith,
  has_char-append b':' (to_string nonce ++ codes "00") (codes "00"),
  has_char-append b':' (to_string nonce) (codes "00"),
  (to_string-Plain nonce).colon,
)

two_digits_zero : two_digits 0 ≡ codes "00"
unfolding two_digits to_string
two_digits_zero = refl

num_packets_one :
    (packet : Text) → is_empty packet ≡ false → length packet ≤ packet_size → num_packets packet ≡ 1
unfolding num_packets
num_packets_one [] full short = cc
num_packets_one (c ∷ packet) full short = ground arith

cut_packets_one :
    (nonce : ℕ) (packet : Text)
    → length packet ≤ packet_size
    → cut_packets (to_string nonce) (two_digits 0) packet 1 0
      ≡ (only_header nonce ++ b':' ∷ packet) ∷ []
unfolding cut_packets
cut_packets_one nonce packet short = rw (two_digits_zero, take-whole packet_size packet short) refl

fragment_packet_short :
    (nonce : ℕ) (packet : Text)
    → is_empty packet ≡ false
    → length packet ≤ packet_size
    → fragment_packet nonce packet ≡ ([], (only_header nonce ++ b':' ∷ packet) ∷ [])
unfolding fragment_packet
fragment_packet_short nonce packet full short =
    rw (num_packets_one packet full short)
      (ap (λ ps. ([], ps)) (cut_packets_one nonce packet short))

fragment_packet_long :
    (nonce : ℕ) (packet : Text)
    → packet_size < length packet
    → fragment_packet nonce packet ≡ (dht_put (to_string nonce) packet false ∷ [], [])
unfolding fragment_packet num_packets
fragment_packet_long nonce packet long = ground arith

-- Whoever adds the only packet to a new message gets the text.
add_only :
    (now later nonce : ℕ) (originator packet : Text)
    → (add later 0 (only_header nonce ++ b':' ∷ packet) (new_message now 0 originator)).0 ≡ packet
unfolding add assemble payload new_message
add_only now later nonce originator packet =
    rw (after_colon-append (only_header nonce) packet (only_header-colon nonce)) (append-nil packet)

-- What is made of a packet.
abbrev pub Fragmented : ℕ → Text → List Effect × List Text → Type 0
Fragmented nonce packet (effects, fragments) =
    ((packet_size < length packet)
      × (effects ≡ dht_put (to_string nonce) packet false ∷ [])
      × (fragments ≡ []))
    ⊎ ((length packet ≤ packet_size)
        × (effects ≡ [])
        × ((now later : ℕ) (originator : Text)
            → add_each fragments ((later, 0) ∷ []) (new_message now 0 originator) ≡ packet ∷ []))

-- A packet that is not empty is put into the table, under its nonce, if it has more than 50 bytes, and
-- sent as no fragment; else it is sent as one fragment, and who adds this to a new message gets the
-- packet.
pub fragment_packet-add_each :
    (nonce : ℕ) (packet : Text)
    → is_empty packet ≡ false
    → Fragmented nonce packet (fragment_packet nonce packet)
unfolding add_each
fragment_packet-add_each nonce packet full = elim (Bool-cases (ltb packet_size (length packet))) [
  | inl long ↦
      let over : packet_size < length packet = ground arith in
      rw (fragment_packet_long nonce packet over) (inl (over, refl, refl))
  | inr short ↦
      let under : length packet ≤ packet_size = ground arith in
      rw (fragment_packet_short nonce packet full under) (
        inr (
          under,
          refl,
          λ now later originator. ap (λ t. t ∷ []) (add_only now later nonce originator packet),
        ))
]
