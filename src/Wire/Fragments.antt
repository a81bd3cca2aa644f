-- ===== src/Wire/Fragments.antt =====
-- Packets in fragments: `fragmentPacket` of BlockChainCommon/functions.cpp, and the class
-- `IncomingMessage` of BlockChainCommon/IncomingMessage.cpp. The header of the class is not in the
-- repository; its members are read off their uses, and its numbers are taken not to overflow.
pub mod Slots
pub mod Filling
pub mod Assembly
pub mod Single
use decentralized_cloud.Base.{
  ℕ, zero, suc, ◌+◌, ◌-◌, ◌*◌, ◌/◌, ◌%◌, ◌^◌, Option, none, some, Bool, true, false, List, [], ◌∷◌,
  ◌++◌, Text, nat_beq, ltb, leb, is_empty, codes, if◌then◌else◌, maybe, length, take, drop, set,
  get_elem?,
}
use decentralized_cloud.Base.Decimal.{to_string}
use decentralized_cloud.Message.{Effect, dht_put}

-- `packetSize`
abbrev pub packet_size : ℕ
packet_size = 50

-- A number with a zero before a single digit.
unfoldable pub two_digits : ℕ → Text
unfolding to_string
two_digits n = let t = to_string n in if nat_beq (length t) 1 then b'0' ∷ t else t

-- The loop that makes `left` packets from the one with the number `current` on.
unfoldable pub cut_packets : Text → Text → Text → ℕ → ℕ → List Text
cut_packets id last packet zero current = []
cut_packets id last packet (suc left) current =
    (((id ++ two_digits current) ++ last)
      ++ b':' ∷ take packet_size (drop (current * packet_size) packet))
    ∷ cut_packets id last packet left (current + 1)

-- `numPackets`
unfoldable pub num_packets : Text → ℕ
num_packets packet =
    let whole = length packet / packet_size in
    if nat_beq (length packet % packet_size) 0 then whole else whole + 1

-- A packet that is too long for one fragment is put into the table instead.
unfoldable pub fragment_packet : ℕ → Text → List Effect × List Text
unfolding num_packets cut_packets
fragment_packet nonce packet =
    let num = num_packets packet in
    if ltb 1 num
    then (dht_put (to_string nonce) packet false ∷ [], [])
    else ([], cut_packets (to_string nonce) (two_digits (num - 1)) packet num 0)

-- Times are milliseconds; a time point that is not set is 0.
pub record IncomingMessage : Type 0 where
  pub messages : List Text
  pub last_packet_index : ℕ
  pub how_many_received : ℕ
  pub arrival_time : ℕ
  pub last_packet_time : ℕ
  pub time_to_wait : ℕ
  pub number_of_maydays : ℕ
  pub originator : Text

abbrev default_wait_time : ℕ
default_wait_time = 1000

abbrev pub empty_slots : ℕ → List Text
empty_slots zero = []
empty_slots (suc n) = [] ∷ empty_slots n

-- A message that waits for its fragments.
unfoldable pub new_message : ℕ → ℕ → Text → IncomingMessage
new_message now last_packet_index originator = record {
  messages = empty_slots (last_packet_index + 1);
  last_packet_index = last_packet_index;
  how_many_received = 0;
  arrival_time = now;
  last_packet_time = 0;
  time_to_wait = default_wait_time;
  number_of_maydays = 0;
  originator = originator;
}

-- A message with all its fragments; without any, the index of the last one wraps around.
unfoldable message_of : ℕ → List Text → IncomingMessage
message_of now fragments = record {
  messages = fragments;
  last_packet_index = if is_empty fragments then 2 ^ 64 - 1 else length fragments - 1;
  how_many_received = length fragments;
  arrival_time = now;
  last_packet_time = 0;
  time_to_wait = default_wait_time;
  number_of_maydays = 0;
  originator = [];
}

after_colon : Text → Option Text
after_colon [] = none
after_colon (c ∷ s) = let more = after_colon s in if nat_beq c b':' then some s else more

-- What stands behind the first colon; without one, all of it, as `npos + 1` is 0.
unfoldable pub payload : Text → Text
unfolding after_colon
payload segment = maybe (after_colon segment) segment λ s. s

unfoldable pub assemble : List Text → Text
unfolding payload
assemble [] = []
assemble (segment ∷ segments) = payload segment ++ assemble segments

-- `getSegmentAt`, which is empty out of range.
unfoldable pub get_segment_at : ℕ → IncomingMessage → Text
get_segment_at index m = maybe (get_elem? m.messages index) [] λ s. s

-- `add`: the message, once its last fragment is there, or the empty text.
unfoldable pub add : ℕ → ℕ → Text → IncomingMessage → Text × IncomingMessage
unfolding assemble get_segment_at
add now index fragment m =
    let received = m.how_many_received + 1 in
    let segments = set m.messages index fragment in
    let m' = record m {
      messages = segments;
      last_packet_time = now;
      time_to_wait = default_wait_time;
      number_of_maydays = 0;
      how_many_received = received;
    } in
    if leb (length m.messages) index
    then ([], m)
    else if is_empty (get_segment_at index m)
    then (if ltb m.last_packet_index received then assemble segments else [], m')
    else ([], m)

unfoldable get_seconds_elapsed : ℕ → IncomingMessage → ℕ
get_seconds_elapsed now m = (now - m.arrival_time) / 1000

unfoldable is_missing : IncomingMessage → Bool
is_missing m = leb m.how_many_received m.last_packet_index

unfoldable can_send_mayday : ℕ → IncomingMessage → Bool × IncomingMessage
can_send_mayday now m =
    let maydays = m.number_of_maydays + 1 in
    if leb m.time_to_wait (now - m.last_packet_time)
    then (
      true,
      record m {
        number_of_maydays = maydays;
        time_to_wait = m.time_to_wait + default_wait_time * maydays;
      },
    )
    else (false, m)

-- The loop over the slots from `index` on.
unfoldable list_missing : ℕ → List Text → Text → Text
list_missing index [] packet = packet
list_missing index (segment ∷ segments) packet =
    let more = (if is_empty packet then [] else packet ++ b',' ∷ []) ++ to_string index in
    list_missing (index + 1) segments (if is_empty segment then more else packet)

unfoldable get_mayday_packet : IncomingMessage → Text
unfolding list_missing
get_mayday_packet m = list_missing 0 m.messages []
