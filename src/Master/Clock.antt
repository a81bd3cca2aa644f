-- ===== src/Master/Clock.antt =====
-- The clock of a node (`getCurrentTimestamp`, `getSecondsPastHour` of BlockChainCommon/functions.cpp)
-- and the hourly voting timestamp (MasterNodeLib.cpp).
use decentralized_cloud.Base.{
  ℕ, ◌+◌, ◌-◌, ◌*◌, ◌/◌, ◌%◌, ◌^◌, ◌≤◌, ◌<◌, ◌≡◌, ◌↔◌, ap, Option, none, some, Bool, true, false,
  leb, if◌then◌else◌, arith,
}
use decentralized_cloud.Base.Decimal.{to_string, stoull, stoull-to_string}
use decentralized_cloud.Master.State.{Node}

-- `time_t getSecondsPastHour(time_t timestamp)`
unfoldable pub get_seconds_past_hour : ℕ → ℕ
get_seconds_past_hour timestamp = timestamp % 3600

-- `currentTimestamp = appStartupTime + (time(0) - appSystemStartupTime)`, for a system clock that
-- does not stand before the startup.
unfoldable pub get_current_timestamp : ℕ → ℕ → ℕ → Node → Node
get_current_timestamp app_startup system_startup time n = record n {
  now = app_startup + (time - system_startup);
}

abbrev open_voting_start_minute : ℕ
open_voting_start_minute = 55

unfoldable pub in_voting_time : Node → Bool
unfolding get_seconds_past_hour
in_voting_time n = leb open_voting_start_minute (get_seconds_past_hour n.now / 60)

unfoldable initialize_next_voting_timestamp : Node → Node
unfolding get_seconds_past_hour
initialize_next_voting_timestamp n =
    let seconds_until_next_hour = 3600 - get_seconds_past_hour n.now in
    record n {
      next_voting_timestamp_str =
          to_string (n.now + seconds_until_next_hour - (60 - open_voting_start_minute) * 60);
    }

-- `none` is the exception of `std::stoull`; the sum is a 64-bit number.
unfoldable pub update_next_voting_timestamp : Node → Option Node
update_next_voting_timestamp n = elim (stoull n.next_voting_timestamp_str) [
  | none ↦ none
  | some last ↦ some (record n { next_voting_timestamp_str = to_string ((last + 3600) % 2 ^ 64) })
]

unfoldable pub can_participate_in_voting : Node → Bool
can_participate_in_voting n = if n.ignore_this_voting_round then false else true

-- The voting timestamp of an hour: its 55th minute.
abbrev pub voting_start : ℕ → ℕ
voting_start hour = hour * 3600 + 3300

-- A node starts with the 55th minute of the hour it starts in, whatever second it starts at.
initialize_next_voting_timestamp-voting_start :
    (n : Node)
    → (initialize_next_voting_timestamp n).next_voting_timestamp_str
      ≡ to_string (voting_start (n.now / 3600))
unfolding initialize_next_voting_timestamp get_seconds_past_hour
initialize_next_voting_timestamp-voting_start n = ap to_string (omega arith)

update_read :
    (n : Node) (last next : ℕ)
    → stoull n.next_voting_timestamp_str ≡ some last
    → (last + 3600) % 2 ^ 64 ≡ next
    → update_next_voting_timestamp n
      ≡ some (record n { next_voting_timestamp_str = to_string next })
unfolding update_next_voting_timestamp
update_read n last next read sum = rw (read, update_next_voting_timestamp) (rw sum)

-- Closing a vote moves the timestamp from the voting minute of one hour to that of the next, and never
-- throws. The timestamps stay below 2^64.
pub update_next_voting_timestamp-voting_start :
    (n : Node) (hour : ℕ)
    → n.next_voting_timestamp_str ≡ to_string (voting_start hour)
    → voting_start (hour + 1) < 2 ^ 64
    → update_next_voting_timestamp n
      ≡ some (record n { next_voting_timestamp_str = to_string (voting_start (hour + 1)) })
unfolding update_next_voting_timestamp
update_next_voting_timestamp-voting_start n hour e h =
    let read : stoull n.next_voting_timestamp_str ≡ some (voting_start hour) =
      rw e (stoull-to_string (voting_start hour) (omega arith)) in
    let next : (voting_start hour + 3600) % 2 ^ 64 ≡ voting_start (hour + 1) = omega arith in
    update_read n (voting_start hour) (voting_start (hour + 1)) read next

-- Voting is open exactly from the voting minute of the hour to its end.
in_voting_time_iff : (n : Node) → (in_voting_time n ≡ true) ↔ (voting_start (n.now / 3600) ≤ n.now)
unfolding in_voting_time
in_voting_time_iff n = ground arith
