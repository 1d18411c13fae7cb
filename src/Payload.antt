-- ===== src/Payload.antt =====
-- components/rid_scheduler/include/rid/scheduler.hpp: the payload record and the counters that the
-- scheduler and both radio transports share, with their order.
pub mod Order
use esp32_rid.Prelude.{
  le→leb, All-map, ℕ, zero, suc, ◌+◌, ◌-◌, ◌*◌, ◌/◌, ◌%◌, ◌^◌, ◌≤◌, ◌<◌, ◌≡◌, refl, sym, ap, ◌∙◌,
  ◌≢◌, ◌↔◌, ◌⊎◌, inl, inr, Bool, true, false, not, ◌&&◌, ◌||◌, Option, none, some, List, [], ◌∷◌,
  ◌++◌, map, append-nil, append_assoc, arith, ltb, leb, ◌==◌, if◌then◌else◌, ltb→lt, lt→ltb, leb→le,
  ==_iff, Bool-cases, Option-cases, if_cases, All, length, get_or, set, take, drop, replicate,
  erase_at, length-append, length-set, length-take, length-drop, length-replicate, length-erase_at,
  length-erase_at-le, take-append, drop-append, take-append-drop, All-append, All-erase_at,
  All-get_or,
}
use esp32_rid.Model.{Transport, ble4, MessageKind, location}

abbrev pub max_payload_size : ℕ
max_payload_size = 512

abbrev pub u64_max : ℕ
u64_max = 2 ^ 64 - 1

pub record ScheduledPayload : Type 0 where
  pub sequence : ℕ
  pub aircraft_index : ℕ
  pub transport : Transport
  pub kind : MessageKind
  pub deadline_ms : ℕ
  pub expires_at_ms : ℕ
  pub size : ℕ
  pub bytes : List ℕ

-- `ScheduledPayload{}`.
unfoldable pub blank : ScheduledPayload
blank = record {
  sequence = 0;
  aircraft_index = 0;
  transport = ble4;
  kind = location;
  deadline_ms = 0;
  expires_at_ms = 0;
  size = 0;
  bytes = replicate max_payload_size 0;
}

pub data ScheduleError : Type 0 where
  ok zero_capacity invalid_transport invalid_payload payload_too_large : ScheduleError

-- A `ByteView`: `null_view` is a null pointer with the size that is claimed for it.
pub data ByteView : Type 0 where
  null_view : ℕ → ByteView
  view : List ℕ → ByteView

abbrev pub view_size : ByteView → ℕ
view_size (null_view n) = n
view_size (view xs) = length xs

abbrev pub view_bytes : ByteView → List ℕ
view_bytes (null_view n) = []
view_bytes (view xs) = xs

abbrev pub is_null : ByteView → Bool
is_null (null_view n) = true
is_null (view xs) = false

-- `memcpy` to the front of a buffer.
abbrev pub overwrite : List ℕ → List ℕ → List ℕ
overwrite xs buffer = xs ++ drop (length xs) buffer

-- The bytes that a transport sends: the first `size` of the array.
abbrev pub payload_view : ScheduledPayload → List ℕ
payload_view p = take p.size p.bytes

unfoldable pub try_copy_from : ScheduledPayload → ByteView → ScheduleError × ScheduledPayload
try_copy_from destination payload =
    if ltb max_payload_size (view_size payload)
    then (payload_too_large, destination)
    else if ltb 0 (view_size payload) && is_null payload
    then (invalid_payload, destination)
    else (
      ok,
      record destination {
        bytes = overwrite (view_bytes payload) destination.bytes;
        size = view_size payload % 2 ^ 16;
      },
    )

unfoldable pub saturating_increment : ℕ → ℕ
saturating_increment value = if value == u64_max then value else value + 1

pub record TransportStats : Type 0 where
  pub expected : ℕ
  pub submitted : ℕ
  pub completed : ℕ
  pub late : ℕ
  pub dropped : ℕ
  pub encode_errors : ℕ
  pub radio_errors : ℕ

abbrev pub zero_stats : TransportStats
zero_stats = record {
  expected = 0;
  submitted = 0;
  completed = 0;
  late = 0;
  dropped = 0;
  encode_errors = 0;
  radio_errors = 0;
}

-- `increment(stats.<counter>)`.
abbrev pub add_expected : TransportStats → TransportStats
add_expected c = record c { expected = saturating_increment c.expected }

abbrev pub add_submitted : TransportStats → TransportStats
add_submitted c = record c { submitted = saturating_increment c.submitted }

abbrev pub add_completed : TransportStats → TransportStats
add_completed c = record c { completed = saturating_increment c.completed }

abbrev pub add_late : TransportStats → TransportStats
add_late c = record c { late = saturating_increment c.late }

abbrev pub add_dropped : TransportStats → TransportStats
add_dropped c = record c { dropped = saturating_increment c.dropped }

abbrev pub add_encode_errors : TransportStats → TransportStats
add_encode_errors c = record c { encode_errors = saturating_increment c.encode_errors }

abbrev pub add_radio_errors : TransportStats → TransportStats
add_radio_errors c = record c { radio_errors = saturating_increment c.radio_errors }

-- Earlier deadline first, then the smaller sequence number.
unfoldable pub older_than : ScheduledPayload → ScheduledPayload → Bool
older_than left right =
    if left.deadline_ms == right.deadline_ms
    then ltb left.sequence right.sequence
    else ltb left.deadline_ms right.deadline_ms

-- The test for a payload that is past its time; 0 stands for no expiry.
abbrev pub is_expired : ℕ → ScheduledPayload → Bool
is_expired now_ms p = not (p.expires_at_ms == 0) && ltb p.expires_at_ms now_ms
