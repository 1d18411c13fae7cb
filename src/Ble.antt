-- ===== src/Ble.antt =====
-- `BleTransport` of components/rid_radio/ble_transport.cpp: one advertisement at a time from a queue,
-- with a ring for the completions that the host task reports. The GAP backend is a parameter; its
-- state is passed along and returned.
pub mod Queue
pub mod Invariant
pub mod Steps
pub mod Polls
pub mod Progress
pub mod Run
pub mod OnAir
pub mod Drain
pub mod Shutdown
pub mod ServiceData
pub mod Nimble
pub mod Tests
use esp32_rid.Prelude.{
  le→leb, All-map, ℕ, zero, suc, ◌+◌, ◌-◌, ◌*◌, ◌/◌, ◌%◌, ◌^◌, ◌≤◌, ◌<◌, ◌≡◌, refl, sym, ap, ◌∙◌,
  ◌≢◌, ◌↔◌, ◌⊎◌, inl, inr, Bool, true, false, not, ◌&&◌, ◌||◌, Option, none, some, List, [], ◌∷◌,
  ◌++◌, map, append-nil, append_assoc, arith, ltb, leb, ◌==◌, if◌then◌else◌, ltb→lt, lt→ltb, leb→le,
  ==_iff, Bool-cases, Option-cases, if_cases, All, length, get_or, set, take, drop, replicate,
  erase_at, length-append, length-set, length-take, length-drop, length-replicate, length-erase_at,
  length-erase_at-le, take-append, drop-append, take-append-drop, All-append, All-erase_at,
  All-get_or,
}
use esp32_rid.Prelude.Arrays.{update}
use esp32_rid.Model.{Transport, ble4, ble5, is_ble}
use esp32_rid.Payload.{
  ScheduledPayload, blank, TransportStats, zero_stats, add_expected, add_submitted, add_completed,
  add_late, add_dropped, add_radio_errors, is_expired, payload_view,
}
use esp32_rid.Slots.{slot, earliest, shift_from}
use esp32_rid.Radio.{EspErr, esp_ok, is_ok}

abbrev pub legacy_max : ℕ
legacy_max = 31

abbrev pub extended_max : ℕ
extended_max = 158

abbrev pub queue_capacity : ℕ
queue_capacity = 16

-- `completions_.size()`; one entry of the ring stays free.
abbrev pub ring_size : ℕ
ring_size = 8

pub data BleMode : Type 0 where
  legacy extended : BleMode

pub data BleError : Type 0 where
  no_error invalid_transport invalid_payload payload_too_large queue_full backend_error : BleError

pub record Completion : Type 0 where
  pub status : EspErr
  pub event_count : ℕ

-- `BleGapBackend`, over the state `D` of whatever implements it. The callback is there or is null.
pub record GapBackend (D : Type 0) : Type 0 where
  pub configure : BleMode → List ℕ → D → EspErr × D
  pub start : D → EspErr × D
  pub reset : D → EspErr × D
  pub set_callback : Bool → D → D

pub record Ble : Type 0 where
  pub pending : List ScheduledPayload
  pub pending_count : ℕ
  pub completions : ℕ → Completion
  pub write : ℕ
  pub read : ℕ
  pub overflows : ℕ
  pub counters : ℕ → TransportStats
  pub invalid_stats : TransportStats
  pub active_transport : Transport
  pub busy : Bool
  pub shutting_down : Bool
  pub shut_down : Bool

abbrev pub stats_index : Transport → ℕ
stats_index ble5 = 1
stats_index _ = 0

unfoldable pub fresh : Ble
fresh = record {
  pending = replicate queue_capacity blank;
  pending_count = 0;
  completions = λ i. record { status = esp_ok; event_count = 0 };
  write = 0;
  read = 0;
  overflows = 0;
  counters = λ i. zero_stats;
  invalid_stats = zero_stats;
  active_transport = ble4;
  busy = false;
  shutting_down = false;
  shut_down = false;
}

abbrev pub mode_of : Transport → BleMode
mode_of ble4 = legacy
mode_of _ = extended

-- The largest payload of a transport.
abbrev pub maximum : Transport → ℕ
maximum ble4 = legacy_max
maximum _ = extended_max

abbrev pub count_in : Ble → ℕ → (TransportStats → TransportStats) → Ble
count_in b i f = record b { counters = update b.counters i (f (b.counters i)) }

unfoldable pub submit : Ble → ScheduledPayload → BleError × Ble
submit b payload =
    if b.shutting_down || b.shut_down
    then (backend_error, b)
    else if not (is_ble payload.transport)
    then (invalid_transport, b)
    else if payload.size == 0 || ltb 512 payload.size
    then (invalid_payload, b)
    else if ltb (maximum payload.transport) payload.size
    then (payload_too_large, b)
    else if b.pending_count == queue_capacity
    then (queue_full, b)
    else (
      no_error,
      count_in
          (record b {
            pending = set b.pending b.pending_count payload;
            pending_count = b.pending_count + 1;
          })
          (stats_index payload.transport) add_expected,
    )

-- `enqueue_completion`, which the host task calls.
unfoldable pub enqueue_completion : Ble → Completion → Ble
enqueue_completion b event =
    let next = (b.write + 1) % ring_size in
    if next == b.read
    then record b { overflows = (b.overflows + 1) % 2 ^ 32 }
    else record b { completions = update b.completions b.write event; write = next }

-- A completion that tells of at least one advertisement.
abbrev pub succeeded : Completion → Bool
succeeded event = is_ok event.status && ltb 0 event.event_count

-- The end of the advertisement that is on the air, if there is one.
unfoldable pub finish : Bool → Ble → Ble
finish success b =
    if b.busy
    then record (count_in b (stats_index b.active_transport)
        (if success then add_completed else add_radio_errors)) { busy = false }
    else b

-- The loop of `drain_completions`, up to the write position that it has loaded.
unfoldable pub drain_loop : ℕ → Ble → ℕ → Ble
unfolding finish
drain_loop zero b write = b
drain_loop (suc fuel) b write =
    let b' = finish (succeeded (b.completions b.read)) b in
    let rest = drain_loop fuel (record b' { read = (b.read + 1) % ring_size }) write in
    if b.read == write then b else rest

unfoldable pub drain_completions : Ble → Ble
unfolding drain_loop finish
drain_completions b =
    let b' = drain_loop ring_size b b.write in
    let idle = record b' { overflows = 0 } in if ltb 0 b'.overflows then finish false idle else idle

-- `erase_pending`.
unfoldable pub erase_pending : Ble → ℕ → Ble
erase_pending b index = record b {
  pending = shift_from (b.pending_count - suc index) index b.pending;
  pending_count = b.pending_count - 1;
}

unfoldable pub earliest_pending_index : Ble → ℕ
unfolding earliest
earliest_pending_index b = earliest b.pending_count b.pending

module _ {D : Type 0} (backend : GapBackend D) where
  -- The constructor registers the callback.
  unfoldable pub create : D → Ble × D
  create d = (fresh, backend.set_callback true d)

  -- `configure`, and `start` if that succeeds.
  unfoldable pub advertise : BleMode → List ℕ → D → EspErr × D
  advertise mode bytes d =
      let (configured, d1) = backend.configure mode bytes d in
      let (started, d2) = backend.start d1 in
      if is_ok configured then (started, d2) else (configured, d1)

  -- The part of `poll` for a payload that is taken out of the queue and has not expired.
  unfoldable pub send : Ble → ScheduledPayload → ℕ → D → BleError × Ble × D
  send b selected now_ms d =
      let i = stats_index selected.transport in
      let (result, d') = advertise (mode_of selected.transport) (payload_view selected) d in
      if not (is_ok result) then (backend_error, count_in b i add_radio_errors, d') else (
        no_error,
        count_in (record b { active_transport = selected.transport; busy = true }) i
            (λ s.
              if ltb selected.deadline_ms now_ms
              then add_late (add_submitted s)
              else add_submitted s),
        d',
      )

  -- The loop of `poll`; `fuel` is the number of payloads left.
  unfoldable pub poll_loop : ℕ → Ble → ℕ → D → BleError × Ble × D
  unfolding earliest_pending_index erase_pending
  poll_loop zero b now_ms d = (no_error, b, d)
  poll_loop (suc fuel) b now_ms d =
      let index = earliest_pending_index b in
      let selected = slot b.pending index in
      let b' = erase_pending b index in
      let rest =
        poll_loop fuel (count_in b' (stats_index selected.transport) add_dropped) now_ms d in
      if is_expired now_ms selected then rest else send b' selected now_ms d

  unfoldable pub poll : Ble → ℕ → D → BleError × Ble × D
  poll b now_ms d =
      let b' = drain_completions b in
      if b.shutting_down || b.shut_down
      then (backend_error, b, d)
      else if b'.busy
      then (no_error, b', d)
      else poll_loop b'.pending_count b' now_ms d

  unfoldable pub shutdown : Ble → D → EspErr × Ble × D
  shutdown b d =
      let d1 = if b.shutting_down then d else backend.set_callback false d in
      let b1 = record b { shutting_down = true } in
      let (result, d2) = backend.reset d1 in
      if b.shut_down
      then (esp_ok, b, d)
      else if not (is_ok result)
      then (result, b1, d2)
      else (esp_ok, record b1 { shut_down = true; busy = false; pending_count = 0 }, d2)

-- `depth`.
abbrev pub depth : Ble → ℕ
depth b = b.pending_count

unfoldable pub stats : Ble → Transport → TransportStats
stats b transport = if is_ble transport then b.counters (stats_index transport) else b.invalid_stats
