-- ===== src/Coordinator.antt =====
-- components/rid_radio/radio_coordinator.cpp: one Wi-Fi radio shared by the queues of two bands.
-- The backend is a parameter; its state is passed along and returned.
pub mod Band
pub mod Invariant
pub mod OnAir
pub mod Run
pub mod Tests
use esp32_rid.Prelude.{
  le→leb, All-map, ℕ, zero, suc, ◌+◌, ◌-◌, ◌*◌, ◌/◌, ◌%◌, ◌^◌, ◌≤◌, ◌<◌, ◌≡◌, refl, sym, ap, ◌∙◌,
  ◌≢◌, ◌↔◌, ◌⊎◌, inl, inr, Bool, true, false, not, ◌&&◌, ◌||◌, Option, none, some, List, [], ◌∷◌,
  ◌++◌, map, append-nil, append_assoc, arith, ltb, leb, ◌==◌, if◌then◌else◌, ltb→lt, lt→ltb, leb→le,
  ==_iff, Bool-cases, Option-cases, if_cases, All, length, get_or, set, take, drop, replicate,
  erase_at, length-append, length-set, length-take, length-drop, length-replicate, length-erase_at,
  length-erase_at-le, take-append, drop-append, take-append-drop, All-append, All-erase_at,
  All-get_or,
}
use esp32_rid.Prelude.Arrays.{update}
use esp32_rid.Model.{Transport, wifi24, wifi58, is_wifi}
use esp32_rid.Payload.{
  ScheduledPayload, blank, TransportStats, zero_stats, add_expected, add_submitted, add_late,
  add_dropped, add_radio_errors, is_expired, payload_view, max_payload_size,
}
use esp32_rid.Slots.{slot, earliest, shift_from}
use esp32_rid.Radio.{EspErr, esp_ok, no_mem, invalid_arg, invalid_state, is_ok, WifiBackend}

abbrev pub queue_capacity : ℕ
queue_capacity = 16

pub record Coordinator : Type 0 where
  pub dwell_ms : ℕ
  pub retry_ms : ℕ
  pub pending : ℕ → List ScheduledPayload
  pub pending_count : ℕ → ℕ
  pub band_stats : ℕ → TransportStats
  pub invalid_stats : TransportStats
  pub active_band : ℕ
  pub current_channel : ℕ
  pub dwell_started_ms : ℕ
  pub retry_at_ms : ℕ
  pub configured : Bool

unfoldable pub init : ℕ → ℕ → Coordinator
init dwell_ms retry_ms = record {
  dwell_ms = dwell_ms;
  retry_ms = retry_ms;
  pending = λ band. replicate queue_capacity blank;
  pending_count = λ band. 0;
  band_stats = λ band. zero_stats;
  invalid_stats = zero_stats;
  active_band = 0;
  current_channel = 0;
  dwell_started_ms = 0;
  retry_at_ms = 0;
  configured = false;
}

abbrev pub band_index : Transport → ℕ
band_index wifi58 = 1
band_index _ = 0

abbrev pub band_channel : ℕ → ℕ
band_channel band = if band == 0 then 6 else 149

-- `band ^ 1U`.
abbrev pub other_band : ℕ → ℕ
other_band band = if band % 2 == 0 then band + 1 else band - 1

unfoldable pub submit : Coordinator → ScheduledPayload → EspErr × Coordinator
submit c payload =
    let band = band_index payload.transport in
    let count = c.pending_count band in
    if not (is_wifi payload.transport)
    then (invalid_arg, c)
    else if payload.size == 0 || ltb max_payload_size payload.size
    then (invalid_arg, c)
    else if count == queue_capacity
    then (no_mem, c)
    else (
      esp_ok,
      record c {
        pending = update c.pending band (set (c.pending band) count payload);
        pending_count = update c.pending_count band (count + 1);
        band_stats = update c.band_stats band (add_expected (c.band_stats band));
      },
    )

unfoldable pub earliest_index : Coordinator → ℕ → ℕ
unfolding earliest
earliest_index c band = earliest (c.pending_count band) (c.pending band)

unfoldable pub erase : Coordinator → ℕ → ℕ → Coordinator
erase c band index = record c {
  pending =
      update c.pending band (shift_from (c.pending_count band - suc index) index (c.pending band));
  pending_count = update c.pending_count band (c.pending_count band - 1);
}

-- `increment(stats_[band].<counter>)`.
abbrev pub count_in : Coordinator → ℕ → (TransportStats → TransportStats) → Coordinator
count_in c band f = record c { band_stats = update c.band_stats band (f (c.band_stats band)) }

-- A frame that the driver took: `submitted`, and `late` too when the deadline has passed.
abbrev pub sent_counts : ScheduledPayload → ℕ → TransportStats → TransportStats
sent_counts payload now_ms s =
    if ltb payload.deadline_ms now_ms then add_late (add_submitted s) else add_submitted s

-- Which band `poll` turns to, and whether it has to switch to it.
unfoldable pub plan : Coordinator → ℕ → ℕ × Bool
plan c now_ms =
    let active = c.active_band in
    let other = other_band active in
    let here = not (c.pending_count active == 0) in
    let there = not (c.pending_count other == 0) in
    let untuned = c.current_channel == 0 in
    if not untuned && not here && there
    then (other, true)
    else if not untuned
        && here
        && there
        && leb c.dwell_ms ((now_ms + 2 ^ 64 - c.dwell_started_ms) % 2 ^ 64)
    then (other, true)
    else (if untuned && not here then other else active, untuned)

module _ {D : Type 0} (backend : WifiBackend D) where
  unfoldable pub select_band : Coordinator → ℕ → ℕ → D → EspErr × Coordinator × D
  select_band c band now_ms d =
      if ltb now_ms c.retry_at_ms
      then (invalid_state, c, d)
      else (let (result, d') = backend.set_channel (band_channel band) d in
          if not (is_ok result)
          then (
            result,
            record (count_in c band add_radio_errors) {
              retry_at_ms = (now_ms + c.retry_ms) % 2 ^ 64;
            },
            d',
          )
          else (
            esp_ok,
            record c {
              active_band = band;
              current_channel = band_channel band;
              dwell_started_ms = now_ms;
              retry_at_ms = 0;
            },
            d',
          ))

  -- `poll` once the radio is configured and on the band.
  unfoldable pub send_next : Coordinator → ℕ → D → EspErr × Coordinator × D
  unfolding earliest_index erase
  send_next c now_ms d =
      let band = c.active_band in
      let selected = earliest_index c band in
      let payload = slot (c.pending band) selected in
      if c.pending_count band == 0
      then (esp_ok, c, d)
      else if is_expired now_ms payload
      then (esp_ok, erase (count_in c band add_dropped) band selected, d)
      else (let (result, d') = backend.transmit (payload_view payload) d in
          if not (is_ok result)
          then (result, count_in c band add_radio_errors, d')
          else (esp_ok, erase (count_in c band (sent_counts payload now_ms)) band selected, d'))

  -- `poll` after a switch: a retry that is still to wait for is no error of the poll.
  unfoldable pub after_switch : EspErr → Coordinator → ℕ → D → EspErr × Coordinator × D
  after_switch esp_ok c now_ms d = send_next c now_ms d
  after_switch invalid_state c now_ms d = (esp_ok, c, d)
  after_switch failed c now_ms d = (failed, c, d)

  -- `poll` once the radio is configured.
  unfoldable pub switch_and_send : Coordinator → ℕ → D → EspErr × Coordinator × D
  unfolding plan
  switch_and_send c now_ms d =
      let (target, switch_needed) = plan c now_ms in
      if switch_needed
      then (let (result, c', d') = select_band c target now_ms d in
          after_switch result c' now_ms d')
      else send_next c now_ms d

  unfoldable pub poll : Coordinator → ℕ → D → EspErr × Coordinator × D
  unfolding switch_and_send
  poll c now_ms d =
      if c.pending_count 0 == 0 && c.pending_count 1 == 0
      then (esp_ok, c, d)
      else if c.configured
      then switch_and_send c now_ms d
      else (let (result, d') = backend.set_country_cn d in
          if not (is_ok result)
          then (result, c, d')
          else switch_and_send (record c { configured = true }) now_ms d')

unfoldable pub depth : Coordinator → Transport → ℕ
depth c transport = if is_wifi transport then c.pending_count (band_index transport) else 0

unfoldable pub stats : Coordinator → Transport → TransportStats
stats c transport =
    if is_wifi transport then c.band_stats (band_index transport) else c.invalid_stats

-- What the runtime does to the coordinator, in order.
pub data Event : Type 0 where
  submits : ScheduledPayload → Event
  polls : ℕ → Event

module _ {D : Type 0} (backend : WifiBackend D) where
  unfoldable pub step : Coordinator × D → Event → Coordinator × D
  step (c, d) (submits p) = ((submit c p).1, d)
  step (c, d) (polls now_ms) = let (result, c', d') = poll backend c now_ms d in (c', d')

  unfoldable pub run : Coordinator × D → List Event → Coordinator × D
  unfolding step
  run s [] = s
  run s (e ∷ es) = run (step s e) es
