-- ===== src/App.antt =====
-- `RadioSink` of main/app_main.cpp: the sink that the application gives the runtime.
use esp32_rid.Prelude.{
  le→leb, All-map, ℕ, zero, suc, ◌+◌, ◌-◌, ◌*◌, ◌/◌, ◌%◌, ◌^◌, ◌≤◌, ◌<◌, ◌≡◌, refl, sym, ap, ◌∙◌,
  ◌≢◌, ◌↔◌, ◌⊎◌, inl, inr, Bool, true, false, not, ◌&&◌, ◌||◌, Option, none, some, List, [], ◌∷◌,
  ◌++◌, map, append-nil, append_assoc, arith, ltb, leb, ◌==◌, if◌then◌else◌, ltb→lt, lt→ltb, leb→le,
  ==_iff, Bool-cases, Option-cases, if_cases, All, length, get_or, set, take, drop, replicate,
  erase_at, length-append, length-set, length-take, length-drop, length-replicate, length-erase_at,
  length-erase_at-le, take-append, drop-append, take-append-drop, All-append, All-erase_at,
  All-get_or,
}
use esp32_rid.Model.{is_ble}
use esp32_rid.Payload.{ScheduledPayload}
use esp32_rid.Radio.{is_ok}
use esp32_rid.Coordinator.{Coordinator, submit as wifi_submit}
use esp32_rid.Ble.{Ble, BleError, no_error, submit as ble_submit}
use esp32_rid.Runtime.{Sink}
pub mod Acceptance
pub mod Rounds
pub mod Polls
pub mod Operation
mod Tests

-- The objects that `RadioSink` refers to.
pub record Radios : Type 0 where
  pub wifi : Coordinator
  pub ble : Ble

abbrev pub is_accepted : BleError → Bool
is_accepted no_error = true
is_accepted _ = false

unfoldable pub radio_sink : Sink Radios
radio_sink payload s =
    if is_ble payload.transport
    then (is_accepted (ble_submit s.ble payload).0, record s { ble = (ble_submit s.ble payload).1 })
    else (is_ok (wifi_submit s.wifi payload).0, record s { wifi = (wifi_submit s.wifi payload).1 })
