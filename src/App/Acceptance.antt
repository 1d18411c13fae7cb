-- ===== src/App/Acceptance.antt =====
-- What `RadioSink` of main/app_main.cpp refuses.
use esp32_rid.Prelude.{◌+◌, ◌≡◌, ◌≢◌, ◌↔◌, ◌⊎◌, true, false, arith}
use esp32_rid.Model.{is_ble, is_wifi}
use esp32_rid.Payload.{ScheduledPayload}
use esp32_rid.Coordinator.{depth, submit as wifi_submit}
use esp32_rid.Ble.{submit as ble_submit}
use esp32_rid.Runtime.Frames.{Sendable}
use esp32_rid.App.{Radios, radio_sink}

-- The radio of the transport of a payload takes payloads and has room in its queue.
abbrev pub HasRoom : ScheduledPayload → Radios → Type 0
HasRoom p s =
    ((is_ble p.transport ≡ true)
      × (s.ble.shutting_down ≡ false)
      × (s.ble.shut_down ≡ false)
      × (s.ble.pending_count ≢ 16))
    ⊎ ((is_wifi p.transport ≡ true) × (depth s.wifi p.transport ≢ 16))

-- A payload that its transport can send is accepted exactly when the radio of that transport has
-- not been shut down (BLE) and its queue has room: none is refused for its contents. A refused
-- payload changes nothing, so that a full queue keeps the payloads that it has, and no drop is
-- counted, however stale they are; an accepted one is one more payload waiting in that queue, and the
-- other radio stays as it was.
pub radio_sink_accepts :
    (p : ScheduledPayload) (s : Radios)
    → Sendable p
    → (((radio_sink p s).0 ≡ true) ↔ HasRoom p s)
      × ((radio_sink p s).0 ≡ false → (radio_sink p s).1 ≡ s)
      × ((radio_sink p s).0 ≡ true
          → ((is_ble p.transport ≡ true)
              × ((radio_sink p s).1.wifi ≡ s.wifi)
              × ((radio_sink p s).1.ble.pending_count ≡ s.ble.pending_count + 1))
            ⊎ ((is_wifi p.transport ≡ true)
                × ((radio_sink p s).1.ble ≡ s.ble)
                × (depth (radio_sink p s).1.wifi p.transport ≡ depth s.wifi p.transport + 1)))
unfolding radio_sink ble_submit wifi_submit depth
radio_sink_accepts p s h = ground arith
