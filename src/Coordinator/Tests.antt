-- ===== src/Coordinator/Tests.antt =====
-- The coordinator on concrete payloads, over a backend that answers from a list.
use esp32_rid.Prelude.{ℕ, ◌+◌, ◌≤◌, ◌≡◌, refl, List, [], ◌∷◌, arith}
use esp32_rid.Model.{Transport, wifi24, wifi58}
use esp32_rid.Payload.{ScheduledPayload, blank, older_than}
use esp32_rid.Slots.{earliest, shift_from}
use esp32_rid.Radio.{esp_ok, WifiBackend}
use esp32_rid.Coordinator.{
  init, submit, poll, Event, submits, polls, run, depth, stats, plan, select_band, send_next,
  after_switch, switch_and_send,
}
use esp32_rid.Coordinator.OnAir.{Air, traced, Transmits}
use esp32_rid.Coordinator.Run.{stats-run, poll-Transmits}

-- A driver that takes everything.
abbrev willing : WifiBackend (Unit {0})
willing = record {
  set_country_cn = λ d. (esp_ok, d);
  set_channel = λ channel d. (esp_ok, d);
  transmit = λ frame d. (esp_ok, d);
}

abbrev payload : ℕ → Transport → ℕ → ScheduledPayload
payload sequence transport deadline = record {
  sequence = sequence;
  aircraft_index = 0;
  transport = transport;
  kind = blank.kind;
  deadline_ms = deadline;
  expires_at_ms = deadline + 1000;
  size = 2;
  bytes = sequence ∷ 7 ∷ 0 ∷ [];
}

abbrev script : List Event
script =
    submits (payload 0 wifi24 20)
    ∷ submits (payload 1 wifi58 10)
    ∷ submits (payload 2 wifi24 15)
    ∷ polls 30
    ∷ polls 40
    ∷ polls 200
    ∷ []

abbrev start : Air (Unit {0})
start = record { device = tt; tuned = 0; sent = [] }

on_air :
    (run (traced willing) (init 100 20, start) script).1.sent
    ≡ (149, 1 ∷ 7 ∷ []) ∷ (6, 0 ∷ 7 ∷ []) ∷ (6, 2 ∷ 7 ∷ []) ∷ []
unfolding run init submit poll plan select_band send_next after_switch switch_and_send earliest
    shift_from older_than
on_air = refl

stats-run_example :
    let c = (run willing (init 100 20, tt) script).0 in
    ((stats c wifi24).expected
      ≡ (stats c wifi24).submitted + (stats c wifi24).dropped + depth c wifi24)
    × (depth c wifi24 ≤ 16)
    × ((stats c wifi24).completed ≡ 0)
stats-run_example = stats-run willing 100 20 tt script wifi24 (omega arith) refl

poll-Transmits_example :
    let s = run (traced willing) (init 100 20, start) script in
    let s' = poll (traced willing) s.0 300 s.1 in
    Transmits s.0.pending s.0.pending_count 300 s.1.sent s'.2.sent
poll-Transmits_example = poll-Transmits willing 100 20 300 tt script (omega arith)
