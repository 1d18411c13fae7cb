-- ===== src/Ble/Tests.antt =====
-- Tests of the BLE transport.
use esp32_rid.Ble.{extended}
use esp32_rid.Ble.{legacy}
use esp32_rid.Prelude.{
  ℕ, ◌+◌, ◌-◌, ◌≤◌, ◌≡◌, refl, ◌⊎◌, inr, true, false, none, some, List, [], ◌∷◌, arith, ◌==◌,
  if◌then◌else◌, length, replicate,
}
use esp32_rid.Model.{Transport, ble4, ble5, location}
use esp32_rid.Payload.{ScheduledPayload, older_than}
use esp32_rid.Slots.{shift_from, earliest}
use esp32_rid.Radio.{esp_ok, is_ok}
use esp32_rid.Radio.Pending.{live}
use esp32_rid.Ble.Queue.{waiting}
use esp32_rid.Ble.Invariant.{in_flight}
use esp32_rid.Ble.Run.{Event, submits, polls, completes, run, step, run_created, stats-run_created}
use esp32_rid.Ble.OnAir.{OneAdvert, queue_of, poll-OneAdvert}
use esp32_rid.Ble.Drain.{completion-frees}
use esp32_rid.Ble.Shutdown.{run-shutdown}
use esp32_rid.Payload.{view}
use esp32_rid.Wifi.{is_message_pack}
use esp32_rid.Ble.ServiceData.{no_error, build_service_data, parse_service_data, parse-build}
use esp32_rid.Ble.Nimble.{
  Host, Nimble, configure, reset, reset_at, ensure_configured, set_payload, fill, new_backend,
  start,
}
use esp32_rid.Ble.Nimble.Memory.{metered, held, configure-held}
use esp32_rid.Ble.Nimble.Instances.{
  BackendCall, configures, starts, resets, tracked, perform, perform_all, used, NoInstance,
  reset-NoInstance,
}
use esp32_rid.Ble.{
  legacy, extended, BleMode, Completion, GapBackend, fresh, create, submit, poll, poll_loop, send,
  advertise, finish, drain_loop, drain_completions, enqueue_completion, erase_pending,
  earliest_pending_index, shutdown, stats, depth, queue_capacity,
}

-- A backend that takes everything and keeps what it was given to advertise.
abbrev recording : GapBackend (List (BleMode × List ℕ))
recording = record {
  configure = λ mode bytes d. (esp_ok, (mode, bytes) ∷ d);
  start = λ d. (esp_ok, d);
  reset = λ d. (esp_ok, d);
  set_callback = λ on d. d;
}

abbrev payload : ℕ → Transport → ℕ → ScheduledPayload
payload sequence transport deadline = record {
  sequence = sequence;
  aircraft_index = 0;
  transport = transport;
  kind = location;
  deadline_ms = deadline;
  expires_at_ms = 100;
  size = 2;
  bytes = sequence ∷ 7 ∷ 0 ∷ [];
}

abbrev done : Completion
done = record { status = esp_ok; event_count = 1 }

abbrev script : List Event
script =
    submits (payload 0 ble4 20)
    ∷ submits (payload 1 ble5 10)
    ∷ submits (payload 2 ble4 30)
    ∷ polls 5
    ∷ polls 6
    ∷ completes done
    ∷ polls 25
    ∷ []

on_air :
    let c = create recording [] in
    (run recording script c.0 c.1).1 ≡ (legacy, 0 ∷ 7 ∷ []) ∷ (extended, 1 ∷ 7 ∷ []) ∷ []
unfolding run step create fresh submit poll poll_loop send advertise finish drain_loop
    drain_completions enqueue_completion erase_pending earliest_pending_index earliest shift_from
    older_than
on_air = refl

stats-run_created_example :
    let b = run_created recording script [] in
    let c = stats b ble4 in
    (c.expected
      ≡ c.completed
        + c.radio_errors
        + c.dropped
        + waiting 0 (live b.pending_count b.pending)
        + in_flight 0 b)
    × (c.completed + in_flight 0 b ≤ c.submitted)
    × (depth b ≤ queue_capacity)
stats-run_created_example = stats-run_created recording script [] ble4 (omega arith) refl

poll-OneAdvert_example :
    let c = create recording [] in
    let s = run recording script c.0 c.1 in
    let b' = drain_completions s.0 in
    let r = poll recording s.0 40 s.1 in
    OneAdvert recording 40 (queue_of b') s.1 r × ((b'.busy ≡ false) ⊎ (r.2 ≡ s.1))
poll-OneAdvert_example = poll-OneAdvert recording 40 script [] (omega arith)

completion-frees_example :
    let b = enqueue_completion (run_created recording script []) done in
    let b' = drain_completions b in (b'.busy ≡ false) × (b'.read ≡ b.write) × (b'.overflows ≡ 0)
completion-frees_example = completion-frees recording script [] done (omega arith)

run-shutdown_example :
    let r = shutdown recording fresh [] in
    let s = run recording script r.1 r.2 in
    (s.1 ≡ r.2) × (s.0.counters ≡ fresh.counters) × ((is_ok r.0 ≡ false) ⊎ (depth s.0 ≡ 0))
unfolding fresh
run-shutdown_example = run-shutdown recording script fresh [] refl

-- Two messages of zeros.
abbrev pack : List ℕ
pack = 0xf2 ∷ 25 ∷ 2 ∷ replicate 50 0

parse-build_example :
    let r = build_service_data (view pack) 7 in
    (r.0 ≡ no_error)
    × (parse_service_data r.1 ≡ some (7, pack))
    × (length r.1 ≡ 53 + 5)
    × (length r.1 ≤ 158)
unfolding is_message_pack
parse-build_example = parse-build (view pack) 7 refl (inr refl) (omega arith)

-- A host with one buffer, that refuses to append to it.
abbrev stingy : Host ℕ ℕ
stingy = record {
  already = 2;
  timeout = 13;
  adv_configure = λ i p h. (0, h);
  get_pkthdr = λ size h. (if h == 0 then none else some 1, h - 1);
  append = λ m bytes h. (6, h);
  free_chain = λ m h. h + 1;
  set_data = λ i m h. (0, h + 1);
  adv_start = λ i h. (0, h);
  adv_stop = λ i h. (2, h);
  adv_remove = λ i h. (0, h);
}

abbrev nimble : Nimble (ℕ × ℕ)
nimble = record {
  own_address_type = 0;
  instances = λ i. i;
  configured = λ i. true;
  active_mode = legacy;
  callback = true;
  host = (1, 0);
}

configure-held_example :
    held stingy (configure (metered stingy) extended (view pack) nimble).1 ≡ held stingy nimble
configure-held_example = configure-held stingy extended (view pack) nimble

-- A host that refuses the first removal of an instance, and no other call.
abbrev stubborn : Host ℕ ℕ
stubborn = record stingy {
  get_pkthdr = λ size h. (some 1, h);
  append = λ m bytes h. (0, h);
  set_data = λ i m h. (0, h);
  adv_remove = λ i h. (if h == 0 then 3 else 0, h + 1);
}

abbrev used_calls : List BackendCall
used_calls =
    configures legacy (view (1 ∷ 2 ∷ [])) ∷ configures extended (view pack) ∷ starts ∷ resets ∷ []

-- Two advertisements are set up; the first reset fails at the first of them, and the second succeeds.
reset-NoInstance_example :
    NoInstance stubborn (reset (tracked stubborn) (used stubborn 0 0 1 0 used_calls)).1
unfolding reset reset_at tracked perform_all perform configure ensure_configured set_payload fill
    new_backend start
reset-NoInstance_example = reset-NoInstance stubborn 0 0 1 0 used_calls (omega arith) refl
