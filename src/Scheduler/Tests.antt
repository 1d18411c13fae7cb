-- ===== src/Scheduler/Tests.antt =====
-- The scheduler on concrete payloads, and its theorems at concrete inputs.
use esp32_rid.Prelude.{
  ℕ, ◌+◌, ◌≤◌, ◌<◌, ◌≡◌, refl, ◌≢◌, ◌↔◌, ◌⊎◌, some, List, [], ◌∷◌, ◌++◌, arith, length,
}
use esp32_rid.Model.{ble5, unknown_transport}
use esp32_rid.Payload.{ScheduledPayload, ok, invalid_transport, older_than, blank}
use esp32_rid.Scheduler.{
  Scheduler, init, enqueue, pop_next, Call, enqueues, pops, run, depth, stats, transport_index,
  min_element, store, expire, take_next,
}
use esp32_rid.Scheduler.Bounds.{depth-run-le}
use esp32_rid.Scheduler.Accounting.{handed_out, expected-run}
use esp32_rid.Scheduler.Selection.{Picks, live, pop_next-Picks, enqueue_ok, enqueue_accepts, Evicts}

abbrev payload : ℕ → ℕ → ScheduledPayload
payload sequence deadline = record {
  sequence = sequence;
  aircraft_index = 0;
  transport = ble5;
  kind = blank.kind;
  deadline_ms = deadline;
  expires_at_ms = deadline + 100;
  size = 3;
  bytes = 1 ∷ 2 ∷ 3 ∷ [];
}

-- Two fit; the third evicts the one with the earliest deadline.
abbrev script : List Call
script =
    enqueues (payload 0 20) ∷ enqueues (payload 1 10) ∷ enqueues (payload 2 30) ∷ pops ble5 25 ∷ []

abbrev full : Scheduler
full = run (init 2) (enqueues (payload 0 20) ∷ enqueues (payload 1 10) ∷ [])

evicts_earliest :
    ((pop_next
      (run
        (init 2)
        (enqueues (payload 0 20) ∷ enqueues (payload 1 10) ∷ enqueues (payload 2 30) ∷ []))
      ble5
      25).0)
    ≡ some (payload 0 20)
unfolding run enqueue pop_next min_element store expire take_next init older_than
evicts_earliest = refl

unknown_is_refused :
    (enqueue (init 2) (record (payload 0 20) { transport = unknown_transport 9 })).0
    ≡ invalid_transport
unfolding enqueue init
unknown_is_refused = refl

depth-run-le_example : depth (run (init 2) script) ble5 ≤ 2
depth-run-le_example = depth-run-le 2 script ble5

expected-run_example :
    let s = run (init 2) script in
    (stats s ble5).expected ≡ (stats s ble5).dropped + depth s ble5 + handed_out 1 (init 2) script
unfolding transport_index
expected-run_example = expected-run 2 script ble5 {i = 1} refl (omega arith)

pop_next-Picks_example :
    let (result, s') = pop_next full ble5 115 in
    Picks 115 (live 115 (full.queues 1).payloads) result (s'.queues 1).payloads
    × ((j : ℕ) → 1 ≢ j → s'.queues j ≡ full.queues j)
unfolding transport_index
pop_next-Picks_example = pop_next-Picks full ble5 115 {i = 1} refl

enqueue_ok_example :
    (((enqueue full (payload 2 30)).0 ≡ ok) ↔ ((0 < full.capacity) × (1 < 4) × (0 < 3) × (3 ≤ 512)))
    × ((enqueue full (payload 2 30)).0 ≢ ok → (enqueue full (payload 2 30)).1 ≡ full)
enqueue_ok_example = enqueue_ok full (payload 2 30)

full_accepts : (enqueue full (payload 2 30)).0 ≡ ok
unfolding run enqueue init store
full_accepts = refl

enqueue_accepts_example :
    let q = full.queues 1 in
    let s' = (enqueue full (payload 2 30)).1 in
    (((length q.payloads ≡ full.capacity) × Evicts (payload 2 30) q.payloads (s'.queues 1).payloads)
      ⊎ ((length q.payloads ≢ full.capacity)
          × ((s'.queues 1).payloads ≡ q.payloads ++ (payload 2 30 ∷ []))
          × ((s'.queues 1).stats.dropped ≡ q.stats.dropped)))
    × ((j : ℕ) → 1 ≢ j → s'.queues j ≡ full.queues j)
unfolding transport_index
enqueue_accepts_example = enqueue_accepts full (payload 2 30) {i = 1} refl full_accepts
