-- ===== src/Scheduler/Accounting.antt =====
-- Every payload that the scheduler accepts is accounted for.
use esp32_rid.Prelude.{
  ℕ, ◌+◌, ◌≤◌, ◌<◌, ◌≡◌, refl, some, List, [], ◌∷◌, arith, ◌==◌, if◌then◌else◌, length,
}
use esp32_rid.Model.{Transport, transport_value}
use esp32_rid.Payload.{
  ScheduledPayload, TransportStats, u64_max, add_submitted, add_completed, add_encode_errors,
  add_radio_errors,
}
use esp32_rid.Scheduler.{
  Scheduler, TransportQueue, init, enqueue, pop_next, transport_index, count_event, Call, enqueues,
  pops, submits, completes, encode_fails, radio_fails, step, run, depth, stats, record_submitted,
  record_completed, record_encode_error, record_radio_error,
}
use esp32_rid.Scheduler.Queue.{Balanced, store-Balanced, popped-Balanced, returned}

-- How many payloads of the transport with index `i` a call hands out.
unfoldable pub handed_by : ℕ → Scheduler → Call → ℕ
handed_by i s (pops t now_ms) =
    if transport_value t == i then returned (pop_next s t now_ms).0 else 0
handed_by i s _ = 0

-- How many the calls hand out together.
unfoldable pub handed_out : ℕ → Scheduler → List Call → ℕ
handed_out i s [] = 0
handed_out i s (c ∷ cs) = handed_by i s c + handed_out i (step s c) cs

abbrev Advances : ℕ → ℕ → TransportQueue → TransportQueue → Type 0
Advances out handed q q' = Balanced (out + handed) q' × (q'.stats.expected ≤ q.stats.expected + 1)

enqueue-Advances :
    (s : Scheduler) (p : ScheduledPayload) (i out : ℕ)
    → (s.queues i).stats.expected < u64_max
    → Balanced out (s.queues i)
    → Advances out 0 (s.queues i) ((enqueue s p).1.queues i)
unfolding enqueue
enqueue-Advances s p i out h b = ground (arith, store-Balanced s.capacity out p (s.queues i))

pop_next-Advances :
    (s : Scheduler) (t : Transport) (now_ms i out : ℕ)
    → (s.queues i).stats.expected < u64_max
    → Balanced out (s.queues i)
    → Advances out (handed_by i s (pops t now_ms)) (s.queues i) ((pop_next s t now_ms).1.queues i)
unfolding pop_next handed_by
pop_next-Advances s t now_ms i out h b = ground (arith, popped-Balanced now_ms out (s.queues i))

count_event-Advances :
    (s : Scheduler) (t : Transport) (f : TransportStats → TransportStats) (i out : ℕ)
    → ((c : TransportStats) → ((f c).expected ≡ c.expected) × ((f c).dropped ≡ c.dropped))
    → Balanced out (s.queues i)
    → Advances out 0 (s.queues i) ((count_event s t f).queues i)
unfolding count_event
count_event-Advances s t f i out same b = ground (arith, same (s.queues i).stats)

step-Advances :
    (s : Scheduler) (c : Call) (i out : ℕ)
    → (s.queues i).stats.expected < u64_max
    → Balanced out (s.queues i)
    → Advances out (handed_by i s c) (s.queues i) ((step s c).queues i)
unfolding step record_submitted record_completed record_encode_error record_radio_error handed_by
step-Advances s (enqueues p) i out h b = enqueue-Advances s p i out h b
step-Advances s (pops t now_ms) i out h b = pop_next-Advances s t now_ms i out h b
step-Advances s (submits t) i out h b =
    count_event-Advances s t add_submitted i out (λ c. (refl, refl)) b
step-Advances s (completes t) i out h b =
    count_event-Advances s t add_completed i out (λ c. (refl, refl)) b
step-Advances s (encode_fails t) i out h b =
    count_event-Advances s t add_encode_errors i out (λ c. (refl, refl)) b
step-Advances s (radio_fails t) i out h b =
    count_event-Advances s t add_radio_errors i out (λ c. (refl, refl)) b

run-Balanced :
    (s : Scheduler) (cs : List Call) (i out : ℕ)
    → (s.queues i).stats.expected + length cs ≤ u64_max
    → Balanced out (s.queues i)
    → Balanced (out + handed_out i s cs) ((run s cs).queues i)
unfolding run handed_out
run-Balanced s [] i out h b = omega arith
run-Balanced s (c ∷ cs) i out h b =
    let now = step-Advances s c i out (omega arith) b in
    omega (arith, run-Balanced (step s c) cs i (out + handed_by i s c) (omega (arith, now)) now.0)

-- From a fresh scheduler, over fewer than 2 ^ 64 calls, the accepted payloads of a transport are
-- exactly those dropped, those still queued and those that `pop_next` handed out: none is lost
-- and none is counted twice.
pub expected-run :
    (capacity : ℕ) (cs : List Call) (t : Transport) {i : ℕ}
    → transport_index t ≡ some i
    → length cs ≤ u64_max
    → let s = run (init capacity) cs in
      (stats s t).expected ≡ (stats s t).dropped + depth s t + handed_out i (init capacity) cs
unfolding stats depth
expected-run capacity cs t {i} e h =
    rw (e, stats, depth)
      (omega (
        arith,
        run-Balanced (init capacity) cs i 0 (unfold init in omega arith)
            (unfold init in omega arith),
      ))
