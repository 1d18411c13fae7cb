-- ===== src/Scheduler/Bounds.antt =====
-- No queue outgrows its capacity.
use esp32_rid.Prelude.{ℕ, ◌≤◌, ◌≡◌, refl, ◌∙◌, List, [], ◌∷◌, arith, length}
use esp32_rid.Scheduler.{depth, run}
use esp32_rid.Model.{Transport, transport_value}
use esp32_rid.Payload.{
  add_submitted, add_completed, add_encode_errors, add_radio_errors, ScheduledPayload,
  TransportStats,
}
use esp32_rid.Scheduler.{
  Scheduler, TransportQueue, init, enqueue, pop_next, expire, count_event, Call, enqueues, pops,
  submits, completes, encode_fails, radio_fails, step, record_submitted, record_completed,
  record_encode_error, record_radio_error,
}
use esp32_rid.Scheduler.Queue.{length-store, length-expire, take_next_count, popped}

-- Every queue holds at most the capacity, and holds something only if the scheduler is valid.
abbrev pub IsBounded : Scheduler → Type 0
IsBounded s = (i : ℕ) → length (s.queues i).payloads ≤ s.capacity

pub init-IsBounded : (capacity : ℕ) → IsBounded (init capacity)
unfolding init
init-IsBounded capacity i = omega arith

pub enqueue-IsBounded :
    (s : Scheduler) (p : ScheduledPayload) → IsBounded s → IsBounded (enqueue s p).1
unfolding enqueue
enqueue-IsBounded s p b i = ground (
  arith,
  b i,
  b (transport_value p.transport),
  length-store s.capacity p (s.queues (transport_value p.transport)),
)

length-popped :
    (now_ms : ℕ) (q : TransportQueue) → length (popped now_ms q).1.payloads ≤ length q.payloads
length-popped now_ms q = omega (
  arith,
  take_next_count now_ms (expire now_ms q.payloads q.stats),
  length-expire now_ms q.payloads q.stats,
)

pub pop_next-IsBounded :
    (s : Scheduler) (t : Transport) (now_ms : ℕ) → IsBounded s → IsBounded (pop_next s t now_ms).1
unfolding pop_next
pop_next-IsBounded s t now_ms b i =
    ground (arith, b i, b (transport_value t), length-popped now_ms (s.queues (transport_value t)))

pub count_event-IsBounded :
    (s : Scheduler) (t : Transport) (f : TransportStats → TransportStats)
    → IsBounded s
    → IsBounded (count_event s t f)
unfolding count_event
count_event-IsBounded s t f b i = ground (arith, b i, b (transport_value t))

pub step-IsBounded : (s : Scheduler) (c : Call) → IsBounded s → IsBounded (step s c)
unfolding step record_submitted record_completed record_encode_error record_radio_error
step-IsBounded s (enqueues p) b = enqueue-IsBounded s p b
step-IsBounded s (pops t now_ms) b = pop_next-IsBounded s t now_ms b
step-IsBounded s (submits t) b = count_event-IsBounded s t add_submitted b
step-IsBounded s (completes t) b = count_event-IsBounded s t add_completed b
step-IsBounded s (encode_fails t) b = count_event-IsBounded s t add_encode_errors b
step-IsBounded s (radio_fails t) b = count_event-IsBounded s t add_radio_errors b

-- The capacity never changes.
pub step-capacity : (s : Scheduler) (c : Call) → (step s c).capacity ≡ s.capacity
unfolding step enqueue pop_next record_submitted record_completed record_encode_error
    record_radio_error
step-capacity s (enqueues p) = ground arith
step-capacity s (pops t now_ms) = ground arith
step-capacity s (submits t) = ground arith
step-capacity s (completes t) = ground arith
step-capacity s (encode_fails t) = ground arith
step-capacity s (radio_fails t) = ground arith

run-IsBounded :
    (s : Scheduler) (cs : List Call)
    → IsBounded s
    → IsBounded (run s cs) × ((run s cs).capacity ≡ s.capacity)
unfolding run
run-IsBounded s [] b = (b, refl)
run-IsBounded s (c ∷ cs) b =
    let rest = run-IsBounded (step s c) cs (step-IsBounded s c b) in
    (rest.0, rest.1 ∙ step-capacity s c)

-- From a fresh scheduler no sequence of calls brings the depth of any transport's queue over the
-- capacity that the constructor was given.
pub depth-run-le :
    (capacity : ℕ) (cs : List Call) (t : Transport) → depth (run (init capacity) cs) t ≤ capacity
unfolding depth
depth-run-le capacity cs t =
    let b = run-IsBounded (init capacity) cs (init-IsBounded capacity) in
    ground (arith, b.0 (transport_value t), b.1, init-capacity)
  where
    init-capacity : (init capacity).capacity ≡ capacity
    init-capacity = unfold init in refl
