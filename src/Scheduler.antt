-- ===== src/Scheduler.antt =====
-- components/rid_scheduler/scheduler.cpp: one bounded queue and one set of counters for each
-- transport. A `std::vector` is a list; `std::array<TransportQueue, 4>` is a function of the index.
pub mod Queue
pub mod Bounds
pub mod Accounting
pub mod Selection
pub mod Tests
use esp32_rid.Prelude.{
  ℕ, zero, suc, ◌+◌, ◌-◌, ◌*◌, ◌/◌, ◌%◌, ◌^◌, ◌≤◌, ◌<◌, ◌≡◌, refl, sym, ap, ◌∙◌, ◌≢◌, ◌↔◌, ◌⊎◌, inl,
  inr, Bool, true, false, not, ◌&&◌, ◌||◌, Option, none, some, List, [], ◌∷◌, ◌++◌, map, append-nil,
  append_assoc, arith, ltb, leb, ◌==◌, if◌then◌else◌, ltb→lt, lt→ltb, leb→le, ==_iff, Bool-cases,
  Option-cases, All, length, get_or, set, take, drop, replicate, erase_at, length-append,
  length-set, length-take, length-drop, length-replicate, length-erase_at, length-erase_at-le,
  take-append, drop-append, take-append-drop, All-append, All-erase_at, All-get_or,
}
use esp32_rid.Prelude.Arrays.{update}
use esp32_rid.Model.{Transport, transport_value}
use esp32_rid.Payload.{
  add_expected, add_dropped, add_late, add_submitted, add_completed, add_encode_errors,
  add_radio_errors, ScheduledPayload, ScheduleError, ok, zero_capacity, invalid_transport,
  invalid_payload, payload_too_large, max_payload_size, TransportStats, zero_stats,
  saturating_increment, older_than, is_expired,
}
use esp32_rid.Slots.{slot, earliest}

pub record TransportQueue : Type 0 where
  pub payloads : List ScheduledPayload
  pub stats : TransportStats

pub record Scheduler : Type 0 where
  pub capacity : ℕ
  pub queues : ℕ → TransportQueue
  pub invalid_stats : TransportStats

abbrev pub transport_count : ℕ
transport_count = 4

abbrev pub empty_queue : TransportQueue
empty_queue = record { payloads = []; stats = zero_stats }

-- The constructor. `reserve` changes no contents.
unfoldable pub init : ℕ → Scheduler
init capacity_per_transport = record {
  capacity = capacity_per_transport;
  queues = λ i. empty_queue;
  invalid_stats = zero_stats;
}

unfoldable pub valid : Scheduler → Bool
valid s = ltb 0 s.capacity

unfoldable pub transport_index : Transport → Option ℕ
transport_index t =
    let index = transport_value t in if leb transport_count index then none else some index

-- `std::min_element` over a whole vector, which runs the same scan.
unfoldable pub min_element : List ScheduledPayload → ℕ
unfolding earliest
min_element xs = earliest (length xs) xs

-- The part of `enqueue` that follows the checks.
unfoldable pub store : ℕ → ScheduledPayload → TransportQueue → TransportQueue
store capacity payload q =
    let counted = add_expected q.stats in
    let oldest = min_element q.payloads in
    let dropping = add_dropped counted in
    if length q.payloads == capacity
    then if older_than payload (slot q.payloads oldest)
      then record { payloads = q.payloads; stats = dropping }
      else record { payloads = erase_at oldest q.payloads ++ (payload ∷ []); stats = dropping }
    else record { payloads = q.payloads ++ (payload ∷ []); stats = counted }

unfoldable pub enqueue : Scheduler → ScheduledPayload → ScheduleError × Scheduler
unfolding valid transport_index
enqueue s payload =
    if not (valid s) then (zero_capacity, s) else elim (transport_index payload.transport) [
      | none ↦ (invalid_transport, s)
      | some index ↦
          if payload.size == 0
          then (invalid_payload, s)
          else if ltb max_payload_size payload.size
          then (payload_too_large, s)
          else (
            ok,
            record s { queues = update s.queues index (store s.capacity payload (s.queues index)) },
          )
    ]

-- The loop of `pop_next` that erases what has expired and counts it.
unfoldable pub expire : ℕ → List ScheduledPayload → TransportStats → TransportQueue
expire now_ms [] stats = record { payloads = []; stats = stats }
expire now_ms (item ∷ rest) stats =
    let expired = is_expired now_ms item in
    let next = if expired then add_dropped stats else stats in
    let q = expire now_ms rest next in
    record { payloads = if expired then q.payloads else item ∷ q.payloads; stats = q.stats }

-- The end of `pop_next`, on a queue from which the expired payloads are gone.
unfoldable pub take_next : ℕ → TransportQueue → Option ScheduledPayload × TransportQueue
take_next now_ms q = elim q.payloads [
  | [] ↦ (none, q)
  | _ ∷ _ ↦
      let next = min_element q.payloads in
      let result = slot q.payloads next in
      let stats = if ltb result.deadline_ms now_ms then add_late q.stats else q.stats in
      (some result, record { payloads = erase_at next q.payloads; stats = stats })
]

unfoldable pub pop_next : Scheduler → Transport → ℕ → Option ScheduledPayload × Scheduler
unfolding transport_index
pop_next s transport now_ms = elim (transport_index transport) [
  | none ↦ (none, s)
  | some index ↦
      let q = s.queues index in
      let (result, left) = take_next now_ms (expire now_ms q.payloads q.stats) in
      (result, record s { queues = update s.queues index left })
]

unfoldable pub depth : Scheduler → Transport → ℕ
unfolding transport_index
depth s transport = elim (transport_index transport) [
  | none ↦ 0
  | some index ↦ length (s.queues index).payloads
]

unfoldable pub stats : Scheduler → Transport → TransportStats
unfolding transport_index
stats s transport = elim (transport_index transport) [
  | none ↦ s.invalid_stats
  | some index ↦ (s.queues index).stats
]

-- What `record_submitted` and its three companions share.
unfoldable pub count_event : Scheduler → Transport → (TransportStats → TransportStats) → Scheduler
unfolding transport_index
count_event s transport f = elim (transport_index transport) [
  | none ↦ s
  | some index ↦
      let q = s.queues index in
      record s { queues = update s.queues index (record q { stats = f q.stats }) }
]

unfoldable pub record_submitted : Scheduler → Transport → Scheduler
unfolding count_event
record_submitted s t = count_event s t add_submitted

unfoldable pub record_completed : Scheduler → Transport → Scheduler
unfolding count_event
record_completed s t = count_event s t add_completed

unfoldable pub record_encode_error : Scheduler → Transport → Scheduler
unfolding count_event
record_encode_error s t = count_event s t add_encode_errors

unfoldable pub record_radio_error : Scheduler → Transport → Scheduler
unfolding count_event
record_radio_error s t = count_event s t add_radio_errors

-- A client's calls, in order.
pub data Call : Type 0 where
  enqueues : ScheduledPayload → Call
  pops : Transport → ℕ → Call
  submits completes encode_fails radio_fails : Transport → Call

unfoldable pub step : Scheduler → Call → Scheduler
step s (enqueues p) = (enqueue s p).1
step s (pops t now_ms) = (pop_next s t now_ms).1
step s (submits t) = record_submitted s t
step s (completes t) = record_completed s t
step s (encode_fails t) = record_encode_error s t
step s (radio_fails t) = record_radio_error s t

unfoldable pub run : Scheduler → List Call → Scheduler
unfolding step
run s [] = s
run s (c ∷ cs) = run (step s c) cs
