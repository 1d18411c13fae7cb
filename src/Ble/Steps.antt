-- ===== src/Ble/Steps.antt =====
-- Every operation of the BLE transport keeps its invariant.
use mathlib.Core.Path.{subst}
use esp32_rid.Prelude.{
  ℕ, zero, suc, ◌+◌, ◌%◌, ◌<◌, ◌≡◌, refl, ◌∙◌, ◌≢◌, ◌⊎◌, inl, inr, Bool, true, false, [], ◌∷◌,
  arith, ltb, ◌==◌, if◌then◌else◌, if_cases, set, erase_at, length-set, All-append,
}
use esp32_rid.Payload.{ScheduledPayload, add_expected, add_completed, add_radio_errors, u64_max}
use esp32_rid.Slots.{slot, earliest}
use esp32_rid.Slots.Erase.{slot-take, NoneOlderThan}
use esp32_rid.Radio.Pending.{live, live-set, live-erased, earliest-live}
use esp32_rid.Ble.Queue.{waiting, waiting-append}
use esp32_rid.Ble.Invariant.{
  Fits, in_flight, Counts, Held, Inv, flag, update_at, accept-Counts, finish-Counts, grow-Inv,
}
use esp32_rid.Ble.{
  Ble, Completion, stats_index, queue_capacity, ring_size, count_in, submit, enqueue_completion,
  succeeded, finish, drain_loop, drain_completions, erase_pending, earliest_pending_index,
}

pub submit_cases :
    (b : Ble) (p : ScheduledPayload)
    → ((submit b p).1 ≡ b)
      ⊎ (Fits p
          × (b.pending_count ≢ queue_capacity)
          × ((submit b p).1
              ≡ count_in
                  (record b {
                    pending = set b.pending b.pending_count p;
                    pending_count = b.pending_count + 1;
                  })
                  (stats_index p.transport)
                  add_expected))
unfolding submit
submit_cases b p = ground arith

pub submit-Inv :
    (limit : ℕ) (b : Ble) (p : ScheduledPayload)
    → limit < u64_max
    → Inv limit b
    → Inv (limit + 1) (submit b p).1
submit-Inv limit b p h v = elim (submit_cases b p) [
  | inl e ↦ rw e (grow-Inv b h v)
  | inr (fits, free, e) ↦ rw e (accepted fits free)
]
  where
    accepted :
        Fits p
        → b.pending_count ≢ queue_capacity
        → Inv (limit + 1) (
            count_in
              (record b {
                pending = set b.pending b.pending_count p;
                pending_count = b.pending_count + 1;
              })
              (stats_index p.transport)
              add_expected)
    accepted fits free =
        let q = v.0 in
        let e = live-set b.pending_count b.pending p (omega (arith, q.room, q.bounded)) in
        (
          record {
            room = length-set b.pending b.pending_count p ∙ q.room;
            bounded = omega (arith, q.bounded);
            fitting =
                rw e
                  (All-append Fits (live b.pending_count b.pending) (p ∷ []) q.fitting (fits, tt));
            reading = q.reading;
            writing = q.writing;
          },
          λ k.
              rw
                (
                  e,
                  waiting-append k (live b.pending_count b.pending) p,
                  update_at b.counters add_expected (stats_index p.transport) k,
                )
                (accept-Counts (stats_index p.transport == k)
                  (waiting k (live b.pending_count b.pending)) (v.1 k) h),
        )

pub enqueue_completion-Inv :
    (limit : ℕ) (b : Ble) (event : Completion)
    → Inv limit b
    → Inv limit (enqueue_completion b event)
unfolding enqueue_completion
enqueue_completion-Inv limit b event v =
    if_cases (Inv limit) ((b.write + 1) % ring_size == b.read)
      (λ h. (
        record {
          room = v.0.room;
          bounded = v.0.bounded;
          fitting = v.0.fitting;
          reading = v.0.reading;
          writing = v.0.writing;
        },
        v.1,
      ))
      (λ h. (
        record {
          room = v.0.room;
          bounded = v.0.bounded;
          fitting = v.0.fitting;
          reading = v.0.reading;
          writing = omega arith;
        },
        v.1,
      ))

busy_in_flight :
    (k : ℕ) (b : Ble) → b.busy ≡ true → in_flight k b ≡ flag (stats_index b.active_transport == k)
busy_in_flight k b e = rw e refl

pub idle_in_flight : (k : ℕ) (b : Ble) → b.busy ≡ false → in_flight k b ≡ 0
idle_in_flight k b e = rw e refl

pub finish-Inv : (limit : ℕ) (b : Ble) (success : Bool) → Inv limit b → Inv limit (finish success b)
unfolding finish
finish-Inv limit b success v = if_cases (Inv limit) b.busy finished (λ h. v)
  where
    i : ℕ
    i = stats_index b.active_transport

    finished :
        b.busy ≡ true
        → Inv limit (record (count_in b i (if success then add_completed else add_radio_errors)) {
          busy = false;
        })
    finished h = (
      record {
        room = v.0.room;
        bounded = v.0.bounded;
        fitting = v.0.fitting;
        reading = v.0.reading;
        writing = v.0.writing;
      },
      λ k. rw (update_at b.counters (if success then add_completed else add_radio_errors) i k) (
          finish-Counts (i == k) success (waiting k (live b.pending_count b.pending)) (
            subst (Counts limit (b.counters k) (waiting k (live b.pending_count b.pending)))
              (busy_in_flight k b h) (v.1 k))),
    )

-- A change of the ring's positions and of nothing else.
pub reread-Inv :
    (limit : ℕ) (b : Ble) (read overflows : ℕ)
    → read < ring_size
    → Inv limit b
    → Inv limit (record b { read = read; overflows = overflows })
reread-Inv limit b read overflows h v = (
  record {
    room = v.0.room;
    bounded = v.0.bounded;
    fitting = v.0.fitting;
    reading = h;
    writing = v.0.writing;
  },
  v.1,
)

drain_loop-Inv :
    (fuel limit : ℕ) (b : Ble) (write : ℕ) → Inv limit b → Inv limit (drain_loop fuel b write)
unfolding drain_loop
drain_loop-Inv zero limit b write v = v
drain_loop-Inv (suc fuel) limit b write v =
    let b' = finish (succeeded (b.completions b.read)) b in
    if_cases (Inv limit) (b.read == write) (λ h. v)
      (λ h. drain_loop-Inv fuel limit _ write (
        reread-Inv limit b' ((b.read + 1) % ring_size) b'.overflows (omega arith)
          (finish-Inv limit b (succeeded (b.completions b.read)) v)))

pub drain_completions-Inv : (limit : ℕ) (b : Ble) → Inv limit b → Inv limit (drain_completions b)
unfolding drain_completions
drain_completions-Inv limit b v =
    let b' = drain_loop ring_size b b.write in
    let w = drain_loop-Inv ring_size limit b b.write v in
    let idle = reread-Inv limit b' b'.read 0 w.0.reading w in
    if_cases (Inv limit) (ltb 0 b'.overflows)
      (λ h. finish-Inv limit (record b' { overflows = 0 }) false idle) (λ h. idle)

-- The payload that is taken out of a queue that is not empty.
abbrev pub taken : Ble → ScheduledPayload
taken b = slot b.pending (earliest_pending_index b)

abbrev pub rest_of : Ble → Ble
rest_of b = erase_pending b (earliest_pending_index b)

pub taken_lem :
    (b : Ble)
    → Held b
    → 0 < b.pending_count
    → (earliest_pending_index b < b.pending_count)
      × NoneOlderThan (taken b) (live b.pending_count b.pending)
      × (live (rest_of b).pending_count (rest_of b).pending
          ≡ erase_at (earliest_pending_index b) (live b.pending_count b.pending))
      × (slot (live b.pending_count b.pending) (earliest_pending_index b) ≡ taken b)
unfolding earliest_pending_index erase_pending
taken_lem b q h =
    let found = earliest-live b.pending_count b.pending h (omega (arith, q.room, q.bounded)) in
    let index = earliest b.pending_count b.pending in
    (
      found.0,
      found.1,
      live-erased b.pending_count index b.pending found.0 (omega (arith, q.room, q.bounded)),
      slot-take b.pending_count index b.pending found.0,
    )
