-- ===== src/Ble/Invariant.antt =====
-- What the operations of the BLE transport keep true of its queue, its ring and its counters.
use esp32_rid.Prelude.{
  ℕ, ◌+◌, ◌≤◌, ◌<◌, ◌≡◌, refl, ap, inl, inr, Bool, true, false, ◌&&◌, arith, ◌==◌, if◌then◌else◌,
  ==_iff, Bool-cases, All, length,
}
use esp32_rid.Prelude.Arrays.{update}
use esp32_rid.Model.{is_ble}
use esp32_rid.Payload.{
  ScheduledPayload, TransportStats, add_expected, add_submitted, add_completed, add_late,
  add_dropped, add_radio_errors, u64_max, saturating_increment,
}
use esp32_rid.Payload.Order.{increment_step}
use esp32_rid.Radio.Pending.{live}
use esp32_rid.Ble.Queue.{waiting}
use esp32_rid.Ble.{Ble, fresh, stats_index, maximum, queue_capacity, ring_size}

-- A payload that the queue may hold.
abbrev pub Fits : ScheduledPayload → Type 0
Fits p = (is_ble p.transport ≡ true) × (0 < p.size) × (p.size ≤ maximum p.transport)

-- The advertisement on the air, counted at an index.
abbrev pub in_flight : ℕ → Ble → ℕ
in_flight k b = if b.busy && (stats_index b.active_transport == k) then 1 else 0

-- The counters of an index with `w` payloads waiting and `f` on the air: every accepted payload is
-- completed, failed, dropped, waiting or on the air.
pub record Counts (limit : ℕ) (c : TransportStats) (w f : ℕ) : Type 0 where
  pub balanced : c.expected ≡ c.completed + c.radio_errors + c.dropped + w + f
  pub sent : c.submitted + c.dropped + w ≤ c.expected
  pub begun : c.completed + f ≤ c.submitted
  pub unsaturated : c.expected ≤ limit
  pub capped : limit ≤ u64_max

-- The arrays keep their sizes and the queue holds payloads that a BLE advertisement can carry.
pub record Held (b : Ble) : Type 0 where
  pub room : length b.pending ≡ queue_capacity
  pub bounded : b.pending_count ≤ queue_capacity
  pub fitting : All Fits (live b.pending_count b.pending)
  pub reading : b.read < ring_size
  pub writing : b.write < ring_size

abbrev pub Counted : ℕ → Ble → Type 0
Counted limit b =
    (k : ℕ)
    → Counts limit (b.counters k) (waiting k (live b.pending_count b.pending)) (in_flight k b)

abbrev pub Inv : ℕ → Ble → Type 0
Inv limit b = Held b × Counted limit b

pub fresh-Inv : Inv 0 fresh
unfolding fresh waiting
fresh-Inv = (
  record {
    room = refl;
    bounded = omega arith;
    fitting = tt;
    reading = omega arith;
    writing = omega arith;
  },
  λ k. record {
    balanced = omega arith;
    sent = omega arith;
    begun = omega arith;
    unsaturated = omega arith;
    capped = omega arith;
  },
)

grow-Counts :
    {limit w f : ℕ} {c : TransportStats}
    → Counts limit c w f
    → limit < u64_max
    → Counts (limit + 1) c w f
grow-Counts v h = record {
  balanced = v.balanced;
  sent = v.sent;
  begun = v.begun;
  unsaturated = omega (arith, v.unsaturated);
  capped = omega arith;
}

pub grow-Inv : {limit : ℕ} (b : Ble) → limit < u64_max → Inv limit b → Inv (limit + 1) b
grow-Inv b h v = (v.0, λ k. grow-Counts (v.1 k) h)

abbrev pub flag : Bool → ℕ
flag hit = if hit then 1 else 0

pub update_at :
    (counters : ℕ → TransportStats) (f : TransportStats → TransportStats) (i k : ℕ)
    → update counters i (f (counters i)) k ≡ (if i == k then f (counters k) else counters k)
update_at counters f i k = elim (Bool-cases (i == k)) [
  | inl e ↦ rw e (ap (λ j. f (counters j)) ((==_iff i k).0 e))
  | inr e ↦ rw e refl
]

-- What each event does to the counters of one index; `hit` tells whether it is the event's own.
module _ {limit : ℕ} {c : TransportStats} where
  pub accept-Counts :
      {f : ℕ} (hit : Bool) (w : ℕ)
      → Counts limit c w f
      → limit < u64_max
      → Counts (limit + 1) (if hit then add_expected c else c) (w + flag hit) f
  accept-Counts true w v h = record {
    balanced = omega (arith, v.balanced, v.unsaturated, increment_step c.expected);
    sent = omega (arith, v.sent, v.unsaturated, increment_step c.expected);
    begun = v.begun;
    unsaturated = omega (arith, v.unsaturated, increment_step c.expected);
    capped = omega arith;
  }
  accept-Counts false w v h = record {
    balanced = omega (arith, v.balanced);
    sent = omega (arith, v.sent);
    begun = v.begun;
    unsaturated = omega (arith, v.unsaturated);
    capped = omega arith;
  }

  pub drop-Counts :
      {f : ℕ} (hit : Bool) (w : ℕ)
      → Counts limit c (w + flag hit) f
      → Counts limit (if hit then add_dropped c else c) w f
  drop-Counts true w v =
      let step = increment_step c.dropped (omega (arith, v.sent, v.unsaturated, v.capped)) in
      record {
        balanced = omega (arith, step, v.balanced);
        sent = omega (arith, step, v.sent);
        begun = v.begun;
        unsaturated = v.unsaturated;
        capped = v.capped;
      }
  drop-Counts false w v = record {
    balanced = omega (arith, v.balanced);
    sent = omega (arith, v.sent);
    begun = v.begun;
    unsaturated = v.unsaturated;
    capped = v.capped;
  }

  pub fail-Counts :
      {f : ℕ} (hit : Bool) (w : ℕ)
      → Counts limit c (w + flag hit) f
      → Counts limit (if hit then add_radio_errors c else c) w f
  fail-Counts true w v =
      let step =
        increment_step c.radio_errors (omega (arith, v.balanced, v.unsaturated, v.capped)) in
      record {
        balanced = omega (arith, step, v.balanced);
        sent = omega (arith, v.sent);
        begun = v.begun;
        unsaturated = v.unsaturated;
        capped = v.capped;
      }
  fail-Counts false w v = record {
    balanced = omega (arith, v.balanced);
    sent = omega (arith, v.sent);
    begun = v.begun;
    unsaturated = v.unsaturated;
    capped = v.capped;
  }

  pub launch-Counts :
      (hit late : Bool) (w : ℕ)
      → Counts limit c (w + flag hit) 0
      → Counts limit
          (if hit then (if late then add_late (add_submitted c) else add_submitted c) else c)
          w
          (flag hit)
  launch-Counts true late w v = launched late
    where
      step : saturating_increment c.submitted ≡ c.submitted + 1
      step = increment_step c.submitted (omega (arith, v.sent, v.unsaturated, v.capped))

      launched :
          (late : Bool)
          → Counts limit (if late then add_late (add_submitted c) else add_submitted c) w 1
      launched true = record {
        balanced = omega (arith, v.balanced);
        sent = omega (arith, step, v.sent);
        begun = omega (arith, step, v.begun);
        unsaturated = v.unsaturated;
        capped = v.capped;
      }
      launched false = record {
        balanced = omega (arith, v.balanced);
        sent = omega (arith, step, v.sent);
        begun = omega (arith, step, v.begun);
        unsaturated = v.unsaturated;
        capped = v.capped;
      }
  launch-Counts false late w v = record {
    balanced = omega (arith, v.balanced);
    sent = omega (arith, v.sent);
    begun = v.begun;
    unsaturated = v.unsaturated;
    capped = v.capped;
  }

  pub finish-Counts :
      (hit success : Bool) (w : ℕ)
      → Counts limit c w (flag hit)
      → Counts limit
          (if hit then (if success then add_completed else add_radio_errors) c else c)
          w
          0
  finish-Counts true true w v =
      let step = increment_step c.completed (omega (arith, v.balanced, v.unsaturated, v.capped)) in
      record {
        balanced = omega (arith, step, v.balanced);
        sent = v.sent;
        begun = omega (arith, step, v.begun);
        unsaturated = v.unsaturated;
        capped = v.capped;
      }
  finish-Counts true false w v =
      let step =
        increment_step c.radio_errors (omega (arith, v.balanced, v.unsaturated, v.capped)) in
      record {
        balanced = omega (arith, step, v.balanced);
        sent = v.sent;
        begun = omega (arith, v.begun);
        unsaturated = v.unsaturated;
        capped = v.capped;
      }
  finish-Counts false success w v = v
