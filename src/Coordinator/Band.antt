-- ===== src/Coordinator/Band.antt =====
-- What is kept true of the queue of a band.
use esp32_rid.Prelude.{
  ℕ, ◌+◌, ◌-◌, ◌≤◌, ◌<◌, ◌≡◌, refl, ◌∙◌, ◌≢◌, true, List, [], ◌∷◌, arith, All, length, set,
  length-set, All-append, All-erase_at,
}
use esp32_rid.Model.{is_wifi}
use esp32_rid.Payload.{
  ScheduledPayload, TransportStats, add_expected, add_radio_errors, max_payload_size, u64_max,
}
use esp32_rid.Payload.Order.{increment_step}
use esp32_rid.Radio.Pending.{live, erased, live-set, live-erased, length-erased}
use esp32_rid.Coordinator.{Coordinator, init, band_index, queue_capacity}

-- A payload that the queue of a band may hold.
abbrev pub Fits : ℕ → ScheduledPayload → Type 0
Fits band p =
    (is_wifi p.transport ≡ true)
    × (band_index p.transport ≡ band)
    × (0 < p.size)
    × (p.size ≤ max_payload_size)

-- The queue of a band, with its counters: the array keeps its length, the live entries belong
-- to the band, and what was accepted was sent, was dropped, or is waiting.
pub record BandInv (limit band : ℕ) (slots : List ScheduledPayload) (count : ℕ) (c : TransportStats)
    : Type 0 where
  pub room : length slots ≡ queue_capacity
  pub bounded : count ≤ queue_capacity
  pub fitting : All (Fits band) (live count slots)
  pub balanced : c.expected ≡ c.submitted + c.dropped + count
  pub unsaturated : c.expected ≤ limit
  pub capped : limit ≤ u64_max
  pub incomplete : c.completed ≡ 0

abbrev pub BandOk : ℕ → Coordinator → ℕ → Type 0
BandOk limit c band = BandInv limit band (c.pending band) (c.pending_count band) (c.band_stats band)

abbrev pub Inv : ℕ → Coordinator → Type 0
Inv limit c = (band : ℕ) → BandOk limit c band

-- A fresh coordinator satisfies the invariant with no payload counted.
pub init-Inv : (dwell_ms retry_ms : ℕ) → Inv 0 (init dwell_ms retry_ms)
unfolding init
init-Inv dwell_ms retry_ms band = record {
  room = refl;
  bounded = omega arith;
  fitting = tt;
  balanced = omega arith;
  unsaturated = omega arith;
  capped = omega arith;
  incomplete = refl;
}

pub push-BandInv :
    {limit band count : ℕ} {slots : List ScheduledPayload} {c : TransportStats}
    (p : ScheduledPayload)
    → BandInv limit band slots count c
    → Fits band p
    → count ≢ queue_capacity
    → limit < u64_max
    → BandInv (limit + 1) band (set slots count p) (count + 1) (add_expected c)
push-BandInv {limit} {band} {count} {slots} {c} p v fits free h = record {
  room = length-set slots count p ∙ v.room;
  bounded = omega (arith, v.bounded);
  fitting =
      rw (live-set count slots p (omega (arith, v.room, v.bounded)))
        (All-append (Fits band) (live count slots) (p ∷ []) v.fitting (fits, tt));
  balanced = omega (arith, v.balanced, v.unsaturated, increment_step c.expected);
  unsaturated = omega (arith, v.unsaturated, increment_step c.expected);
  capped = omega arith;
  incomplete = v.incomplete;
}

pub grow-BandInv :
    {limit band count : ℕ} {slots : List ScheduledPayload} {c : TransportStats}
    → BandInv limit band slots count c
    → limit < u64_max
    → BandInv (limit + 1) band slots count c
grow-BandInv v h = record {
  room = v.room;
  bounded = v.bounded;
  fitting = v.fitting;
  balanced = v.balanced;
  unsaturated = omega (arith, v.unsaturated);
  capped = omega arith;
  incomplete = v.incomplete;
}

pub erase-BandInv :
    {limit band count : ℕ} {slots : List ScheduledPayload} {c c' : TransportStats} (index : ℕ)
    → BandInv limit band slots count c
    → index < count
    → c'.expected ≡ c.expected
    → c'.completed ≡ c.completed
    → c'.submitted + c'.dropped ≡ c.submitted + c.dropped + 1
    → BandInv limit band (erased count index slots) (count - 1) c'
erase-BandInv {band} {count} {slots} index v h same completed more = record {
  room = length-erased count index slots ∙ v.room;
  bounded = omega (arith, v.bounded);
  fitting =
      rw (live-erased count index slots h (omega (arith, v.room, v.bounded)))
        (All-erase_at (Fits band) index (live count slots) v.fitting);
  balanced = omega (arith, v.balanced);
  unsaturated = omega (arith, v.unsaturated);
  capped = v.capped;
  incomplete = completed ∙ v.incomplete;
}

pub recount-BandInv :
    {limit band count : ℕ} {slots : List ScheduledPayload} {c : TransportStats}
    → BandInv limit band slots count c
    → BandInv limit band slots count (add_radio_errors c)
recount-BandInv v = record {
  room = v.room;
  bounded = v.bounded;
  fitting = v.fitting;
  balanced = v.balanced;
  unsaturated = v.unsaturated;
  capped = v.capped;
  incomplete = v.incomplete;
}
