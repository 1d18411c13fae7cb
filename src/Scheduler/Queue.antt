-- ===== src/Scheduler/Queue.antt =====
-- One queue of the scheduler, apart from the others: its length and its counters.
use esp32_rid.Prelude.{
  ℕ, ◌+◌, ◌≤◌, ◌<◌, ◌≡◌, refl, inl, inr, Option, none, some, List, [], ◌∷◌, arith, Bool-cases,
  length, erase_at, length-append, length-erase_at,
}
use esp32_rid.Payload.{ScheduledPayload, TransportStats, saturating_increment, is_expired, u64_max}
use esp32_rid.Payload.Order.{increment_step}
use esp32_rid.Slots.Earliest.{earliest_lem}
use esp32_rid.Scheduler.{TransportQueue, min_element, store, expire, take_next}

pub min_element_bound : (xs : List ScheduledPayload) → 0 < length xs → min_element xs < length xs
unfolding min_element
min_element_bound xs h = (earliest_lem (length xs) xs h).0

pub length-store :
    (capacity : ℕ) (p : ScheduledPayload) (q : TransportQueue)
    → 0 < capacity
    → length q.payloads ≤ capacity
    → length (store capacity p q).payloads ≤ capacity
unfolding store
length-store capacity p q h k = ground (
  arith,
  min_element_bound q.payloads,
  length-append q.payloads (p ∷ []),
  length-append (erase_at (min_element q.payloads) q.payloads) (p ∷ []),
  length-erase_at (min_element q.payloads) q.payloads,
)

-- `expire` drops what it does not keep, and counts nothing else.
pub expire_count :
    (now_ms : ℕ) (xs : List ScheduledPayload) (c : TransportStats)
    → c.dropped + length xs ≤ u64_max
    → ((expire now_ms xs c).stats.dropped + length (expire now_ms xs c).payloads
        ≡ c.dropped + length xs)
      × ((expire now_ms xs c).stats.expected ≡ c.expected)
unfolding expire
expire_count now_ms [] c h = (omega arith, refl)
expire_count now_ms (x ∷ xs) c h = elim (Bool-cases (is_expired now_ms x)) [
  | inl e ↦ rw e (
      ground (
        arith,
        expire_count now_ms xs (record c { dropped = saturating_increment c.dropped }),
        increment_step c.dropped,
      ))
  | inr e ↦ rw e (ground (arith, expire_count now_ms xs c))
]

pub length-expire :
    (now_ms : ℕ) (xs : List ScheduledPayload) (c : TransportStats)
    → length (expire now_ms xs c).payloads ≤ length xs
unfolding expire
length-expire now_ms [] c = omega arith
length-expire now_ms (x ∷ xs) c = elim (Bool-cases (is_expired now_ms x)) [
  | inl e ↦ rw e (
      omega
        (arith, length-expire now_ms xs (record c { dropped = saturating_increment c.dropped })))
  | inr e ↦ rw e (omega (arith, length-expire now_ms xs c))
]

abbrev pub returned : Option ScheduledPayload → ℕ
returned none = 0
returned (some p) = 1

take_next_go :
    (now_ms : ℕ) (xs : List ScheduledPayload) (c : TransportStats)
    → let (result, left) = take_next now_ms (record { payloads = xs; stats = c }) in
      (length left.payloads + returned result ≡ length xs)
      × (left.stats.dropped ≡ c.dropped)
      × (left.stats.expected ≡ c.expected)
unfolding take_next
take_next_go now_ms [] c = (omega arith, refl, refl)
take_next_go now_ms (x ∷ xs) c =
    ground (arith, min_element_bound (x ∷ xs), length-erase_at (min_element (x ∷ xs)) (x ∷ xs))

-- `take_next` removes what it returns, and drops nothing.
pub take_next_count :
    (now_ms : ℕ) (q : TransportQueue)
    → let (result, left) = take_next now_ms q in
      (length left.payloads + returned result ≡ length q.payloads)
      × (left.stats.dropped ≡ q.stats.dropped)
      × (left.stats.expected ≡ q.stats.expected)
take_next_count now_ms q = take_next_go now_ms q.payloads q.stats

-- What was accepted is dropped, waiting, or handed out.
abbrev pub Balanced : ℕ → TransportQueue → Type 0
Balanced out q =
    (q.stats.expected ≡ q.stats.dropped + length q.payloads + out) × (q.stats.expected ≤ u64_max)

pub store-Balanced :
    (capacity out : ℕ) (p : ScheduledPayload) (q : TransportQueue)
    → 0 < capacity
    → q.stats.expected < u64_max
    → Balanced out q
    → Balanced out (store capacity p q)
      × ((store capacity p q).stats.expected ≡ q.stats.expected + 1)
unfolding store
store-Balanced capacity out p q h k b = ground (
  arith,
  min_element_bound q.payloads,
  length-append q.payloads (p ∷ []),
  length-append (erase_at (min_element q.payloads) q.payloads) (p ∷ []),
  length-erase_at (min_element q.payloads) q.payloads,
  increment_step q.stats.expected,
  increment_step q.stats.dropped,
)

-- The queue that `pop_next` leaves.
abbrev pub popped : ℕ → TransportQueue → Option ScheduledPayload × TransportQueue
popped now_ms q = take_next now_ms (expire now_ms q.payloads q.stats)

pub popped-Balanced :
    (now_ms out : ℕ) (q : TransportQueue)
    → Balanced out q
    → let (result, left) = popped now_ms q in
      Balanced (out + returned result) left × (left.stats.expected ≡ q.stats.expected)
popped-Balanced now_ms out q b = omega (
  arith,
  take_next_count now_ms (expire now_ms q.payloads q.stats),
  expire_count now_ms q.payloads q.stats (omega arith),
)
