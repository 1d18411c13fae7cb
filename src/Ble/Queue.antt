-- ===== src/Ble/Queue.antt =====
-- The payloads of the BLE queue by transport, and what erasing one of them does to the rest.
use esp32_rid.Prelude.{
  ℕ, zero, suc, ◌+◌, ◌<◌, ◌≡◌, List, [], ◌∷◌, ◌++◌, arith, ◌==◌, if◌then◌else◌, All, length,
  erase_at,
}
use esp32_rid.Payload.{ScheduledPayload}
use esp32_rid.Slots.{slot}
use esp32_rid.Ble.{stats_index}

-- How many payloads of a list are counted at an index.
abbrev pub one : ℕ → ScheduledPayload → ℕ
one k p = if stats_index p.transport == k then 1 else 0

unfoldable pub waiting : ℕ → List ScheduledPayload → ℕ
waiting k [] = 0
waiting k (p ∷ ps) = one k p + waiting k ps

pub waiting-append :
    (k : ℕ) (xs : List ScheduledPayload) (p : ScheduledPayload)
    → waiting k (xs ++ (p ∷ [])) ≡ waiting k xs + one k p
unfolding waiting
waiting-append k [] p = omega arith
waiting-append k (x ∷ xs) p = omega (arith, waiting-append k xs p)

pub waiting-erase_at :
    (k i : ℕ) (xs : List ScheduledPayload)
    → i < length xs
    → waiting k (erase_at i xs) + one k (slot xs i) ≡ waiting k xs
unfolding waiting
waiting-erase_at k i [] h = absurd (omega arith)
waiting-erase_at k zero (x ∷ xs) h = omega arith
waiting-erase_at k (suc i) (x ∷ xs) h = omega (arith, waiting-erase_at k i xs (omega arith))

-- A predicate of one entry and of all others holds of all.
pub All-of_erase_at {κ} :
    (P : ScheduledPayload → Type κ) (i : ℕ) (xs : List ScheduledPayload)
    → P (slot xs i)
    → All P (erase_at i xs)
    → All P xs
All-of_erase_at P i [] p h = tt
All-of_erase_at P zero (x ∷ xs) p h = (p, h)
All-of_erase_at P (suc i) (x ∷ xs) p h = (h.0, All-of_erase_at P i xs p h.1)

-- A list has an entry.
abbrev pub Has : ScheduledPayload → List ScheduledPayload → Type 0
Has p xs = (i : ℕ) × (i < length xs) × (slot xs i ≡ p)

pub erase_at-Has :
    (p : ScheduledPayload) (i : ℕ) (xs : List ScheduledPayload) → Has p (erase_at i xs) → Has p xs
erase_at-Has p i [] h = h
erase_at-Has p zero (x ∷ xs) (j, lt, e) = (suc j, omega arith, e)
erase_at-Has p (suc i) (x ∷ xs) (zero, lt, e) = (0, omega arith, e)
erase_at-Has p (suc i) (x ∷ xs) (suc j, lt, e) =
    let (k, below, same) = erase_at-Has p i xs (j, omega arith, e) in (suc k, omega arith, same)
