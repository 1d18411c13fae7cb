-- ===== src/Radio/Pending.antt =====
-- An array of pending payloads with a count: the live entries, and what appending and erasing do
-- to them.
use esp32_rid.Prelude.{
  ℕ, zero, suc, ◌+◌, ◌-◌, ◌≤◌, ◌<◌, ◌≡◌, refl, ap, false, List, [], ◌∷◌, ◌++◌, arith, length, set,
  take, erase_at, length-take,
}
use esp32_rid.Payload.{ScheduledPayload, older_than}
use esp32_rid.Slots.{slot, shift_from, earliest}
use esp32_rid.Slots.Earliest.{earliest_lem}
use esp32_rid.Slots.Shift.{length-shift_from, take-shift_from}
use esp32_rid.Slots.Erase.{NoneOlderThan, All-of_NoneOlder, slot-take}

-- The entries before the count.
abbrev pub live : ℕ → List ScheduledPayload → List ScheduledPayload
live count slots = take count slots

-- `slots[index]` removed by the shift loop.
abbrev pub erased : ℕ → ℕ → List ScheduledPayload → List ScheduledPayload
erased count index slots = shift_from (count - suc index) index slots

take-set :
    (n : ℕ) (xs : List ScheduledPayload) (v : ScheduledPayload)
    → n < length xs
    → take (suc n) (set xs n v) ≡ take n xs ++ (v ∷ [])
take-set n [] v h = absurd (omega arith)
take-set zero (x ∷ xs) v h = refl
take-set (suc n) (x ∷ xs) v h = ap (◌∷◌ x) (take-set n xs v (omega arith))

pub live-set :
    (count : ℕ) (slots : List ScheduledPayload) (p : ScheduledPayload)
    → count < length slots
    → live (count + 1) (set slots count p) ≡ live count slots ++ (p ∷ [])
live-set count slots p h =
    let e : count + 1 ≡ suc count = omega arith in rw e (take-set count slots p h)

pub live-erased :
    (count index : ℕ) (slots : List ScheduledPayload)
    → index < count
    → count ≤ length slots
    → live (count - 1) (erased count index slots) ≡ erase_at index (live count slots)
live-erased zero index slots h k = absurd (omega arith)
live-erased (suc kept) index slots h k =
    let e : suc kept - 1 ≡ kept = omega arith in
    rw e (take-shift_from (suc kept - suc index) index slots (omega arith) k)

pub length-erased :
    (count index : ℕ) (slots : List ScheduledPayload)
    → length (erased count index slots) ≡ length slots
length-erased count index slots = length-shift_from (count - suc index) index slots

-- The scan over the live entries finds one of them, and none of them is older.
pub earliest-live :
    (count : ℕ) (slots : List ScheduledPayload)
    → 0 < count
    → count ≤ length slots
    → (earliest count slots < count)
      × NoneOlderThan (slot slots (earliest count slots)) (live count slots)
earliest-live count slots h k =
    let found = earliest_lem count slots h in (found.0, All-of_NoneOlder _ (live count slots) older)
  where
    older :
        (j : ℕ)
        → j < length (live count slots)
        → older_than (slot (live count slots) j) (slot slots (earliest count slots)) ≡ false
    older j lt =
        let below : j < count = omega (arith, length-take count slots) in
        rw (slot-take count j slots below) ((earliest_lem count slots h).1 j below)
