-- ===== src/Slots/Shift.antt =====
-- The shift removes one entry from the live part of the array.
use esp32_rid.Prelude.{
  ℕ, zero, suc, ◌+◌, ◌≤◌, ◌≡◌, refl, ap, ◌∙◌, List, [], ◌∷◌, arith, length, set, take, erase_at,
}
use esp32_rid.Payload.{ScheduledPayload}
use esp32_rid.Slots.{slot, shift_from}
use esp32_rid.Prelude.{length-set}

pub length-shift_from :
    (rounds index : ℕ) (xs : List ScheduledPayload)
    → length (shift_from rounds index xs) ≡ length xs
unfolding shift_from
length-shift_from zero index xs = refl
length-shift_from (suc rounds) index xs =
    length-shift_from rounds (suc index) (set xs index (slot xs (suc index)))
    ∙ length-set xs index _

shift_from-cons :
    (rounds index : ℕ) (x : ScheduledPayload) (xs : List ScheduledPayload)
    → shift_from rounds (suc index) (x ∷ xs) ≡ x ∷ shift_from rounds index xs
unfolding shift_from
shift_from-cons zero index x xs = refl
shift_from-cons (suc rounds) index x xs = shift_from-cons rounds (suc index) x _

shift_from_head :
    (rounds : ℕ) (x : ScheduledPayload) (xs : List ScheduledPayload)
    → suc rounds ≤ suc (length xs)
    → take rounds (shift_from rounds 0 (x ∷ xs)) ≡ take rounds xs
unfolding shift_from
shift_from_head zero x xs h = refl
shift_from_head (suc rounds) x [] h = absurd (omega arith)
shift_from_head (suc rounds) x (y ∷ ys) h =
    rw (shift_from-cons rounds 0 y (y ∷ ys))
      (ap (◌∷◌ y) (shift_from_head rounds y ys (omega arith)))

-- The loop of `erase_pending`: the entries before the count, less the one at the index.
pub take-shift_from :
    (rounds index : ℕ) (xs : List ScheduledPayload) {kept : ℕ}
    → kept ≡ index + rounds
    → suc kept ≤ length xs
    → take kept (shift_from rounds index xs) ≡ erase_at index (take (suc kept) xs)
take-shift_from rounds index [] e h = absurd (omega arith)
take-shift_from rounds zero (x ∷ xs) {kept} e h =
    let e' : kept ≡ rounds = omega arith in rw e' (shift_from_head rounds x xs (omega arith))
take-shift_from rounds (suc index) (x ∷ xs) {kept = zero} e h = absurd (omega arith)
take-shift_from rounds (suc index) (x ∷ xs) {kept = suc kept} e h =
    rw (shift_from-cons rounds index x xs)
      (ap (◌∷◌ x) (take-shift_from rounds index xs (omega arith) (omega arith)))
