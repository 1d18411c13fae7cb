-- ===== src/Slots/Erase.antt =====
-- An entry and the list without it make up the list.
use mathlib.Core.List.{Perm}
use mathlib.Core.List.Perm
use esp32_rid.Prelude.{
  ℕ, zero, suc, ◌<◌, ◌≡◌, refl, false, List, [], ◌∷◌, arith, All, length, take, erase_at,
}
use esp32_rid.Payload.{ScheduledPayload, older_than}
use esp32_rid.Slots.{slot}

pub erase_at-perm :
    (i : ℕ) (xs : List ScheduledPayload) → i < length xs → Perm (slot xs i ∷ erase_at i xs) xs
erase_at-perm i [] h = absurd (omega arith)
erase_at-perm zero (x ∷ xs) h = Perm.refl (x ∷ xs)
erase_at-perm (suc i) (x ∷ xs) h =
    Perm.trans (Perm.swap x (slot xs i) (erase_at i xs))
      (Perm.cons x (erase_at-perm i xs (omega arith)))

-- No entry of the list is older than `p`.
abbrev pub NoneOlderThan : ScheduledPayload → List ScheduledPayload → Type 0
NoneOlderThan p = All (λ q. older_than q p ≡ false)

pub All-of_NoneOlder :
    (p : ScheduledPayload) (xs : List ScheduledPayload)
    → ((j : ℕ) → j < length xs → older_than (slot xs j) p ≡ false)
    → NoneOlderThan p xs
All-of_NoneOlder p [] h = tt
All-of_NoneOlder p (x ∷ xs) h =
    (h 0 (omega arith), All-of_NoneOlder p xs (λ j lt. h (suc j) (omega arith)))

-- The entries of a prefix are those of the list.
pub slot-take : (n i : ℕ) (xs : List ScheduledPayload) → i < n → slot (take n xs) i ≡ slot xs i
slot-take zero i xs h = absurd (omega arith)
slot-take (suc n) i [] h = refl
slot-take (suc n) zero (x ∷ xs) h = refl
slot-take (suc n) (suc i) (x ∷ xs) h = slot-take n i xs (omega arith)
