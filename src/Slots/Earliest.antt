-- ===== src/Slots/Earliest.antt =====
-- The scan finds an entry that no other is older than.
use esp32_rid.Prelude.{
  ℕ, zero, suc, ◌+◌, ◌-◌, ◌<◌, ◌≡◌, inl, inr, true, false, List, arith, Bool-cases,
}
use esp32_rid.Payload.{ScheduledPayload, older_than}
use esp32_rid.Payload.Order.{older_than_irrefl, older_than_asymm, not_older_trans}
use native.Mathlib.Decide.{dec_lt}
use esp32_rid.Slots.{slot, earliest_from, earliest}

abbrev pub NoneOlder : ℕ → ℕ → List ScheduledPayload → Type 0
NoneOlder bound result xs = (j : ℕ) → j < bound → older_than (slot xs j) (slot xs result) ≡ false

keep_result :
    (index result : ℕ) (xs : List ScheduledPayload)
    → older_than (slot xs index) (slot xs result) ≡ false
    → NoneOlder index result xs
    → NoneOlder (index + 1) result xs
keep_result index result xs h k j lt = elim (dec_lt j index) [
  | yes below ↦ k j below
  | no above ↦ let e : j ≡ index = omega arith in rw e h
]

take_index :
    (index result : ℕ) (xs : List ScheduledPayload)
    → older_than (slot xs index) (slot xs result) ≡ true
    → NoneOlder index result xs
    → NoneOlder (index + 1) index xs
take_index index result xs h k j lt = elim (dec_lt j index) [
  | yes below ↦
      not_older_trans (slot xs j) (slot xs result) (slot xs index) (k j below)
        (older_than_asymm (slot xs index) (slot xs result) h)
  | no above ↦ let e : j ≡ index = omega arith in rw e (older_than_irrefl (slot xs index))
]

earliest_from_inv :
    (rounds index result limit : ℕ) (xs : List ScheduledPayload)
    → index + rounds ≡ limit
    → result < index
    → NoneOlder index result xs
    → (earliest_from rounds index result xs < limit)
      × NoneOlder limit (earliest_from rounds index result xs) xs
unfolding earliest_from
earliest_from_inv zero index result limit xs e lt h = (omega arith, λ j j_lt. h j (omega arith))
earliest_from_inv (suc rounds) index result limit xs e lt h =
    elim (Bool-cases (older_than (slot xs index) (slot xs result))) [
      | inl older ↦ rw older (
          earliest_from_inv rounds (index + 1) index limit xs (omega arith) (omega arith)
            (take_index index result xs older h))
      | inr same ↦ rw same (
          earliest_from_inv rounds (index + 1) result limit xs (omega arith) (omega arith)
            (keep_result index result xs same h))
    ]

-- The scan stays inside the count, and no live entry is older than the one it finds.
pub earliest_lem :
    (count : ℕ) (xs : List ScheduledPayload)
    → 0 < count
    → (earliest count xs < count) × NoneOlder count (earliest count xs) xs
unfolding earliest
earliest_lem count xs h =
    earliest_from_inv (count - 1) 1 0 count xs (omega arith) (omega arith) first
  where
    first : NoneOlder 1 0 xs
    first j lt = let e : j ≡ 0 = omega arith in rw e (older_than_irrefl (slot xs 0))
