-- ===== src/Slots.antt =====
-- The loops over a fixed array of payloads and a count that the scheduler, the BLE transport and
-- the radio coordinator share: the scan for the earliest entry and the shift that removes one.
pub mod Earliest
pub mod Shift
pub mod Erase
use esp32_rid.Prelude.{
  ℕ, zero, suc, ◌+◌, ◌-◌, ◌*◌, ◌/◌, ◌%◌, ◌^◌, ◌≤◌, ◌<◌, ◌≡◌, refl, sym, ap, ◌∙◌, ◌≢◌, ◌↔◌, ◌⊎◌, inl,
  inr, Bool, true, false, not, ◌&&◌, ◌||◌, Option, none, some, List, [], ◌∷◌, ◌++◌, map, append-nil,
  append_assoc, arith, ltb, leb, ◌==◌, if◌then◌else◌, ltb→lt, lt→ltb, leb→le, ==_iff, Bool-cases,
  Option-cases, All, length, get_or, set, take, drop, replicate, erase_at, length-append,
  length-set, length-take, length-drop, length-replicate, length-erase_at, length-erase_at-le,
  take-append, drop-append, take-append-drop, All-append, All-erase_at, All-get_or,
}
use esp32_rid.Payload.{ScheduledPayload, older_than, blank}

-- The entry at an index. The default stands for the array's initial entries.
abbrev pub slot : List ScheduledPayload → ℕ → ScheduledPayload
slot xs i = get_or xs i blank

-- `for (; index < count; ++index) if (older(slots[index], slots[result])) result = index;`
-- with `rounds` the number of indices left.
unfoldable pub earliest_from : ℕ → ℕ → ℕ → List ScheduledPayload → ℕ
earliest_from zero index result xs = result
earliest_from (suc rounds) index result xs =
    earliest_from rounds (index + 1)
      (if older_than (slot xs index) (slot xs result) then index else result) xs

-- The index of the earliest of the first `count` entries.
unfoldable pub earliest : ℕ → List ScheduledPayload → ℕ
unfolding earliest_from
earliest count xs = earliest_from (count - 1) 1 0 xs

-- `for (current = index + 1; current < count; ++current) slots[current - 1] = slots[current];`
-- with `rounds` the number of entries behind `index`.
unfoldable pub shift_from : ℕ → ℕ → List ScheduledPayload → List ScheduledPayload
shift_from zero index xs = xs
shift_from (suc rounds) index xs =
    shift_from rounds (suc index) (set xs index (slot xs (suc index)))
