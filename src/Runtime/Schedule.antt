-- ===== src/Runtime/Schedule.antt =====
-- `apply` and `advance_due` of components/rid_runtime/runtime.cpp: when each message is due.
use esp32_rid.Prelude.{
  ℕ, zero, suc, ◌+◌, ◌-◌, ◌*◌, ◌/◌, ◌%◌, ◌^◌, Bool, true, false, ◌||◌, none, some, List, [], ◌∷◌,
  leb, if◌then◌else◌, length,
}
use esp32_rid.Prelude.Arrays.{update}
use esp32_rid.Model.{MessageKind, kind_value}
use esp32_rid.Identity.{Digest}
use esp32_rid.Config.{
  SystemConfig, AircraftConfig, failed, expanded, validate_and_expand, message_kind_count,
}
use esp32_rid.Runtime.{
  Engine, RuntimeError, no_failure, invalid_config, no_stats, Runtime, kinds, period_of,
  is_packed_at_start,
}

-- The loop of `advance_due`, whose body runs before its test; `fuel` is a bound on the rounds.
unfoldable pub advance : ℕ → ℕ → ℕ → ℕ → ℕ
advance zero period now_ms due = due
advance (suc fuel) period now_ms due =
    let next = (due + period) % 2 ^ 64 in
    let rest = advance fuel period now_ms next in if leb next now_ms then rest else next

-- The first due times, spread over a period: a slot for each aircraft that sends packs, and for
-- each kind of message of any other.
abbrev pub slots : ℕ → AircraftConfig → ℕ
slots count a = if is_packed_at_start a then count else count * message_kind_count

abbrev pub slot_of : ℕ → AircraftConfig → MessageKind → ℕ
slot_of i a kind = if is_packed_at_start a then i else i * message_kind_count + kind_value kind

abbrev pub first_due : SystemConfig → ℕ → ℕ → AircraftConfig → MessageKind → ℕ → ℕ
first_due config count i a kind now_ms =
    (now_ms + period_of config a kind * slot_of i a kind / slots count a) % 2 ^ 64

-- The loop over the kinds, for the aircraft at an index.
unfoldable pub schedule_kinds :
    List MessageKind → SystemConfig → ℕ → ℕ → AircraftConfig → ℕ → (ℕ → ℕ) → ℕ → ℕ
schedule_kinds [] config count i a now_ms row = row
schedule_kinds (kind ∷ ks) config count i a now_ms row =
    schedule_kinds ks config count i a now_ms
      (update row (kind_value kind) (first_due config count i a kind now_ms))

-- The loop over the aircraft.
unfoldable pub schedule : List AircraftConfig → SystemConfig → ℕ → ℕ → ℕ → (ℕ → ℕ → ℕ) → ℕ → ℕ → ℕ
unfolding schedule_kinds
schedule [] config count i now_ms next_due = next_due
schedule (a ∷ others) config count i now_ms next_due =
    schedule others config count (i + 1) now_ms
      (update next_due i (schedule_kinds kinds config count i a now_ms (next_due i)))

module _ {E : Type 0} where
  unfoldable pub advance_due : Runtime E → ℕ → AircraftConfig → MessageKind → ℕ → Runtime E
  unfolding advance
  advance_due r i a kind now_ms =
      let due = r.next_due i (kind_value kind) in
      let next = advance (suc (now_ms - due)) (period_of r.config a kind) now_ms due in
      record r { next_due = update r.next_due i (update (r.next_due i) (kind_value kind) next) }

  -- The loop over the kinds of an aircraft whose messages go into a pack: whether any was due.
  unfoldable pub mark_due : List MessageKind → ℕ → AircraftConfig → ℕ → Runtime E → Bool × Runtime E
  mark_due [] i a now_ms r = (false, r)
  mark_due (kind ∷ ks) i a now_ms r =
      let is_due = leb (r.next_due i (kind_value kind)) now_ms in
      let (more, r') =
        mark_due ks i a now_ms (if is_due then advance_due r i a kind now_ms else r) in
      (is_due || more, r')

module _ {E : Type 0} (engine : Engine E) (sha256 : Digest) (device : List ℕ) where
  -- `apply`. The site is there, since the validation has found it.
  unfoldable pub apply : Runtime E → SystemConfig → ℕ → RuntimeError × Runtime E
  unfolding schedule
  apply r config now_ms = elim (validate_and_expand sha256 device config) [
    | failed error ↦ (invalid_config, r)
    | expanded aircraft ↦ elim config.site [
      | none ↦ (invalid_config, r)
      | some site ↦ (
        no_failure,
        record {
          config = config;
          aircraft = aircraft;
          trajectory = engine.create site;
          next_due = schedule aircraft config (length aircraft) 0 now_ms r.next_due;
          stats = no_stats;
          started_ms = now_ms;
          sequence = 0;
          counter = 0;
          running = true;
        },
      )
    ]
  ]
