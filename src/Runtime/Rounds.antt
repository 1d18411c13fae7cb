-- ===== src/Runtime/Rounds.antt =====
-- The rounds of `advance_due`: how many there are and where they end.
use esp32_rid.Prelude.{ℕ, zero, suc, ◌+◌, ◌-◌, ◌*◌, ◌%◌, ◌^◌, ◌≤◌, ◌<◌, ◌≡◌, arith, leb, if_cases}
use esp32_rid.Runtime.Schedule.{advance}

-- A whole number of periods later.
abbrev pub Later : ℕ → ℕ → ℕ → Type 0
Later period due next = (m : ℕ) × (next ≡ due + m * period)

once-Later : (period due next : ℕ) → Later period (due + period) next → Later period due next
once-Later period due next (m, e) = (suc m, grind (arith, e))

-- With a round for each millisecond that the due time is behind, and one more, the loop of advance_due
-- ends, for a positive period and a clock that is not within a period of its end: at a time ahead of
-- now, at most one period ahead, and a whole number of periods after the due time.
pub advance_lem :
    (fuel period now_ms due : ℕ)
    → 0 < period
    → due ≤ now_ms
    → now_ms + period < 2 ^ 64
    → now_ms - due < fuel
    → let next = advance fuel period now_ms due in
      (now_ms < next) × (next ≤ now_ms + period) × Later period due next
unfolding advance
advance_lem zero period now_ms due pos le w enough = absurd (omega arith)
advance_lem (suc fuel) period now_ms due pos le w enough =
    let e : (due + period) % 2 ^ 64 ≡ due + period = omega arith in
    rw e (
      if_cases (λ next. (now_ms < next) × (next ≤ now_ms + period) × Later period due next)
        (leb (due + period) now_ms)
        (λ h.
          let behind : due + period ≤ now_ms = ground (arith, h) in
          let r = advance_lem fuel period now_ms (due + period) pos behind w (omega arith) in
          (r.0, r.1, once-Later period due (advance fuel period now_ms (due + period)) r.2))
        (λ h. (ground (arith, h), omega arith, (1, omega arith))))
