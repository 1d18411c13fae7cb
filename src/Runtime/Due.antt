-- ===== src/Runtime/Due.antt =====
-- The due times after a tick.
use mathlib.Core.Path.{subst}
use esp32_rid.Prelude.{
  ℕ, zero, suc, ◌+◌, ◌-◌, ◌^◌, ◌≤◌, ◌<◌, ◌≡◌, refl, sym, ap, ◌∙◌, ◌≢◌, ◌⊎◌, inl, inr, Bool, true,
  not, ◌&&◌, ◌||◌, List, [], ◌∷◌, ◌++◌, arith, ltb, leb, ◌==◌, Bool-cases, if_cases, length, get_or,
}
use esp32_rid.Prelude.Arrays.{update_self, update_ne}
use esp32_rid.Model.{
  MessageKind, basic_id, location, authentication, self_id, system, operator_id, kind_value,
}
use esp32_rid.Config.{SystemConfig, AircraftConfig}
use esp32_rid.Runtime.{Runtime, Engine, Encoders, Sink, kinds, period_of, no_failure}
use esp32_rid.Runtime.Ticks.{Ticking, tick_aircraft, tick_all, tick}
use esp32_rid.Runtime.Rounds.{Later, advance_lem}
use esp32_rid.Runtime.Rows.{next_time, step_row, row_after, tick_aircraft-Touches}

apart : ℕ → List MessageKind → Bool
apart k [] = true
apart k (x ∷ xs) = not (kind_value x == k) && apart k xs

row_after_other :
    (ks : List MessageKind) (config : SystemConfig) (a : AircraftConfig) (now_ms : ℕ) (row : ℕ → ℕ)
    (k : ℕ)
    → apart k ks ≡ true
    → row_after ks config a now_ms row k ≡ row k
unfolding row_after apart step_row
row_after_other [] config a now_ms row k h = refl
row_after_other (x ∷ xs) config a now_ms row k h =
    let ne : kind_value x ≢ k = λ e. absurd (ground (arith, h, e)) in
    row_after_other xs config a now_ms (step_row config a now_ms x row) k (ground (arith, h))
    ∙ if_cases (λ (w : ℕ → ℕ). w k ≡ row k) (leb (row (kind_value x)) now_ms)
        (λ e. update_ne row (kind_value x) k _ ne) (λ e. refl)

row_after_split :
    (before after : List MessageKind) (kind : MessageKind) (config : SystemConfig)
    (a : AircraftConfig) (now_ms : ℕ) (row : ℕ → ℕ)
    → apart (kind_value kind) before ≡ true
    → apart (kind_value kind) after ≡ true
    → row_after (before ++ (kind ∷ after)) config a now_ms row (kind_value kind)
      ≡ next_time (period_of config a kind) now_ms (row (kind_value kind))
unfolding row_after apart step_row
row_after_split [] after kind config a now_ms row h k =
    row_after_other after config a now_ms (step_row config a now_ms kind row) (kind_value kind) k
    ∙ elim (Bool-cases (leb (row (kind_value kind)) now_ms)) [
      | inl e ↦ rw e (update_self row (kind_value kind) _)
      | inr e ↦ rw e refl
    ]
row_after_split (x ∷ xs) after kind config a now_ms row h k =
    row_after_split xs after kind config a now_ms (step_row config a now_ms x row)
      (ground (arith, h)) k
    ∙ ap (next_time (period_of config a kind) now_ms)
        (row_after_other (x ∷ []) config a now_ms row (kind_value kind) (ground (arith, h)))

row_after_lem :
    (kind : MessageKind) (config : SystemConfig) (a : AircraftConfig) (now_ms : ℕ) (row : ℕ → ℕ)
    → row_after kinds config a now_ms row (kind_value kind)
      ≡ next_time (period_of config a kind) now_ms (row (kind_value kind))
unfolding apart
row_after_lem basic_id config a now_ms row =
    row_after_split ([]) (location ∷ authentication ∷ self_id ∷ system ∷ operator_id ∷ []) basic_id
      config a now_ms row refl refl
row_after_lem location config a now_ms row =
    row_after_split (basic_id ∷ []) (authentication ∷ self_id ∷ system ∷ operator_id ∷ []) location
      config a now_ms row refl refl
row_after_lem authentication config a now_ms row =
    row_after_split (basic_id ∷ location ∷ []) (self_id ∷ system ∷ operator_id ∷ []) authentication
      config a now_ms row refl refl
row_after_lem self_id config a now_ms row =
    row_after_split (basic_id ∷ location ∷ authentication ∷ []) (system ∷ operator_id ∷ []) self_id
      config a now_ms row refl refl
row_after_lem system config a now_ms row =
    row_after_split (basic_id ∷ location ∷ authentication ∷ self_id ∷ []) (operator_id ∷ []) system
      config a now_ms row refl refl
row_after_lem operator_id config a now_ms row =
    row_after_split (basic_id ∷ location ∷ authentication ∷ self_id ∷ system ∷ []) ([]) operator_id
      config a now_ms row refl refl

-- What a tick does to one due time: it stays if it is still ahead, and otherwise it is moved ahead by
-- whole periods, to the first such time.
abbrev pub Moved : ℕ → ℕ → ℕ → ℕ → Type 0
Moved period now_ms due next =
    ((now_ms < due) × (next ≡ due))
    ⊎ ((due ≤ now_ms) × (now_ms < next) × (next ≤ now_ms + period) × Later period due next)

next_time-Moved :
    (period now_ms due : ℕ)
    → 0 < period
    → now_ms + period < 2 ^ 64
    → Moved period now_ms due (next_time period now_ms due)
next_time-Moved period now_ms due pos w =
    if_cases (Moved period now_ms due) (leb due now_ms)
      (λ h.
        let le : due ≤ now_ms = ground (arith, h) in
        let next = advance_lem (suc (now_ms - due)) period now_ms due pos le w (omega arith) in
        inr (le, next.0, next.1, next.2))
      (λ h. inl (ground (arith, h), refl))

module _ {E S : Type 0} (engine : Engine E) (encoders : Encoders) (sink : Sink S) where
  tick_all-below :
      (rest : List AircraftConfig) (i j now_ms : ℕ) (t : Ticking E S)
      → j < i
      → (tick_all engine encoders sink rest i now_ms t).runtime.next_due j ≡ t.runtime.next_due j
  unfolding tick_all
  tick_all-below [] i j now_ms t h = refl
  tick_all-below (a ∷ rest) i j now_ms t h =
      tick_all-below rest (i + 1) j now_ms (tick_aircraft engine encoders sink i a now_ms t)
        (omega arith)
      ∙ (tick_aircraft-Touches engine encoders sink i a now_ms t).others j (omega arith)

  -- Every row of the due times after the aircraft have been looked at.
  tick_all-row :
      (rest : List AircraftConfig) (i m now_ms : ℕ) (t : Ticking E S) (nobody : AircraftConfig)
      → m < length rest
      → (tick_all engine encoders sink rest i now_ms t).runtime.next_due (i + m)
        ≡ row_after kinds t.runtime.config
            (get_or rest m nobody)
            now_ms
            (t.runtime.next_due (i + m))
  unfolding tick_all
  tick_all-row [] i m now_ms t nobody h = absurd (omega arith)
  tick_all-row (a ∷ rest) i zero now_ms t nobody h =
      let t' = tick_aircraft engine encoders sink i a now_ms t in
      let x = tick_aircraft-Touches engine encoders sink i a now_ms t in
      let e : i + 0 ≡ i = omega arith in
      rw e (tick_all-below rest (i + 1) i now_ms t' (omega arith) ∙ x.own)
  tick_all-row (a ∷ rest) i (suc m) now_ms t nobody h =
      let t' = tick_aircraft engine encoders sink i a now_ms t in
      let x = tick_aircraft-Touches engine encoders sink i a now_ms t in
      let e : i + suc m ≡ i + 1 + m = omega arith in
      rw e (
        tick_all-row rest (i + 1) m now_ms t' nobody (omega arith)
        ∙ ap
            (λ c. row_after kinds c (get_or rest m nobody) now_ms (t'.runtime.next_due (i + 1 + m)))
            x.config
        ∙ ap (row_after kinds t.runtime.config (get_or rest m nobody) now_ms)
            (x.others (i + 1 + m) (omega arith)))

  pub started_tick :
      (r : Runtime E) (s : S) (now_ms : ℕ)
      → r.running ≡ true
      → r.started_ms ≤ now_ms
      → tick engine encoders sink r now_ms s
        ≡ tick_all engine encoders sink r.aircraft 0 now_ms
            (record { runtime = r; sink = s; result = no_failure })
  unfolding tick
  started_tick r s now_ms on start =
      if_cases
        (λ (x : Ticking E S).
          x
          ≡ tick_all engine encoders sink r.aircraft 0 now_ms
              (record { runtime = r; sink = s; result = no_failure }))
        (not r.running || ltb now_ms r.started_ms) (λ h. absurd (ground (arith, h, on, start)))
        (λ h. refl)

  -- At a tick of a running engine that is not before its start, each due time of each of its aircraft
  -- stays if it is ahead of now; otherwise it moves by whole periods to a time ahead of now and at most
  -- one period ahead. The period is positive and the clock is not within it of its end.
  pub tick-Moved :
      (r : Runtime E) (s : S) (now_ms m : ℕ) (kind : MessageKind) (nobody : AircraftConfig)
      → r.running ≡ true
      → r.started_ms ≤ now_ms
      → m < length r.aircraft
      → let period = period_of r.config (get_or r.aircraft m nobody) kind in
        0 < period
        → now_ms + period < 2 ^ 64
        → Moved period now_ms
            (r.next_due m (kind_value kind))
            ((tick engine encoders sink r now_ms s).runtime.next_due m (kind_value kind))
  tick-Moved r s now_ms m kind nobody on start h pos w =
      let a = get_or r.aircraft m nobody in
      let t : Ticking E S = record { runtime = r; sink = s; result = no_failure } in
      let t' = tick_all engine encoders sink r.aircraft 0 now_ms t in
      let zero_plus : 0 + m ≡ m = omega arith in
      let row : t'.runtime.next_due m ≡ row_after kinds r.config a now_ms (r.next_due m) =
        subst (λ z. t'.runtime.next_due z ≡ row_after kinds r.config a now_ms (r.next_due z))
          zero_plus (tick_all-row r.aircraft 0 m now_ms t nobody h) in
      subst
        (λ (x : Ticking E S).
          Moved (period_of r.config a kind) now_ms (r.next_due m (kind_value kind))
            (x.runtime.next_due m (kind_value kind)))
        (sym (started_tick r s now_ms on start))
        (subst (Moved (period_of r.config a kind) now_ms (r.next_due m (kind_value kind)))
          (sym (
            ap (λ f. f (kind_value kind)) row
            ∙ row_after_lem kind r.config a now_ms (r.next_due m)))
          (next_time-Moved (period_of r.config a kind) now_ms (r.next_due m (kind_value kind)) pos
            w))

  tick_all-aircraft :
      (rest : List AircraftConfig) (i now_ms : ℕ) (t : Ticking E S)
      → (tick_all engine encoders sink rest i now_ms t).runtime.aircraft ≡ t.runtime.aircraft
  unfolding tick_all
  tick_all-aircraft [] i now_ms t = refl
  tick_all-aircraft (a ∷ rest) i now_ms t =
      tick_all-aircraft rest (i + 1) now_ms (tick_aircraft engine encoders sink i a now_ms t)
      ∙ (tick_aircraft-Touches engine encoders sink i a now_ms t).aircraft

  pub tick-aircraft :
      (r : Runtime E) (s : S) (now_ms : ℕ)
      → (tick engine encoders sink r now_ms s).runtime.aircraft ≡ r.aircraft
  unfolding tick
  tick-aircraft r s now_ms =
      if_cases (λ (x : Ticking E S). x.runtime.aircraft ≡ r.aircraft)
        (not r.running || ltb now_ms r.started_ms) (λ h. refl)
        (λ h. tick_all-aircraft r.aircraft 0 now_ms _)

  tick_all-running :
      (rest : List AircraftConfig) (i now_ms : ℕ) (t : Ticking E S)
      → (tick_all engine encoders sink rest i now_ms t).runtime.running ≡ t.runtime.running
  unfolding tick_all
  tick_all-running [] i now_ms t = refl
  tick_all-running (a ∷ rest) i now_ms t =
      tick_all-running rest (i + 1) now_ms (tick_aircraft engine encoders sink i a now_ms t)
      ∙ (tick_aircraft-Touches engine encoders sink i a now_ms t).running

  pub tick-running :
      (r : Runtime E) (s : S) (now_ms : ℕ)
      → (tick engine encoders sink r now_ms s).runtime.running ≡ r.running
  unfolding tick
  tick-running r s now_ms =
      if_cases (λ (x : Ticking E S). x.runtime.running ≡ r.running)
        (not r.running || ltb now_ms r.started_ms) (λ h. refl)
        (λ h. tick_all-running r.aircraft 0 now_ms _)
