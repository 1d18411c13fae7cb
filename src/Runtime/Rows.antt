-- ===== src/Runtime/Rows.antt =====
-- The due times of one aircraft after a tick, as a function of those before.
use mathlib.Core.Path.{subst}
use esp32_rid.Prelude.{
  ℕ, suc, ◌-◌, ◌≡◌, refl, inl, inr, not, List, [], ◌∷◌, arith, ltb, leb, if◌then◌else◌, Bool-cases,
  if_cases,
}
use esp32_rid.Prelude.Arrays.{update, update_self, update_ne}
use esp32_rid.Prelude.Int.{to_u64}
use esp32_rid.Model.{MessageKind, location, FlightState, kind_value}
use esp32_rid.Config.{SystemConfig, AircraftConfig}
use esp32_rid.Runtime.{
  Runtime, Engine, Encoders, Sink, kinds, group_of, elapsed32, period_of, is_packed,
}
use esp32_rid.Runtime.Schedule.{advance, advance_due, mark_due}
use esp32_rid.Runtime.Ticks.{
  Ticking, new_payload, take_sequence, tick_pack, tick_kind, tick_kinds, tick_aircraft, frame_pack,
  frame_message,
}
use esp32_rid.Runtime.Touches.{Touches, deliver-Keeps, nothing-Touches, both-Touches, Keeps-Touches}

-- A due time that is not behind now stays; any other goes on.
abbrev pub next_time : ℕ → ℕ → ℕ → ℕ
next_time period now_ms due =
    if leb due now_ms then advance (suc (now_ms - due)) period now_ms due else due

-- The row of one aircraft after one kind and after several of its kinds have been looked at.
unfoldable pub step_row : SystemConfig → AircraftConfig → ℕ → MessageKind → (ℕ → ℕ) → ℕ → ℕ
step_row config a now_ms kind row =
    if leb (row (kind_value kind)) now_ms
    then update row (kind_value kind) (
        advance (suc (now_ms - row (kind_value kind))) (period_of config a kind) now_ms
          (row (kind_value kind)))
    else row

unfoldable pub row_after : List MessageKind → SystemConfig → AircraftConfig → ℕ → (ℕ → ℕ) → ℕ → ℕ
row_after [] config a now_ms row = row
row_after (kind ∷ ks) config a now_ms row =
    row_after ks config a now_ms (step_row config a now_ms kind row)

-- The kinds in turn, on the row of an aircraft.
module _ {E : Type 0} where
  advance_due-Touches :
      (r : Runtime E) (i : ℕ) (a : AircraftConfig) (kind : MessageKind) (now_ms : ℕ)
      → Touches i
          (update (r.next_due i) (kind_value kind) (
            advance
              (suc (now_ms - r.next_due i (kind_value kind)))
              (period_of r.config a kind)
              now_ms
              (r.next_due i (kind_value kind))))
          r
          (advance_due r i a kind now_ms)
  unfolding advance_due
  advance_due-Touches r i a kind now_ms = record {
    own = update_self r.next_due i _;
    others = λ j ne. update_ne r.next_due i j _ ne;
    config = refl;
    aircraft = refl;
    running = refl;
    started = refl;
  }

  chain-Touches :
      {i : ℕ} {row : ℕ → ℕ} {r1 r2 r3 : Runtime E} (ks : List MessageKind) (a : AircraftConfig)
      (now_ms : ℕ)
      → Touches i row r1 r2
      → Touches i (row_after ks r2.config a now_ms (r2.next_due i)) r2 r3
      → Touches i (row_after ks r1.config a now_ms row) r1 r3
  chain-Touches {i} {row} {r1} {r2} {r3} ks a now_ms x y =
      subst (λ c. Touches i (row_after ks c a now_ms row) r1 r3) x.config
        (subst (λ w. Touches i (row_after ks r2.config a now_ms w) r1 r3) x.own (both-Touches x y))

  marked-Touches :
      (r : Runtime E) (i : ℕ) (a : AircraftConfig) (kind : MessageKind) (now_ms : ℕ)
      → Touches i
          (step_row r.config a now_ms kind (r.next_due i))
          r
          (if leb (r.next_due i (kind_value kind)) now_ms then advance_due r i a kind now_ms else r)
  unfolding step_row
  marked-Touches r i a kind now_ms =
      elim (Bool-cases (leb (r.next_due i (kind_value kind)) now_ms)) [
        | inl e ↦ rw e (advance_due-Touches r i a kind now_ms)
        | inr e ↦ rw e (nothing-Touches i r)
      ]

  pub mark_due-Touches :
      (ks : List MessageKind) (i : ℕ) (a : AircraftConfig) (now_ms : ℕ) (r : Runtime E)
      → Touches i (row_after ks r.config a now_ms (r.next_due i)) r (mark_due ks i a now_ms r).1
  unfolding mark_due row_after
  mark_due-Touches [] i a now_ms r = nothing-Touches i r
  mark_due-Touches (kind ∷ ks) i a now_ms r =
      chain-Touches ks a now_ms (marked-Touches r i a kind now_ms)
        (mark_due-Touches ks i a now_ms _)

ltb-leb : (a b : ℕ) → ltb a b ≡ not (leb b a)
ltb-leb a b = ground arith

module _ {E S : Type 0} (encoders : Encoders) (sink : Sink S) where
  tick_kind-Touches :
      (i : ℕ) (a : AircraftConfig) (state : FlightState) (now_ms : ℕ) (kind : MessageKind)
      (t : Ticking E S)
      → Touches i
          (step_row t.runtime.config a now_ms kind (t.runtime.next_due i))
          (t.runtime)
          (tick_kind encoders sink i a state now_ms kind t).runtime
  unfolding tick_kind step_row
  tick_kind-Touches i a state now_ms kind t =
      let r = advance_due (t.runtime) i a kind now_ms in
      rw (ltb-leb now_ms (t.runtime.next_due i (kind_value kind)))
        (elim (Bool-cases (leb (t.runtime.next_due i (kind_value kind)) now_ms)) [
          | inl e ↦ rw e (
              Keeps-Touches (advance_due-Touches (t.runtime) i a kind now_ms) (
                deliver-Keeps sink (new_payload r i a kind now_ms (period_of r.config a kind)) _
                  (frame_message a) (record t { runtime = take_sequence r })))
          | inr e ↦ rw e (nothing-Touches i (t.runtime))
        ])

  tick_kinds-Touches :
      (ks : List MessageKind) (i : ℕ) (a : AircraftConfig) (state : FlightState) (now_ms : ℕ)
      (t : Ticking E S)
      → Touches i
          (row_after ks t.runtime.config a now_ms (t.runtime.next_due i))
          (t.runtime)
          (tick_kinds encoders sink ks i a state now_ms t).runtime
  unfolding tick_kinds row_after
  tick_kinds-Touches [] i a state now_ms t = nothing-Touches i (t.runtime)
  tick_kinds-Touches (kind ∷ ks) i a state now_ms t =
      chain-Touches ks a now_ms (tick_kind-Touches i a state now_ms kind t)
        (tick_kinds-Touches ks i a state now_ms (tick_kind encoders sink i a state now_ms kind t))

  tick_pack-Touches :
      (i : ℕ) (a : AircraftConfig) (state : FlightState) (now_ms : ℕ) (t : Ticking E S)
      → Touches i
          (row_after kinds t.runtime.config a now_ms (t.runtime.next_due i))
          (t.runtime)
          (tick_pack encoders sink i a state now_ms t).runtime
  unfolding tick_pack
  tick_pack-Touches i a state now_ms t =
      let (due, r) = mark_due kinds i a now_ms (t.runtime) in
      let m = mark_due-Touches kinds i a now_ms (t.runtime) in
      if_cases
        (λ (x : Ticking E S).
          Touches i (row_after kinds t.runtime.config a now_ms (t.runtime.next_due i)) (t.runtime)
            (x.runtime))
        (not due) (λ e. m)
        (λ e. Keeps-Touches m (
          deliver-Keeps sink (new_payload r i a location now_ms (to_u64 r.config.default_period)) _
            (frame_pack a) (record t { runtime = take_sequence r })))

module _ {E S : Type 0} (engine : Engine E) (encoders : Encoders) (sink : Sink S) where
  pub tick_aircraft-Touches :
      (i : ℕ) (a : AircraftConfig) (now_ms : ℕ) (t : Ticking E S)
      → Touches i
          (row_after kinds t.runtime.config a now_ms (t.runtime.next_due i))
          (t.runtime)
          (tick_aircraft engine encoders sink i a now_ms t).runtime
  unfolding tick_aircraft
  tick_aircraft-Touches i a now_ms t =
      let r = t.runtime in
      let (state, e) =
        engine.sample (group_of r.config a).trajectory a.instance_index
          (elapsed32 now_ms r.started_ms) r.trajectory in
      let sampled : Ticking E S = record t { runtime = record r { trajectory = e } } in
      let x =
        if_cases
          (λ (x : Ticking E S).
            Touches i (row_after kinds r.config a now_ms (r.next_due i)) (sampled.runtime)
              (x.runtime))
          (is_packed a) (λ h. tick_pack-Touches encoders sink i a state now_ms sampled)
          (λ h. tick_kinds-Touches encoders sink kinds i a state now_ms sampled) in
      record {
        own = x.own;
        others = x.others;
        config = x.config;
        aircraft = x.aircraft;
        running = x.running;
        started = x.started;
      }
