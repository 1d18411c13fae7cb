-- ===== src/Runtime/Accounting.antt =====
-- The counters and the sequence numbers of the runtime over any sequence of ticks.
use esp32_rid.Runtime.Books.{Books, grow-Accounts, tick_kinds-Books, tick_pack-Books}
use mathlib.Core.Path.{subst}
use esp32_rid.Prelude.{
  ℕ, ◌+◌, ◌*◌, ◌%◌, ◌^◌, ◌≤◌, ◌≡◌, refl, ◌⊎◌, inl, inr, true, not, ◌||◌, List, [], ◌∷◌, arith, ltb,
  Option-cases, if_cases, length,
}
use esp32_rid.Config.{validate, ok, SystemConfig, AircraftConfig}
use esp32_rid.Payload.{u64_max}
use esp32_rid.Identity.{Digest}
use esp32_rid.Runtime.Due.{tick-aircraft}
use esp32_rid.Config.Expand.{fleet, validate_and_expand_lem}
use esp32_rid.Config.{max_aircraft}
use esp32_rid.Runtime.{
  invalid_config, Runtime, Engine, Encoders, Sink, kinds, no_failure, is_packed, group_of,
  elapsed32,
}
use esp32_rid.Runtime.Schedule.{apply}
use esp32_rid.Runtime.Ticks.{Ticking, tick_aircraft, tick_all, tick}

module _ {E S : Type 0} (engine : Engine E) (encoders : Encoders) (sink : Sink S) where
  tick_aircraft-Books :
      (limit i : ℕ) (a : AircraftConfig) (now_ms : ℕ) (t : Ticking E S)
      → limit + 6 ≤ u64_max
      → Books limit 0 (t.runtime)
      → Books (limit + 6) 0 (tick_aircraft engine encoders sink i a now_ms t).runtime
  unfolding tick_aircraft
  tick_aircraft-Books limit i a now_ms t h v =
      let r = t.runtime in
      let (state, e) =
        engine.sample (group_of r.config a).trajectory a.instance_index
          (elapsed32 now_ms r.started_ms) r.trajectory in
      let sampled : Ticking E S = record t { runtime = record r { trajectory = e } } in
      if_cases (λ (x : Ticking E S). Books (limit + 6) 0 (x.runtime)) (is_packed a)
        (λ k.
          grow-Accounts (omega arith) h
            (tick_pack-Books encoders sink limit i a state now_ms sampled (omega arith) v))
        (λ k. tick_kinds-Books encoders sink kinds limit i a state now_ms sampled h v)

  tick_all-Books :
      (rest : List AircraftConfig) (limit i now_ms : ℕ) (t : Ticking E S)
      → limit + 6 * length rest ≤ u64_max
      → Books limit 0 (t.runtime)
      → Books (limit + 6 * length rest) 0 (tick_all engine encoders sink rest i now_ms t).runtime
  unfolding tick_all
  tick_all-Books [] limit i now_ms t h v = grow-Accounts (omega arith) h v
  tick_all-Books (a ∷ rest) limit i now_ms t h v = grow-Accounts (omega arith) h (
      tick_all-Books rest (limit + 6) (i + 1) now_ms
        (tick_aircraft engine encoders sink i a now_ms t) (omega arith)
        (tick_aircraft-Books limit i a now_ms t (omega arith) v))

  pub tick-Books :
      (limit now_ms : ℕ) (r : Runtime E) (s : S)
      → limit + 6 * length r.aircraft ≤ u64_max
      → Books limit 0 r
      → Books (limit + 6 * length r.aircraft) 0 (tick engine encoders sink r now_ms s).runtime
  unfolding tick
  tick-Books limit now_ms r s h v =
      if_cases (λ (x : Ticking E S). Books (limit + 6 * length r.aircraft) 0 (x.runtime))
        (not r.running || ltb now_ms r.started_ms) (λ k. grow-Accounts (omega arith) h v)
        (λ k. tick_all-Books r.aircraft limit 0 now_ms _ h v)

  -- One tick after the other, at the given times.
  unfoldable pub ticks : List ℕ → Runtime E → S → Runtime E × S
  ticks [] r s = (r, s)
  ticks (now_ms ∷ times) r s =
      let t = tick engine encoders sink r now_ms s in ticks times (t.runtime) (t.sink)

  ticks-Books :
      (times : List ℕ) (limit : ℕ) (r : Runtime E) (s : S)
      → limit + 300 * length times ≤ u64_max
      → length r.aircraft ≤ max_aircraft
      → Books limit 0 r
      → Books (limit + 300 * length times) 0 (ticks times r s).0
  unfolding ticks
  ticks-Books [] limit r s h few v = grow-Accounts (omega arith) h v
  ticks-Books (now_ms ∷ times) limit r s h few v =
      let t = tick engine encoders sink r now_ms s in
      let same = tick-aircraft engine encoders sink r s now_ms in
      grow-Accounts (omega arith) h (
        ticks-Books times (limit + 300) (t.runtime) (t.sink) (omega arith) (rw same few)
          (grow-Accounts (omega arith) (omega arith) (tick-Books limit now_ms r s (omega arith) v)))

-- A configuration that is refused changes nothing; one that is accepted starts the books again.
pub apply_cases :
    {E : Type 0} (engine : Engine E) (sha256 : Digest) (device : List ℕ) (r : Runtime E)
    (config : SystemConfig) (now_ms : ℕ)
    → let (error, r') = apply engine sha256 device r config now_ms in
      ((error ≡ invalid_config) × (r' ≡ r))
      ⊎ ((error ≡ no_failure)
          × Books 0 0 r'
          × (length r'.aircraft ≤ max_aircraft)
          × (validate config ≡ ok)
          × (r'.aircraft ≡ fleet sha256 device 0 config.groups)
          × (r'.running ≡ true)
          × (r'.started_ms ≡ now_ms))
unfolding apply
apply_cases engine sha256 device r config now_ms =
    elim (validate_and_expand_lem sha256 device config) [
      | inl k ↦ rw (k.1, apply) (inl (refl, refl))
      | inr (inl k) ↦ rw (k.1, apply) (inl (refl, refl))
      | inr (inr k) ↦
          rw (k.1, apply)
            (elim (Option-cases config.site) [
              | inl e ↦ rw e (inl (refl, refl))
              | inr (site, e) ↦ rw e (
                  inr (
                    refl,
                    record {
                      balanced = omega arith;
                      numbered = omega arith;
                      bounded = omega arith;
                      capped = omega arith;
                    },
                    k.4,
                    subst (λ o. validate (record config { site = o }) ≡ ok) e (k.0),
                    refl,
                    refl,
                    refl,
                  ))
            ])
    ]

module _ {E S : Type 0} (engine : Engine E) (encoders : Encoders) (sink : Sink S) where
  -- After a configuration has been applied and any sequence of ticks, with fewer than 2 ^ 64 messages
  -- in all: the payloads that were built are those that the sink took and those that it refused, and
  -- the sequence numbers used are as many as the payloads that were built and the messages that could
  -- not be encoded, modulo 2 ^ 32.
  pub ticks-apply :
      (sha256 : Digest) (device : List ℕ) (r : Runtime E) (config : SystemConfig) (now_ms : ℕ)
      (times : List ℕ) (s : S)
      → (apply engine sha256 device r config now_ms).0 ≡ no_failure
      → 300 * length times ≤ u64_max
      → let started = (apply engine sha256 device r config now_ms).1 in
        let r' = (ticks engine encoders sink times started s).0 in
        let c = r'.stats in
        (c.expected ≡ c.submitted + c.submit_errors)
        × (r'.sequence ≡ (c.expected + c.encode_errors) % 2 ^ 32)
  ticks-apply sha256 device r config now_ms times s h few =
      elim (apply_cases engine sha256 device r config now_ms) [
        | inl k ↦ absurd (ground (arith, k.0, h))
        | inr k ↦
            let started = (apply engine sha256 device r config now_ms).1 in
            let v = ticks-Books engine encoders sink times 0 started s (omega arith) k.2 k.1 in
            (v.balanced, omega (arith, v.numbered))
      ]
