-- ===== src/Runtime/Books.antt =====
-- The counters and the sequence number of the runtime over the parts of a tick.
use esp32_rid.Prelude.{
  ℕ, ◌+◌, ◌%◌, ◌^◌, ◌≤◌, ◌<◌, ◌≡◌, not, Option, none, some, List, [], ◌∷◌, arith, ltb, leb,
  if_cases, length,
}
use esp32_rid.Model.{MessageKind, FlightState, location, kind_value}
use esp32_rid.Prelude.Int.{to_u64}
use esp32_rid.Config.{AircraftConfig}
use esp32_rid.Payload.{ScheduledPayload, u64_max}
use esp32_rid.Payload.Order.{increment_step}
use esp32_rid.Runtime.{Runtime, RuntimeStats, Encoders, Sink, kinds, period_of}
use esp32_rid.Runtime.Schedule.{advance_due, mark_due}
use esp32_rid.Runtime.Ticks.{
  Ticking, submit_loaded, use_counter, new_payload, take_sequence, submit, encode_error, load_frame,
  deliver, tick_pack, tick_kind, tick_kinds, frame_pack, frame_message,
}

-- Every payload that was built was taken by the sink or refused by it, and each sequence number
-- stands for a payload that was built or one that could not be; `pending` numbers are taken and not
-- yet accounted for.
pub record Accounts (limit pending : ℕ) (stats : RuntimeStats) (sequence : ℕ) : Type 0 where
  pub balanced : stats.expected ≡ stats.submitted + stats.submit_errors
  pub numbered : sequence ≡ (stats.expected + stats.encode_errors + pending) % 2 ^ 32
  pub bounded : stats.expected + stats.encode_errors + pending ≤ limit
  pub capped : limit ≤ u64_max

abbrev pub Books : {E : Type 0} → ℕ → ℕ → Runtime E → Type 0
Books limit pending r = Accounts limit pending (r.stats) (r.sequence)

pub grow-Accounts :
    {limit limit' pending sequence : ℕ} {stats : RuntimeStats}
    → limit ≤ limit'
    → limit' ≤ u64_max
    → Accounts limit pending stats sequence
    → Accounts limit' pending stats sequence
grow-Accounts h k v = record {
  balanced = v.balanced;
  numbered = v.numbered;
  bounded = omega (arith, v.bounded);
  capped = k;
}

pub take_sequence-Books :
    {E : Type 0} (limit : ℕ) (r : Runtime E)
    → limit < u64_max
    → Books limit 0 r
    → Books (limit + 1) 1 (take_sequence r)
take_sequence-Books limit r h v = record {
  balanced = v.balanced;
  numbered = omega (arith, v.numbered);
  bounded = omega (arith, v.bounded);
  capped = omega arith;
}

pub encode_error-Books :
    {E S : Type 0} (limit : ℕ) (t : Ticking E S)
    → Books limit 1 (t.runtime)
    → Books limit 0 (encode_error t).runtime
unfolding encode_error
encode_error-Books limit t v =
    let e = increment_step t.runtime.stats.encode_errors (omega (arith, v.bounded, v.capped)) in
    record {
      balanced = v.balanced;
      numbered = omega (arith, v.numbered, e);
      bounded = omega (arith, v.bounded, e);
      capped = v.capped;
    }

module _ {E S : Type 0} (sink : Sink S) where
  submit-Books :
      (limit : ℕ) (p : ScheduledPayload) (t : Ticking E S)
      → Books limit 1 (t.runtime)
      → Books limit 0 (submit sink p t).runtime
  unfolding submit
  submit-Books limit p t v =
      let stats = t.runtime.stats in
      let e = increment_step stats.expected (omega (arith, v.bounded, v.capped)) in
      let e1 =
        increment_step stats.submit_errors (omega (arith, v.balanced, v.bounded, v.capped)) in
      let e2 = increment_step stats.submitted (omega (arith, v.balanced, v.bounded, v.capped)) in
      if_cases (λ (x : Ticking E S). Books limit 0 (x.runtime)) (not (sink p t.sink).0)
        (λ h. record {
          balanced = omega (arith, v.balanced, e, e1);
          numbered = omega (arith, v.numbered, e);
          bounded = omega (arith, v.bounded, e);
          capped = v.capped;
        })
        (λ h. record {
          balanced = omega (arith, v.balanced, e, e2);
          numbered = omega (arith, v.numbered, e);
          bounded = omega (arith, v.bounded, e);
          capped = v.capped;
        })

  submit_loaded-Books :
      (limit : ℕ) (loaded : Option ScheduledPayload) (t : Ticking E S)
      → Books limit 1 (t.runtime)
      → Books limit 0 (submit_loaded sink loaded t).runtime
  unfolding submit_loaded
  submit_loaded-Books limit none t v = encode_error-Books limit t v
  submit_loaded-Books limit (some p) t v = submit-Books limit p t v

  pub deliver-Books :
      (limit : ℕ) (p : ScheduledPayload) (bytes : Option (List ℕ))
      (frame : ℕ → List ℕ → Option (List ℕ)) (t : Ticking E S)
      → Books limit 1 (t.runtime)
      → Books limit 0 (deliver sink p bytes frame t).runtime
  unfolding deliver
  deliver-Books limit p none frame t v = encode_error-Books limit t v
  deliver-Books limit p (some bytes) frame t v =
      submit_loaded-Books limit (load_frame p (frame t.runtime.counter bytes)) (use_counter t) v

pub advance_due-Books :
    {E : Type 0} (limit i : ℕ) (a : AircraftConfig) (kind : MessageKind) (now_ms : ℕ)
    (r : Runtime E)
    → Books limit 0 r
    → Books limit 0 (advance_due r i a kind now_ms)
unfolding advance_due
advance_due-Books limit i a kind now_ms r v = v

pub mark_due-Books :
    {E : Type 0} (limit : ℕ) (ks : List MessageKind) (i : ℕ) (a : AircraftConfig) (now_ms : ℕ)
    (r : Runtime E)
    → Books limit 0 r
    → Books limit 0 (mark_due ks i a now_ms r).1
unfolding mark_due
mark_due-Books {E} limit [] i a now_ms r v = v
mark_due-Books {E} limit (kind ∷ ks) i a now_ms r v = mark_due-Books limit ks i a now_ms _ (
    if_cases (λ (x : Runtime E). Books limit 0 x) (leb (r.next_due i (kind_value kind)) now_ms)
      (λ h. advance_due-Books limit i a kind now_ms r v) (λ h. v))

module _ {E S : Type 0} (encoders : Encoders) (sink : Sink S) where
  pub tick_kind-Books :
      (limit i : ℕ) (a : AircraftConfig) (state : FlightState) (now_ms : ℕ) (kind : MessageKind)
      (t : Ticking E S)
      → limit < u64_max
      → Books limit 0 (t.runtime)
      → Books (limit + 1) 0 (tick_kind encoders sink i a state now_ms kind t).runtime
  unfolding tick_kind
  tick_kind-Books limit i a state now_ms kind t h v =
      let r = advance_due (t.runtime) i a kind now_ms in
      if_cases (λ (x : Ticking E S). Books (limit + 1) 0 (x.runtime))
        (ltb now_ms (t.runtime.next_due i (kind_value kind)))
        (λ e. grow-Accounts (omega arith) (omega arith) v)
        (λ e.
          deliver-Books sink (limit + 1) (new_payload r i a kind now_ms (period_of r.config a kind))
            _ (frame_message a) (record t { runtime = take_sequence r })
            (take_sequence-Books limit r h (advance_due-Books limit i a kind now_ms (t.runtime) v)))

  pub tick_kinds-Books :
      (ks : List MessageKind) (limit i : ℕ) (a : AircraftConfig) (state : FlightState) (now_ms : ℕ)
      (t : Ticking E S)
      → limit + length ks ≤ u64_max
      → Books limit 0 (t.runtime)
      → Books (limit + length ks) 0 (tick_kinds encoders sink ks i a state now_ms t).runtime
  unfolding tick_kinds
  tick_kinds-Books [] limit i a state now_ms t h v = grow-Accounts (omega arith) h v
  tick_kinds-Books (kind ∷ ks) limit i a state now_ms t h v =
      let t' = tick_kind encoders sink i a state now_ms kind t in
      grow-Accounts (omega arith) h (
        tick_kinds-Books ks (limit + 1) i a state now_ms t' (omega arith)
          (tick_kind-Books limit i a state now_ms kind t (omega arith) v))

  pub tick_pack-Books :
      (limit i : ℕ) (a : AircraftConfig) (state : FlightState) (now_ms : ℕ) (t : Ticking E S)
      → limit < u64_max
      → Books limit 0 (t.runtime)
      → Books (limit + 1) 0 (tick_pack encoders sink i a state now_ms t).runtime
  unfolding tick_pack
  tick_pack-Books limit i a state now_ms t h v =
      let (due, r) = mark_due kinds i a now_ms (t.runtime) in
      let m = mark_due-Books limit kinds i a now_ms (t.runtime) v in
      if_cases (λ (x : Ticking E S). Books (limit + 1) 0 (x.runtime)) (not due)
        (λ e. grow-Accounts (omega arith) (omega arith) m)
        (λ e.
          deliver-Books sink (limit + 1)
            (new_payload r i a location now_ms (to_u64 r.config.default_period)) _ (frame_pack a)
            (record t { runtime = take_sequence r }) (take_sequence-Books limit r h m))
