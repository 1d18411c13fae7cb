-- ===== src/Runtime/Handed.antt =====
-- The payloads that a tick hands to the sink: each is one that its transport can send.
use esp32_rid.Prelude.{
  ℕ, ◌+◌, ◌≤◌, ◌<◌, ◌≡◌, ◌⊎◌, inl, inr, true, false, not, ◌||◌, Option, none, some, List, [], ◌∷◌,
  arith, ltb, if_cases, All,
}
use esp32_rid.Prelude.Int.{to_u64}
use esp32_rid.Model.{MessageKind, location, FlightState, is_wifi, is_ble, kind_value}
use esp32_rid.Config.{AircraftConfig, is_odid}
use esp32_rid.Payload.{ScheduledPayload, max_payload_size}
use esp32_rid.Runtime.{
  Runtime, Engine, Encoders, Sink, kinds, is_packed, group_of, elapsed32, period_of,
}
use esp32_rid.Runtime.Schedule.{advance_due, mark_due}
use esp32_rid.Runtime.Ticks.{
  Ticking, submit_loaded, use_counter, new_payload, take_sequence, submit, encode_error, load_frame,
  deliver, tick_pack, tick_kind, tick_kinds, tick_aircraft, tick_all, tick, frame_pack,
  frame_message,
}
use esp32_rid.Runtime.Frames.{
  Sendable, AllOption, Between, Single, Carried, room, map-AllOption, load_frame-sized,
  fits_transport, frame_pack-fits, frame_message-fits,
}

module _ {E S : Type 0} (sink : Sink S) (P : S → Type 0)
    (keeps : (p : ScheduledPayload) (s : S) → Sendable p → P s → P (sink p s).1) where
  deliver-keeps :
      (p : ScheduledPayload) (bytes : Option (List ℕ)) (frame : ℕ → List ℕ → Option (List ℕ))
      (t : Ticking E S)
      → (is_wifi p.transport ≡ true) ⊎ (is_ble p.transport ≡ true)
      → ((counter : ℕ)
          → AllOption (λ b. AllOption (Between (room p.transport)) (frame counter b)) bytes)
      → P t.sink
      → P (deliver sink p bytes frame t).sink
  unfolding deliver encode_error submit_loaded submit
  deliver-keeps p none frame t h f s = s
  deliver-keeps p (some bytes) frame t h f s =
      go (load_frame p (frame t.runtime.counter bytes)) (
        load_frame-sized p (frame t.runtime.counter bytes) (room p.transport) (f t.runtime.counter))
    where
      go :
          (o : Option ScheduledPayload)
          → AllOption
              (λ q.
                (q.transport ≡ p.transport)
                × (0 < q.size)
                × (q.size ≤ room p.transport)
                × (q.size ≤ max_payload_size))
              o
          → P (submit_loaded sink o (use_counter t)).sink
      go none k = s
      go (some q) k =
          if_cases (λ (x : Ticking E S). P x.sink) (not (sink q t.sink).0)
            (λ e. keeps q t.sink (fits_transport p.transport q h k) s)
            (λ e. keeps q t.sink (fits_transport p.transport q h k) s)

reach :
    (a : AircraftConfig) → Carried a → (is_wifi a.transport ≡ true) ⊎ (is_ble a.transport ≡ true)
reach a (inl k) = k.1
reach a (inr k) = inl k.1

module _ {E S : Type 0} (encoders : Encoders) (single : Single encoders) (sink : Sink S)
    (P : S → Type 0)
    (keeps : (p : ScheduledPayload) (s : S) → Sendable p → P s → P (sink p s).1) where
  tick_pack-keeps :
      (i : ℕ) (a : AircraftConfig) (state : FlightState) (now_ms : ℕ) (t : Ticking E S)
      → Carried a
      → is_packed a ≡ true
      → P t.sink
      → P (tick_pack encoders sink i a state now_ms t).sink
  unfolding tick_pack new_payload
  tick_pack-keeps i a state now_ms t c h s =
      let (due, r) = mark_due kinds i a now_ms (t.runtime) in
      if_cases (λ (x : Ticking E S). P x.sink) (not due) (λ e. s)
        (λ e.
          deliver-keeps sink P keeps
            (new_payload r i a location now_ms (to_u64 r.config.default_period)) _ (frame_pack a)
            (record t { runtime = take_sequence r }) (reach a c)
            (λ counter. every counter (encoders.odid_pack state a.identity r.config.site)) s)
    where
      every :
          (counter : ℕ) (o : Option (List ℕ))
          → AllOption (λ b. AllOption (Between (room a.transport)) (frame_pack a counter b)) o
      every counter none = tt
      every counter (some b) = frame_pack-fits a counter b (ground (arith, h))

  tick_kind-keeps :
      (i : ℕ) (a : AircraftConfig) (state : FlightState) (now_ms : ℕ) (kind : MessageKind)
      (t : Ticking E S)
      → Carried a
      → P t.sink
      → P (tick_kind encoders sink i a state now_ms kind t).sink
  unfolding tick_kind new_payload
  tick_kind-keeps i a state now_ms kind t c s =
      let r = advance_due (t.runtime) i a kind now_ms in
      if_cases (λ (x : Ticking E S). P x.sink) (ltb now_ms (t.runtime.next_due i (kind_value kind)))
        (λ e. s)
        (λ e.
          deliver-keeps sink P keeps (new_payload r i a kind now_ms (period_of r.config a kind)) _
            (frame_message a) (record t { runtime = take_sequence r }) (reach a c)
            (λ counter.
              if_cases
                (AllOption
                  (λ b. AllOption (Between (room a.transport)) (frame_message a counter b)))
                (is_odid a.protocol)
                (λ k.
                  map-AllOption (λ b n. frame_message-fits a counter b c (λ m. n)) _
                    (single kind state a.identity r.config.site))
                (λ k. every counter k (encoders.gb kind state a.identity r.config.site)))
            s)
    where
      every :
          (counter : ℕ)
          → is_odid a.protocol ≡ false
          → (o : Option (List ℕ))
          → AllOption (λ b. AllOption (Between (room a.transport)) (frame_message a counter b)) o
      every counter k none = tt
      every counter k (some b) =
          frame_message-fits a counter b c (λ m. absurd (ground (arith, k, m)))

  tick_kinds-keeps :
      (ks : List MessageKind) (i : ℕ) (a : AircraftConfig) (state : FlightState) (now_ms : ℕ)
      (t : Ticking E S)
      → Carried a
      → P t.sink
      → P (tick_kinds encoders sink ks i a state now_ms t).sink
  unfolding tick_kinds
  tick_kinds-keeps [] i a state now_ms t c s = s
  tick_kinds-keeps (kind ∷ ks) i a state now_ms t c s =
      tick_kinds-keeps ks i a state now_ms (tick_kind encoders sink i a state now_ms kind t) c
        (tick_kind-keeps i a state now_ms kind t c s)

module _ {E S : Type 0} (engine : Engine E) (encoders : Encoders) (single : Single encoders)
    (sink : Sink S) (P : S → Type 0)
    (keeps : (p : ScheduledPayload) (s : S) → Sendable p → P s → P (sink p s).1) where
  tick_aircraft-keeps :
      (i : ℕ) (a : AircraftConfig) (now_ms : ℕ) (t : Ticking E S)
      → Carried a
      → P t.sink
      → P (tick_aircraft engine encoders sink i a now_ms t).sink
  unfolding tick_aircraft
  tick_aircraft-keeps i a now_ms t c s =
      let r = t.runtime in
      let (state, e) =
        engine.sample (group_of r.config a).trajectory a.instance_index
          (elapsed32 now_ms r.started_ms) r.trajectory in
      let sampled : Ticking E S = record t { runtime = record r { trajectory = e } } in
      if_cases (λ (x : Ticking E S). P x.sink) (is_packed a)
        (λ h. tick_pack-keeps encoders single sink P keeps i a state now_ms sampled c h s)
        (λ h. tick_kinds-keeps encoders single sink P keeps kinds i a state now_ms sampled c s)

  tick_all-keeps :
      (rest : List AircraftConfig) (i now_ms : ℕ) (t : Ticking E S)
      → All Carried rest
      → P t.sink
      → P (tick_all engine encoders sink rest i now_ms t).sink
  unfolding tick_all
  tick_all-keeps [] i now_ms t c s = s
  tick_all-keeps (a ∷ rest) i now_ms t c s =
      tick_all-keeps rest (i + 1) now_ms (tick_aircraft engine encoders sink i a now_ms t) c.1
        (tick_aircraft-keeps i a now_ms t c.0 s)

  -- A tick hands to the sink only payloads that their transport can send: a property of the sink's
  -- state that every such payload keeps is kept by a tick of aircraft in valid combinations. For an
  -- OpenDroneID payload over BLE that includes the size limit of its mode. The encoder gives 25 bytes
  -- for a single message.
  pub tick-keeps :
      (r : Runtime E) (now_ms : ℕ) (s : S)
      → All Carried r.aircraft
      → P s
      → P (tick engine encoders sink r now_ms s).sink
  unfolding tick
  tick-keeps r now_ms s c h =
      if_cases (λ (x : Ticking E S). P x.sink) (not r.running || ltb now_ms r.started_ms) (λ k. h)
        (λ k. tick_all-keeps r.aircraft 0 now_ms _ c h)
