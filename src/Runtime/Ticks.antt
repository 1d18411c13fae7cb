-- ===== src/Runtime/Ticks.antt =====
-- `tick` of components/rid_runtime/runtime.cpp: the messages that are due, encoded, framed and
-- submitted.
use esp32_rid.Prelude.{
  ℕ, ◌+◌, ◌%◌, ◌^◌, not, ◌||◌, Option, none, some, List, [], ◌∷◌, ltb, if◌then◌else◌,
}
use esp32_rid.Prelude.Int.{to_u64}
use esp32_rid.Model.{is_wifi, MessageKind, location, kind_value, FlightState}
use esp32_rid.Config.{AircraftConfig, is_odid}
use esp32_rid.Payload.{ScheduledPayload, blank, view, try_copy_from, saturating_increment}
use esp32_rid.Wifi.{build_gb_beacon, build_opendroneid_beacon}
use esp32_rid.Ble.ServiceData.{build_service_data}
use esp32_rid.Runtime.{
  Engine, Encoders, Sink, RuntimeError, no_failure, invalid_config, encode_failed, submit_failed,
  Runtime, kinds, address_for, elapsed32, is_copied, framed, advertised, group_of, period_of,
  is_packed,
}
use esp32_rid.Runtime.Schedule.{advance_due, mark_due}

-- What a tick works on: the runtime, the sink and the result so far.
pub record Ticking (E S : Type 0) : Type 0 where
  pub runtime : Runtime E
  pub sink : S
  pub result : RuntimeError

module _ {E : Type 0} where
  -- The payload of a message, whose sequence number is used up.
  unfoldable pub new_payload :
      Runtime E → ℕ → AircraftConfig → MessageKind → ℕ → ℕ → ScheduledPayload
  new_payload r i a kind now_ms period = record blank {
    sequence = r.sequence;
    aircraft_index = i % 2 ^ 16;
    transport = a.transport;
    kind = kind;
    deadline_ms = now_ms;
    expires_at_ms = (now_ms + period) % 2 ^ 64;
  }

  abbrev pub take_sequence : Runtime E → Runtime E
  take_sequence r = record r { sequence = (r.sequence + 1) % 2 ^ 32 }

-- The framing of a pack, of a single OpenDroneID message and of a message of GB 46750.
abbrev pub frame_pack : AircraftConfig → ℕ → List ℕ → Option (List ℕ)
frame_pack a counter bytes =
    if is_wifi a.transport
    then framed (
        build_opendroneid_beacon (some (address_for a.identity a.instance_index)) (view a.identity)
          counter (view bytes))
    else advertised (build_service_data (view bytes) counter)

abbrev pub frame_message : AircraftConfig → ℕ → List ℕ → Option (List ℕ)
frame_message a counter bytes =
    if is_odid a.protocol
    then advertised (build_service_data (view bytes) counter)
    else framed (
        build_gb_beacon (some (address_for a.identity a.instance_index)) (view a.identity) counter
          (view bytes))

-- `try_copy_from` of a frame that was built.
unfoldable pub load_frame : ScheduledPayload → Option (List ℕ) → Option ScheduledPayload
load_frame payload none = none
load_frame payload (some bytes) =
    let (error, loaded) = try_copy_from payload (view bytes) in
    if is_copied error then some loaded else none

unfoldable pub encode_error : {E S : Type 0} → Ticking E S → Ticking E S
encode_error t =
    let stats = t.runtime.stats in
    record t {
      runtime = record (t.runtime) {
        stats = record stats { encode_errors = saturating_increment stats.encode_errors };
      };
      result = encode_failed;
    }

-- `counter_++`
abbrev pub use_counter : {E S : Type 0} → Ticking E S → Ticking E S
use_counter t = record t {
  runtime = record (t.runtime) { counter = (t.runtime.counter + 1) % 256 };
}

module _ {E S : Type 0} (sink : Sink S) where
  unfoldable pub submit : ScheduledPayload → Ticking E S → Ticking E S
  submit payload t =
      let (taken, s) = sink payload t.sink in
      let stats = t.runtime.stats in
      let counted = record stats { expected = saturating_increment stats.expected } in
      if not taken
      then record t {
        runtime = record (t.runtime) {
          stats = record counted { submit_errors = saturating_increment stats.submit_errors };
        };
        sink = s;
        result = submit_failed;
      }
      else record t {
        runtime = record (t.runtime) {
          stats = record counted { submitted = saturating_increment stats.submitted };
        };
        sink = s;
      }

  -- A payload that was loaded is submitted, anything else is an error.
  unfoldable pub submit_loaded : Option ScheduledPayload → Ticking E S → Ticking E S
  submit_loaded none t = encode_error t
  submit_loaded (some loaded) t = submit loaded t

  -- An encoding is framed with the counter, which it uses up, loaded and submitted.
  unfoldable pub deliver :
      ScheduledPayload
      → Option (List ℕ)
      → (ℕ → List ℕ → Option (List ℕ))
      → Ticking E S
      → Ticking E S
  deliver payload none frame t = encode_error t
  deliver payload (some bytes) frame t =
      submit_loaded (load_frame payload (frame t.runtime.counter bytes)) (use_counter t)

module _ {E S : Type 0} (encoders : Encoders) (sink : Sink S) where
  unfoldable pub tick_pack : ℕ → AircraftConfig → FlightState → ℕ → Ticking E S → Ticking E S
  unfolding mark_due deliver
  tick_pack i a state now_ms t =
      let (due, r) = mark_due kinds i a now_ms (t.runtime) in
      if not due
      then record t { runtime = r }
      else deliver sink (new_payload r i a location now_ms (to_u64 r.config.default_period))
          (encoders.odid_pack state a.identity r.config.site) (frame_pack a)
          (record t { runtime = take_sequence r })

  -- One round of the loop over the kinds.
  unfoldable pub tick_kind :
      ℕ → AircraftConfig → FlightState → ℕ → MessageKind → Ticking E S → Ticking E S
  unfolding deliver
  tick_kind i a state now_ms kind t =
      let r = advance_due (t.runtime) i a kind now_ms in
      if ltb now_ms (t.runtime.next_due i (kind_value kind))
      then t
      else deliver sink (new_payload r i a kind now_ms (period_of r.config a kind))
          (if is_odid a.protocol
            then encoders.odid kind state a.identity r.config.site
            else encoders.gb kind state a.identity r.config.site)
          (frame_message a) (record t { runtime = take_sequence r })

  unfoldable pub tick_kinds :
      List MessageKind → ℕ → AircraftConfig → FlightState → ℕ → Ticking E S → Ticking E S
  tick_kinds [] i a state now_ms t = t
  tick_kinds (kind ∷ ks) i a state now_ms t =
      tick_kinds ks i a state now_ms (tick_kind i a state now_ms kind t)

module _ {E S : Type 0} (engine : Engine E) (encoders : Encoders) (sink : Sink S) where
  -- One aircraft: its state is sampled at every tick.
  unfoldable pub tick_aircraft : ℕ → AircraftConfig → ℕ → Ticking E S → Ticking E S
  unfolding tick_pack tick_kinds
  tick_aircraft i a now_ms t =
      let r = t.runtime in
      let (state, e) =
        engine.sample (group_of r.config a).trajectory a.instance_index
          (elapsed32 now_ms r.started_ms) r.trajectory in
      let sampled = record t { runtime = record r { trajectory = e } } in
      if is_packed a
      then tick_pack encoders sink i a state now_ms sampled
      else tick_kinds encoders sink kinds i a state now_ms sampled

  unfoldable pub tick_all : List AircraftConfig → ℕ → ℕ → Ticking E S → Ticking E S
  tick_all [] i now_ms t = t
  tick_all (a ∷ others) i now_ms t = tick_all others (i + 1) now_ms (tick_aircraft i a now_ms t)

  unfoldable pub tick : Runtime E → ℕ → S → Ticking E S
  unfolding tick_all
  tick r now_ms s =
      if not r.running || ltb now_ms r.started_ms
      then record { runtime = r; sink = s; result = invalid_config }
      else tick_all r.aircraft 0 now_ms (record { runtime = r; sink = s; result = no_failure })
