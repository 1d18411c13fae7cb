-- ===== src/Runtime.antt =====
-- components/rid_runtime/runtime.cpp: which message of which aircraft is due at a tick, its encoding
-- and framing, and its hand-over to the sink. The trajectory engine, the encoders and the sink are
-- parameters; the states of the engine and of the sink are passed along and returned.
pub mod Schedule
pub mod Ticks
pub mod Rounds
pub mod Touches
pub mod Rows
pub mod Due
pub mod Books
pub mod Accounting
pub mod Frames
pub mod Handed
pub mod Applied
pub mod Tests
use esp32_rid.Prelude.{
  le→leb, All-map, ℕ, zero, suc, ◌+◌, ◌-◌, ◌*◌, ◌/◌, ◌%◌, ◌^◌, ◌≤◌, ◌<◌, ◌≡◌, refl, sym, ap, ◌∙◌,
  ◌≢◌, ◌↔◌, ◌⊎◌, inl, inr, Bool, true, false, not, ◌&&◌, ◌||◌, Option, none, some, List, [], ◌∷◌,
  ◌++◌, map, append-nil, append_assoc, arith, ltb, leb, ◌==◌, if◌then◌else◌, ltb→lt, lt→ltb, leb→le,
  ==_iff, Bool-cases, Option-cases, if_cases, All, length, get_or, set, take, drop, replicate,
  erase_at, length-append, length-set, length-take, length-drop, length-replicate, length-erase_at,
  length-erase_at-le, take-append, drop-append, take-append-drop, All-append, All-erase_at,
  All-get_or,
}
use esp32_rid.Prelude.Arrays.{update}
use esp32_rid.Prelude.Int.{to_u64}
use esp32_rid.Model.{
  Protocol, open_drone_id, gb46750, Transport, ble4, ble5, is_wifi, WifiMode, MessageKind, basic_id,
  location, authentication, self_id, system, operator_id, kind_value, GeoPoint, FlightState,
}
use esp32_rid.Trajectory.{TrajectoryConfig}
use esp32_rid.Identity.{Digest}
use esp32_rid.Config.{
  SystemConfig, default_config, GroupConfig, new_group, AircraftConfig, is_odid, effective_period,
  ExpandResult, failed, expanded, validate_and_expand, message_kind_count,
}
use esp32_rid.Payload.{
  ScheduledPayload, blank, ByteView, view, ScheduleError, ok, try_copy_from, saturating_increment,
}
use esp32_rid.Wifi.{FrameError, frame_ok, build_gb_beacon, build_opendroneid_beacon}
use esp32_rid.Ble.ServiceData.{AdError, no_error, build_service_data}

-- `TrajectoryEngine`, over its state.
pub record Engine (E : Type 0) : Type 0 where
  pub create : GeoPoint → E
  pub sample : TrajectoryConfig → ℕ → ℕ → E → FlightState × E

-- `OdidEncoder` and `GbEncoder` with the options that the runtime sets: the position of the operator
-- and that of the ground control station. The result is `none` on an error.
pub record Encoders : Type 0 where
  pub odid_pack : FlightState → List ℕ → Option GeoPoint → Option (List ℕ)
  pub odid : MessageKind → FlightState → List ℕ → Option GeoPoint → Option (List ℕ)
  pub gb : MessageKind → FlightState → List ℕ → Option GeoPoint → Option (List ℕ)

-- `RuntimeSink`, over the state of whatever implements it.
abbrev pub Sink : Type 0 → Type 0
Sink S = ScheduledPayload → S → Bool × S

pub data RuntimeError : Type 0 where
  no_failure invalid_config encode_failed submit_failed : RuntimeError

pub record RuntimeStats : Type 0 where
  pub expected : ℕ
  pub submitted : ℕ
  pub encode_errors : ℕ
  pub submit_errors : ℕ

abbrev pub no_stats : RuntimeStats
no_stats = record { expected = 0; submitted = 0; encode_errors = 0; submit_errors = 0 }

-- The aircraft index and the kind select a due time.
pub record Runtime (E : Type 0) : Type 0 where
  pub config : SystemConfig
  pub aircraft : List AircraftConfig
  pub trajectory : E
  pub next_due : ℕ → ℕ → ℕ
  pub stats : RuntimeStats
  pub started_ms : ℕ
  pub sequence : ℕ
  pub counter : ℕ
  pub running : Bool

-- `kKinds`.
abbrev pub kinds : List MessageKind
kinds = basic_id ∷ location ∷ authentication ∷ self_id ∷ system ∷ operator_id ∷ []

-- `^` of two bytes, on the bits that are left.
unfoldable pub xor_bits : ℕ → ℕ → ℕ → ℕ
xor_bits zero a b = 0
xor_bits (suc bits) a b = (a + b) % 2 + 2 * xor_bits bits (a / 2) (b / 2)

-- The loop of `address_for`.
unfoldable pub mix_address : List ℕ → ℕ → List ℕ → List ℕ
mix_address address i [] = address
mix_address address i (c ∷ cs) =
    let at = 1 + i % 5 in
    mix_address (set address at (xor_bits 8 (get_or address at 0) c)) (i + 1) cs

-- `(x | 0x02U) & 0xfeU`, for a byte.
abbrev local_unicast : ℕ → ℕ
local_unicast x = x / 4 * 4 + 2

unfoldable pub address_for : List ℕ → ℕ → List ℕ
address_for identity index =
    let address = mix_address (2 ∷ 0 ∷ 0 ∷ 0 ∷ 0 ∷ (index % 256) ∷ []) 0 identity in
    set address 0 (local_unicast (get_or address 0 0))

-- `elapsed32`.
abbrev pub elapsed32 : ℕ → ℕ → ℕ
elapsed32 now_ms started_ms = (now_ms - started_ms) % 2 ^ 32

abbrev pub is_ble4 : Transport → Bool
is_ble4 ble4 = true
is_ble4 _ = false

abbrev pub is_ble5 : Transport → Bool
is_ble5 ble5 = true
is_ble5 _ = false

abbrev pub is_copied : ScheduleError → Bool
is_copied ok = true
is_copied _ = false

-- The bytes of a frame, if there was no error.
abbrev pub framed : FrameError × List ℕ → Option (List ℕ)
framed (frame_ok, bytes) = some bytes
framed (_, bytes) = none

abbrev pub advertised : AdError × List ℕ → Option (List ℕ)
advertised (no_error, bytes) = some bytes
advertised (_, bytes) = none

-- `config_.groups[aircraft.group_index]`, which the expansion keeps in range.
abbrev pub group_of : SystemConfig → AircraftConfig → GroupConfig
group_of config a = get_or config.groups a.group_index (new_group [] 0 gb46750 ble4)

abbrev pub period_of : SystemConfig → AircraftConfig → MessageKind → ℕ
period_of config a kind = to_u64 (effective_period config (group_of config a) kind)

-- The condition under which a pack carries all messages, as `tick` writes it.
abbrev pub is_packed : AircraftConfig → Bool
is_packed a = is_odid a.protocol && (is_wifi a.transport || is_ble5 a.transport)

-- The constructor; `engine` stands for the engine that is not there yet.
unfoldable pub create : {E : Type 0} → E → Runtime E
create engine = record {
  config = default_config;
  aircraft = [];
  trajectory = engine;
  next_due = λ i k. 0;
  stats = no_stats;
  started_ms = 0;
  sequence = 0;
  counter = 0;
  running = false;
}

-- The condition as `apply` writes it.
abbrev pub is_packed_at_start : AircraftConfig → Bool
is_packed_at_start a = is_odid a.protocol && not (is_ble4 a.transport)
