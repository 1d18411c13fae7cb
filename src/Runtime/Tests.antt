-- ===== src/Runtime/Tests.antt =====
-- Tests of the runtime.
use esp32_rid.Prelude.{
  ℕ, ◌+◌, ◌%◌, ◌^◌, ◌≡◌, refl, true, false, not, some, List, [], ◌∷◌, arith, ◌==◌, All, length,
  replicate,
}
use esp32_rid.Model.{MessageKind, basic_id, location, kind_value, FlightState, ble5, open_drone_id}
use esp32_rid.Model.{valid_latitude, valid_longitude}
use esp32_rid.Model.Floats.{is_finite32, is_finite64, is_nan64, le64, le32, signed_le, is_nan32}
use esp32_rid.Trajectory.{default_trajectory, valid_trajectory, finite_nonnegative}
use esp32_rid.Config.{
  validate, valid_site, valid_period, validate_groups, check_group, contains, bytes_eq, supported,
  periods_ok,
}
use esp32_rid.Identity.{Digest, derive_test_id, hex_bytes}
use esp32_rid.Config.{
  AircraftConfig, new_group, expand_groups, expand_group, validate_and_expand, effective_period,
}
use esp32_rid.Config.Tests.{system}
use esp32_rid.Payload.{ScheduledPayload}
use esp32_rid.Runtime.{Runtime, Engine, Encoders, Sink, create, no_stats}
use esp32_rid.Runtime.Schedule.{apply}
use esp32_rid.Runtime.Ticks.{tick}
use esp32_rid.Runtime.Due.{Moved, tick-Moved}
use esp32_rid.Runtime.Frames.{Single, Sendable}
use esp32_rid.Runtime.Applied.{apply-keeps}
use esp32_rid.Runtime.Accounting.{ticks, ticks-apply}

-- An engine that stands still, encoders that give two messages, and a sink that counts.
abbrev still : FlightState
still = record {
  latitude_deg = 0;
  longitude_deg = 0;
  altitude_msl_m = 0;
  height_agl_m = 0;
  horizontal_speed_mps = 0;
  vertical_speed_mps = 0;
  heading_deg = 0;
  airborne = false;
  relative_time_ms = 0;
}

abbrev pub parked : Engine ℕ
parked = record { create = λ site. 0; sample = λ config instance_index elapsed e. (still, e + 1) }

abbrev pub two_messages : List ℕ
two_messages = 0xf2 ∷ 25 ∷ 2 ∷ replicate 50 0

abbrev pub fixed : Encoders
fixed = record {
  odid_pack = λ state identity position. some two_messages;
  odid = λ kind state identity position. some (replicate 25 0);
  gb = λ kind state identity position. some (1 ∷ []);
}

abbrev pub counting : Sink ℕ
counting payload n = (not (n == 1), n + 1)

-- One aircraft, as the expansion gives it.
abbrev drone : AircraftConfig
drone = record {
  identity = b'T' ∷ b'E' ∷ [];
  group_index = 0;
  instance_index = 0;
  protocol = open_drone_id;
  transport = ble5;
  wifi_mode = esp32_rid.Model.beacon;
}

abbrev flying : Runtime ℕ
flying = record {
  config = system;
  aircraft = drone ∷ [];
  trajectory = 0;
  next_due = λ i k. 500;
  stats = no_stats;
  started_ms = 400;
  sequence = 0;
  counter = 0;
  running = true;
}

tick-Moved_example :
    Moved 1000 2600 500 ((tick parked fixed counting flying 2600 0).runtime.next_due 0 1)
unfolding effective_period new_group
tick-Moved_example =
    tick-Moved parked fixed counting flying 0 2600 0 location drone refl (omega arith) (omega arith)
      (omega arith) (omega arith)

abbrev pub digest : Digest
digest xs = some (replicate 32 (length xs % 256))

ticks-apply_example :
    let started = (apply parked digest (1 ∷ []) (create 0) system 1000).1 in
    let r' = (ticks parked fixed counting (1000 ∷ 1500 ∷ 2600 ∷ []) started 0).0 in
    let c = r'.stats in
    (c.expected ≡ c.submitted + c.submit_errors)
    × (r'.sequence ≡ (c.expected + c.encode_errors) % 2 ^ 32)
unfolding apply validate_and_expand expand_groups expand_group derive_test_id hex_bytes validate
    valid_site valid_period validate_groups check_group contains bytes_eq supported periods_ok
    new_group default_trajectory valid_trajectory valid_latitude valid_longitude is_finite64 le64
    signed_le is_nan64 finite_nonnegative is_finite32 le32 is_nan32
ticks-apply_example =
    ticks-apply parked fixed counting digest (1 ∷ []) (create 0) system 1000
      (1000 ∷ 1500 ∷ 2600 ∷ []) 0 refl (omega arith)

pub fixed-Single : Single fixed
fixed-Single kind state identity position = refl

-- A sink that keeps what it is given.
abbrev keeping : Sink (List ScheduledPayload)
keeping payload kept = (true, payload ∷ kept)

apply-keeps_example :
    let started = (apply parked digest (1 ∷ []) (create 0) system 1000).1 in
    All Sendable (ticks parked fixed keeping (1000 ∷ 1500 ∷ 2600 ∷ []) started []).1
unfolding apply validate_and_expand expand_groups expand_group derive_test_id hex_bytes validate
    valid_site valid_period validate_groups check_group contains bytes_eq supported periods_ok
    new_group default_trajectory valid_trajectory valid_latitude valid_longitude is_finite64 le64
    signed_le is_nan64 finite_nonnegative is_finite32 le32 is_nan32
apply-keeps_example =
    apply-keeps parked fixed fixed-Single keeping (All Sendable)
      (λ p s sendable kept. (sendable, kept)) digest (1 ∷ []) (create 0) system 1000
      (1000 ∷ 1500 ∷ 2600 ∷ []) [] refl tt
