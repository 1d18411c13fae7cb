-- ===== src/Odid/Tests.antt =====
-- Tests of the OpenDroneID encoder.
use mathlib.Core.Option.{some-injective}
use esp32_rid.Prelude.{
  ℕ, ◌≡◌, refl, sym, ap, false, some, List, ◌∷◌, ◌++◌, arith, length, replicate,
}
use esp32_rid.Model.{location, FlightState}
use esp32_rid.Odid.{
  Core, OdidData, basic_id_data, location_data, auth_data, self_id_data, system_data,
  operator_id_data, default_options, encoded, encode, encode_kind, encode_location, encode_pack,
  validate_inputs,
}
use esp32_rid.Odid.Packs.{Documented, Pack, six_kinds, flatten, encode_pack-Pack}
use esp32_rid.Model.{valid_state, valid_latitude, valid_longitude}
use esp32_rid.Model.Floats.{
  is_finite32, is_finite64, is_nan64, le64, le32, lt32, signed_le, is_nan32,
}

-- A library that encodes a message as its number and zeros.
abbrev pub number_of : OdidData → ℕ
number_of (basic_id_data _ _) = 0
number_of (location_data _) = 1
number_of (auth_data _ _ _ _) = 2
number_of (self_id_data _) = 3
number_of (system_data _) = 4
number_of (operator_id_data _) = 5

abbrev pub numbers : Core
numbers = record {
  encode_data = λ d. some (number_of d ∷ replicate 24 0);
  encode_message_pack = λ ms. some (0xf2 ∷ 25 ∷ length ms ∷ (flatten ms ++ replicate 75 0));
  horizontal_accuracy = λ f. 0;
  vertical_accuracy = λ f. 0;
  speed_accuracy = λ f. 0;
  timestamp_accuracy = λ f. 0;
  thousandths = λ n. 0;
}

pub numbers-Documented : Documented numbers
numbers-Documented = record {
  messages = λ d bytes e. ap length (sym (some-injective (number_of d ∷ replicate 24 0) bytes e));
  packs = λ ms bytes e h. (
    0xf2,
    replicate 75 0,
    omega arith,
    sym (some-injective (0xf2 ∷ 25 ∷ length ms ∷ (flatten ms ++ replicate 75 0)) bytes e),
  );
}

abbrev hovering : FlightState
hovering = record {
  latitude_deg = 0;
  longitude_deg = 0;
  altitude_msl_m = 0;
  height_agl_m = 0;
  horizontal_speed_mps = 0;
  vertical_speed_mps = 0;
  heading_deg = 0;
  airborne = false;
  relative_time_ms = 0;
}

abbrev identity : List ℕ
identity = replicate 20 b'T'

one_message :
    encode numbers location hovering identity default_options ≡ encoded (1 ∷ replicate 24 0)
unfolding encode encode_kind encode_location validate_inputs valid_state valid_latitude
    valid_longitude is_finite32 is_finite64 is_nan64 le64 le32 lt32 signed_le is_nan32
one_message = refl

encode_pack-Pack_example :
    Pack numbers numbers-Documented hovering identity default_options six_kinds
      (encode_pack numbers hovering identity default_options)
encode_pack-Pack_example =
    encode_pack-Pack numbers numbers-Documented hovering identity default_options
