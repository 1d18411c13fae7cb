-- ===== src/Gb.antt =====
-- components/rid_gb/gb_encoder.cpp and components/rid_gb/private_include/gb_wire.hpp. Comparisons of
-- floating-point numbers are on bit patterns; their arithmetic and rounding are parameters.
pub mod Layout
pub mod Messages
pub mod Tests
use esp32_rid.Prelude.{
  le→leb, All-map, ℕ, zero, suc, ◌+◌, ◌-◌, ◌*◌, ◌/◌, ◌%◌, ◌^◌, ◌≤◌, ◌<◌, ◌≡◌, refl, sym, ap, ◌∙◌,
  ◌≢◌, ◌↔◌, ◌⊎◌, inl, inr, Bool, true, false, not, ◌&&◌, ◌||◌, Option, none, some, List, [], ◌∷◌,
  ◌++◌, map, append-nil, append_assoc, arith, ltb, leb, ◌==◌, if◌then◌else◌, ltb→lt, lt→ltb, leb→le,
  ==_iff, Bool-cases, Option-cases, if_cases, All, length, get_or, set, take, drop, replicate,
  erase_at, length-append, length-set, length-take, length-drop, length-replicate, length-erase_at,
  length-erase_at-le, take-append, drop-append, take-append-drop, All-append, All-erase_at,
  All-get_or,
}
use esp32_rid.Prelude.Int.{ℤ, to_u32}
use esp32_rid.Model.{
  MessageKind, basic_id, location, authentication, self_id, system, operator_id, GeoPoint,
  FlightState, valid_latitude, valid_longitude, valid_state,
}
use esp32_rid.Model.Floats.{Float, Double, is_finite32, lt32, le32}

-- The operations of the processor and of <cmath> on the patterns: products, a sum, the absolute value,
-- and rounding to an integer.
pub record Floats : Type 0 where
  pub times64 : Double → Double → Double
  pub times32 : Float → Float → Float
  pub plus32 : Float → Float → Float
  pub abs32 : Float → Float
  pub llround : Double → ℤ
  pub lround : Float → ℤ

abbrev pub product_id_size : ℕ
product_id_size = 20

abbrev pub registration_mark_size : ℕ
registration_mark_size = 8

abbrev pub max_timestamp : ℕ
max_timestamp = 0xffffffffffff

pub record GbOptions : Type 0 where
  pub registration_mark : List ℕ
  pub operation_category : ℕ
  pub ua_classification : ℕ
  pub gcs_position_type : ℕ
  pub gcs_position : Option GeoPoint
  pub gcs_altitude_m : Option Float
  pub barometric_altitude_m : Option Float
  pub horizontal_accuracy : ℕ
  pub vertical_accuracy : ℕ
  pub speed_accuracy : ℕ
  pub timestamp_ms : ℕ
  pub timestamp_accuracy : ℕ

-- `GbOptions{}`, with "TEST0000".
abbrev pub default_options : GbOptions
default_options = record {
  registration_mark = 84 ∷ 69 ∷ 83 ∷ 84 ∷ 48 ∷ 48 ∷ 48 ∷ 48 ∷ [];
  operation_category = 0;
  ua_classification = 0;
  gcs_position_type = 0;
  gcs_position = none;
  gcs_altitude_m = none;
  barometric_altitude_m = none;
  horizontal_accuracy = 0;
  vertical_accuracy = 0;
  speed_accuracy = 0;
  timestamp_ms = 0;
  timestamp_accuracy = 0;
}

pub data GbEncodeError : Type 0 where
  no_error invalid_identity invalid_flight_state invalid_options unsupported_message : GbEncodeError

pub data GbEncodeResult : Type 0 where
  refused : GbEncodeError → GbEncodeResult
  encoded : List ℕ → GbEncodeResult

-- Little-endian bytes: `put_u16_le`, `put_i32_le` and `put_u48_le`.
unfoldable pub put_u16_le : ℕ → List ℕ
put_u16_le value = (value % 256) ∷ (value / 2 ^ 8 % 256) ∷ []

unfoldable pub put_i32_le : ℤ → List ℕ
put_i32_le value =
    let bits = to_u32 value in
    (bits % 256) ∷ (bits / 2 ^ 8 % 256) ∷ (bits / 2 ^ 16 % 256) ∷ (bits / 2 ^ 24 % 256) ∷ []

unfoldable pub put_u48_le : ℕ → List ℕ
put_u48_le value =
    (value % 256)
    ∷ (value / 2 ^ 8 % 256)
    ∷ (value / 2 ^ 16 % 256)
    ∷ (value / 2 ^ 24 % 256)
    ∷ (value / 2 ^ 32 % 256)
    ∷ (value / 2 ^ 40 % 256)
    ∷ []

abbrev pub valid_point : GeoPoint → Bool
valid_point p = valid_latitude p.latitude_deg && valid_longitude p.longitude_deg

-- Above -1000 and up to 31767.5.
unfoldable pub valid_altitude : Float → Bool
valid_altitude f = is_finite32 f && lt32 0xc47a0000 f && le32 f 0x46f82f00

abbrev pub point_ok : Option GeoPoint → Bool
point_ok none = true
point_ok (some p) = valid_point p

abbrev pub altitude_ok : Option Float → Bool
altitude_ok none = true
altitude_ok (some f) = valid_altitude f

abbrev pub options_rejected : GbOptions → Bool
options_rejected options =
    ltb registration_mark_size (length options.registration_mark)
    || not (point_ok options.gcs_position)
    || not (altitude_ok options.gcs_altitude_m)
    || not (altitude_ok options.barometric_altitude_m)
    || ltb max_timestamp options.timestamp_ms

unfoldable pub validate_inputs : FlightState → List ℕ → GbOptions → GbEncodeError
validate_inputs state identity options =
    if not (length identity == product_id_size)
    then invalid_identity
    else if not (valid_state state)
    then invalid_flight_state
    else if options_rejected options
    then invalid_options
    else no_error

-- `payload`.
unfoldable pub gb_payload : List ℕ → List ℕ → List ℕ
gb_payload identifiers content = 0xff ∷ 0x20 ∷ (length content % 256) ∷ (identifiers ++ content)

-- `put_fixed_text`.
unfoldable pub put_fixed_text : List ℕ → ℕ → List ℕ
put_fixed_text text size = text ++ replicate (size - length text) 0

abbrev pub value_or {ℓ} : {A : Type ℓ} → Option A → A → A
value_or none a = a
value_or (some b) a = b

-- `static_cast<uint16_t>` and `static_cast<uint8_t>` of a rounded number.
abbrev to_u16 : ℤ → ℕ
to_u16 z = to_u32 z % 2 ^ 16

abbrev to_u8 : ℤ → ℕ
to_u8 z = to_u32 z % 2 ^ 8

unfoldable pub encode_basic_id : List ℕ → GbEncodeResult
unfolding put_fixed_text gb_payload
encode_basic_id identity =
    encoded (gb_payload (0x80 ∷ []) (put_fixed_text identity product_id_size))

unfoldable pub encode_operator_id : GbOptions → GbEncodeResult
unfolding put_fixed_text gb_payload
encode_operator_id options =
    encoded
      (gb_payload (0x40 ∷ []) (put_fixed_text options.registration_mark registration_mark_size))

module _ (floats : Floats) where
  -- Times 1e7.
  unfoldable pub put_coordinate : GeoPoint → List ℕ
  unfolding put_i32_le
  put_coordinate p =
      put_i32_le (floats.llround (floats.times64 p.longitude_deg 0x416312d000000000))
      ++ put_i32_le (floats.llround (floats.times64 p.latitude_deg 0x416312d000000000))

  -- (a + 1000) * 2, and (a + 9000) * 2.
  abbrev pub encode_altitude : Float → ℕ
  encode_altitude a =
      to_u16 (floats.lround (floats.times32 (floats.plus32 a 0x447a0000) 0x40000000))

  abbrev pub encode_relative_altitude : Float → ℕ
  encode_relative_altitude a =
      to_u16 (floats.lround (floats.times32 (floats.plus32 a 0x460ca000) 0x40000000))

  abbrev pub system_content : GeoPoint → Float → GbOptions → List ℕ
  system_content position altitude options =
      options.operation_category
      ∷ options.ua_classification
      ∷ options.gcs_position_type
      ∷ (put_coordinate position ++ put_u16_le (encode_altitude altitude))

  unfoldable pub encode_system : FlightState → GbOptions → GbEncodeResult
  encode_system state options =
      let here : GeoPoint = record {
        latitude_deg = state.latitude_deg;
        longitude_deg = state.longitude_deg;
      } in
      let position = value_or options.gcs_position here in
      let altitude = value_or options.gcs_altitude_m state.altitude_msl_m in
      if not (valid_altitude altitude)
      then refused invalid_options
      else encoded (gb_payload (0x3e ∷ []) (system_content position altitude options))

  -- Above -9000 and up to 23767.5; up to 6553.4; from -63 to 63.5.
  unfoldable pub location_ok : FlightState → Float → Bool
  location_ok state barometric_altitude = not (
      not (valid_altitude state.altitude_msl_m)
      || le32 state.height_agl_m 0xc60ca000
      || lt32 0x46b9af00 state.height_agl_m
      || lt32 0x45cccb33 state.horizontal_speed_mps
      || lt32 state.vertical_speed_mps 0xc27c0000
      || lt32 0x427e0000 state.vertical_speed_mps
      || not (valid_altitude barometric_altitude))

  -- The magnitude in half metres a second, with the top bit for a descent.
  unfoldable pub vertical_byte : Float → ℕ
  vertical_byte speed =
      let magnitude = to_u8 (floats.lround (floats.times32 (floats.abs32 speed) 0x40000000)) in
      if lt32 speed 0 then magnitude % 128 + 128 else magnitude

  -- The content of a location in front of its time stamp.
  unfoldable pub motion_content : FlightState → Float → GbOptions → List ℕ
  unfolding vertical_byte
  motion_content state barometric_altitude options =
      put_coordinate
        (record { latitude_deg = state.latitude_deg; longitude_deg = state.longitude_deg })
      ++ (put_u16_le (to_u16 (floats.lround (floats.times32 state.heading_deg 0x41200000)))
          ++ (put_u16_le
                (to_u16 (floats.lround (floats.times32 state.horizontal_speed_mps 0x41200000)))
              ++ (put_u16_le (encode_relative_altitude state.height_agl_m)
                  ++ (vertical_byte state.vertical_speed_mps
                      ∷ (put_u16_le (encode_altitude state.altitude_msl_m)
                          ++ (put_u16_le (encode_altitude barometric_altitude)
                              ++ ((if state.airborne then 1 else 0)
                                  ∷ 0
                                  ∷ options.horizontal_accuracy
                                  ∷ options.vertical_accuracy
                                  ∷ options.speed_accuracy
                                  ∷ [])))))))

  unfoldable pub encode_location : FlightState → GbOptions → GbEncodeResult
  unfolding location_ok
  encode_location state options =
      let barometric_altitude = value_or options.barometric_altitude_m state.altitude_msl_m in
      if not (location_ok state barometric_altitude)
      then refused invalid_flight_state
      else encoded (
          gb_payload (0x01 ∷ 0xff ∷ 0xfe ∷ []) (
            motion_content state barometric_altitude options
            ++ (put_u48_le options.timestamp_ms ++ (options.timestamp_accuracy ∷ []))))

  unfoldable pub encode_kind : MessageKind → FlightState → List ℕ → GbOptions → GbEncodeResult
  unfolding encode_basic_id encode_location encode_system encode_operator_id
  encode_kind basic_id state identity options = encode_basic_id identity
  encode_kind location state identity options = encode_location state options
  encode_kind system state identity options = encode_system state options
  encode_kind operator_id state identity options = encode_operator_id options
  encode_kind authentication state identity options = refused unsupported_message
  encode_kind self_id state identity options = refused unsupported_message

  unfoldable pub encode : MessageKind → FlightState → List ℕ → GbOptions → GbEncodeResult
  encode kind state identity options = elim (validate_inputs state identity options) [
    | no_error ↦ encode_kind kind state identity options
    | error ↦ refused error
  ]
