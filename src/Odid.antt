-- ===== src/Odid.antt =====
-- components/rid_odid/odid_encoder.cpp over the vendored OpenDroneID library, which is a parameter.
-- Text is a list of bytes; floating-point numbers are bit patterns.
pub mod Packs
pub mod Encoders
pub mod Tests
use esp32_rid.Prelude.{
  le→leb, All-map, ℕ, zero, suc, ◌+◌, ◌-◌, ◌*◌, ◌/◌, ◌%◌, ◌^◌, ◌≤◌, ◌<◌, ◌≡◌, refl, sym, ap, ◌∙◌,
  ◌≢◌, ◌↔◌, ◌⊎◌, inl, inr, Bool, true, false, not, ◌&&◌, ◌||◌, Option, none, some, List, [], ◌∷◌,
  ◌++◌, map, append-nil, append_assoc, arith, ltb, leb, ◌==◌, if◌then◌else◌, ltb→lt, lt→ltb, leb→le,
  ==_iff, Bool-cases, Option-cases, if_cases, All, length, get_or, set, take, drop, replicate,
  erase_at, length-append, length-set, length-take, length-drop, length-replicate, length-erase_at,
  length-erase_at-le, take-append, drop-append, take-append-drop, All-append, All-erase_at,
  All-get_or,
}
use esp32_rid.Model.{
  MessageKind, basic_id, location, authentication, self_id, system, operator_id, GeoPoint,
  FlightState, valid_latitude, valid_longitude, valid_state,
}
use esp32_rid.Model.Floats.{Float, Double, is_finite32}
use esp32_rid.Payload.{overwrite}

-- `kMessageSize`, `kMaxAuthenticationBytes` and the sizes of the library's header.
abbrev pub message_size : ℕ
message_size = 25

abbrev pub max_authentication_bytes : ℕ
max_authentication_bytes = 17

abbrev pub id_size : ℕ
id_size = 20

abbrev pub str_size : ℕ
str_size = 23

pub record OdidOptions : Type 0 where
  pub id_type : ℕ
  pub barometric_altitude_m : Option Float
  pub horizontal_accuracy_m : Float
  pub vertical_accuracy_m : Float
  pub barometric_accuracy_m : Float
  pub speed_accuracy_mps : Float
  pub timestamp_accuracy_s : Float
  pub authentication_type : ℕ
  pub authentication_timestamp : ℕ
  pub authentication_data : List ℕ
  pub self_description : List ℕ
  pub operator_position : Option GeoPoint
  pub area_count : ℕ
  pub area_radius_m : ℕ
  pub area_ceiling_m : Float
  pub area_floor_m : Float
  pub eu_classification : Bool
  pub eu_category : ℕ
  pub eu_class : ℕ
  pub operator_altitude_m : Float
  pub system_timestamp : ℕ
  pub operator_id : List ℕ

-- "RID test flight" and "TESTOPERATOR".
abbrev default_description : List ℕ
default_description =
    82 ∷ 73 ∷ 68 ∷ 32 ∷ 116 ∷ 101 ∷ 115 ∷ 116 ∷ 32 ∷ 102 ∷ 108 ∷ 105 ∷ 103 ∷ 104 ∷ 116 ∷ []

abbrev default_operator : List ℕ
default_operator = 84 ∷ 69 ∷ 83 ∷ 84 ∷ 79 ∷ 80 ∷ 69 ∷ 82 ∷ 65 ∷ 84 ∷ 79 ∷ 82 ∷ []

-- `OdidOptions{}`: the patterns of 3, 1, 0.2 and -1000.
abbrev pub default_options : OdidOptions
default_options = record {
  id_type = 1;
  barometric_altitude_m = none;
  horizontal_accuracy_m = 0x40400000;
  vertical_accuracy_m = 0x3f800000;
  barometric_accuracy_m = 0x40400000;
  speed_accuracy_mps = 0x3f800000;
  timestamp_accuracy_s = 0x3e4ccccd;
  authentication_type = 0;
  authentication_timestamp = 0;
  authentication_data = [];
  self_description = default_description;
  operator_position = none;
  area_count = 1;
  area_radius_m = 0;
  area_ceiling_m = 0xc47a0000;
  area_floor_m = 0xc47a0000;
  eu_classification = false;
  eu_category = 0;
  eu_class = 0;
  operator_altitude_m = 0xc47a0000;
  system_timestamp = 0;
  operator_id = default_operator;
}

pub data EncodeError : Type 0 where
  no_error invalid_identity invalid_flight_state invalid_options authentication_too_long :
      EncodeError
  text_too_long unsupported_message core_encoding_failed : EncodeError

-- `EncodeResult`.
pub data EncodeResult : Type 0 where
  refused : EncodeError → EncodeResult
  encoded : List ℕ → EncodeResult

-- The members of `ODID_Location_data` and of `ODID_System_data` that the encoder sets.
pub record LocationData : Type 0 where
  pub is_airborne : Bool
  pub direction : Float
  pub speed_horizontal : Float
  pub speed_vertical : Float
  pub latitude : Double
  pub longitude : Double
  pub altitude_baro : Float
  pub altitude_geo : Float
  pub height : Float
  pub horizontal_accuracy : ℕ
  pub vertical_accuracy : ℕ
  pub baro_accuracy : ℕ
  pub speed_accuracy : ℕ
  pub timestamp_accuracy : ℕ
  pub time_stamp : Float

pub record SystemData : Type 0 where
  pub classification_eu : Bool
  pub operator_latitude : Double
  pub operator_longitude : Double
  pub area_count : ℕ
  pub area_radius : ℕ
  pub area_ceiling : Float
  pub area_floor : Float
  pub category_eu : ℕ
  pub class_eu : ℕ
  pub operator_altitude : Float
  pub timestamp : ℕ

-- The data structures of the library, initialised by it and with what the encoder sets in them.
pub data OdidData : Type 0 where
  basic_id_data : ℕ → List ℕ → OdidData
  location_data : LocationData → OdidData
  auth_data : ℕ → ℕ → ℕ → List ℕ → OdidData
  self_id_data : List ℕ → OdidData
  system_data : SystemData → OdidData
  operator_id_data : List ℕ → OdidData

-- The library: the six `encode...Message` functions, which write a structure of 25 bytes or fail,
-- `encodeMessagePack`, which writes the structure of a pack, the enumerations of accuracies, and the
-- time stamp in seconds for a number of milliseconds within the hour.
pub record Core : Type 0 where
  pub encode_data : OdidData → Option (List ℕ)
  pub encode_message_pack : List (List ℕ) → Option (List ℕ)
  pub horizontal_accuracy : Float → ℕ
  pub vertical_accuracy : Float → ℕ
  pub speed_accuracy : Float → ℕ
  pub timestamp_accuracy : Float → ℕ
  pub thousandths : ℕ → Float

-- `copy_text` to an array of `n` characters: what the array holds up to the terminator.
abbrev pub copy_text : ℕ → List ℕ → List ℕ
copy_text n source = take (n - 1) source

abbrev position_ok : Option GeoPoint → Bool
position_ok none = true
position_ok (some p) = valid_latitude p.latitude_deg && valid_longitude p.longitude_deg

abbrev altitude_ok : Option Float → Bool
altitude_ok none = true
altitude_ok (some f) = is_finite32 f

unfoldable pub validate_inputs : FlightState → List ℕ → OdidOptions → EncodeError
validate_inputs state identity options =
    if not (length identity == id_size)
    then invalid_identity
    else if not (valid_state state)
    then invalid_flight_state
    else if not (altitude_ok options.barometric_altitude_m)
        || not (is_finite32 options.horizontal_accuracy_m)
        || not (is_finite32 options.vertical_accuracy_m)
        || not (is_finite32 options.barometric_accuracy_m)
        || not (is_finite32 options.speed_accuracy_mps)
        || not (is_finite32 options.timestamp_accuracy_s)
        || not (is_finite32 options.area_ceiling_m)
        || not (is_finite32 options.area_floor_m)
        || not (is_finite32 options.operator_altitude_m)
        || not (position_ok options.operator_position)
    then invalid_options
    else if ltb max_authentication_bytes (length options.authentication_data)
    then authentication_too_long
    else if ltb str_size (length options.self_description)
        || ltb id_size (length options.operator_id)
    then text_too_long
    else no_error

abbrev value_or {ℓ} : {A : Type ℓ} → Option A → A → A
value_or none a = a
value_or (some b) a = b

-- `kinds` of `encode_pack`.
abbrev pub pack_kinds : List MessageKind
pack_kinds = basic_id ∷ location ∷ authentication ∷ self_id ∷ system ∷ operator_id ∷ []

module _ (core : Core) where
  -- `encoded_result`.
  abbrev pub encoded_result : Option (List ℕ) → EncodeResult
  encoded_result none = refused core_encoding_failed
  encoded_result (some bytes) = encoded (take message_size bytes)

  unfoldable pub encode_basic_id : List ℕ → OdidOptions → EncodeResult
  encode_basic_id identity options =
      encoded_result
        (core.encode_data (basic_id_data options.id_type (copy_text (id_size + 1) identity)))

  unfoldable pub encode_location : FlightState → OdidOptions → EncodeResult
  encode_location state options = encoded_result (
      core.encode_data (
        location_data (record {
          is_airborne = state.airborne;
          direction = state.heading_deg;
          speed_horizontal = state.horizontal_speed_mps;
          speed_vertical = state.vertical_speed_mps;
          latitude = state.latitude_deg;
          longitude = state.longitude_deg;
          altitude_baro = value_or options.barometric_altitude_m state.altitude_msl_m;
          altitude_geo = state.altitude_msl_m;
          height = state.height_agl_m;
          horizontal_accuracy = core.horizontal_accuracy options.horizontal_accuracy_m;
          vertical_accuracy = core.vertical_accuracy options.vertical_accuracy_m;
          baro_accuracy = core.vertical_accuracy options.barometric_accuracy_m;
          speed_accuracy = core.speed_accuracy options.speed_accuracy_mps;
          timestamp_accuracy = core.timestamp_accuracy options.timestamp_accuracy_s;
          time_stamp = core.thousandths (state.relative_time_ms % 3600000);
        })))

  unfoldable pub encode_authentication : OdidOptions → EncodeResult
  encode_authentication options = encoded_result (
      core.encode_data (
        auth_data options.authentication_type (length options.authentication_data % 256)
          options.authentication_timestamp options.authentication_data))

  unfoldable pub encode_self_id : OdidOptions → EncodeResult
  encode_self_id options =
      encoded_result
        (core.encode_data (self_id_data (copy_text (str_size + 1) options.self_description)))

  unfoldable pub encode_system : FlightState → OdidOptions → EncodeResult
  encode_system state options =
      let here : GeoPoint = record {
        latitude_deg = state.latitude_deg;
        longitude_deg = state.longitude_deg;
      } in
      let operator_position = value_or options.operator_position here in
      encoded_result (
        core.encode_data (
          system_data (record {
            classification_eu = options.eu_classification;
            operator_latitude = operator_position.latitude_deg;
            operator_longitude = operator_position.longitude_deg;
            area_count = options.area_count;
            area_radius = options.area_radius_m;
            area_ceiling = options.area_ceiling_m;
            area_floor = options.area_floor_m;
            category_eu = options.eu_category;
            class_eu = options.eu_class;
            operator_altitude = options.operator_altitude_m;
            timestamp = options.system_timestamp;
          })))

  unfoldable pub encode_operator_id : OdidOptions → EncodeResult
  encode_operator_id options =
      encoded_result
        (core.encode_data (operator_id_data (copy_text (id_size + 1) options.operator_id)))

  -- The switch of `encode`.
  unfoldable pub encode_kind : MessageKind → FlightState → List ℕ → OdidOptions → EncodeResult
  unfolding encode_basic_id encode_location encode_authentication encode_self_id encode_system
      encode_operator_id
  encode_kind basic_id state identity options = encode_basic_id identity options
  encode_kind location state identity options = encode_location state options
  encode_kind authentication state identity options = encode_authentication options
  encode_kind self_id state identity options = encode_self_id options
  encode_kind system state identity options = encode_system state options
  encode_kind operator_id state identity options = encode_operator_id options

  unfoldable pub encode : MessageKind → FlightState → List ℕ → OdidOptions → EncodeResult
  encode kind state identity options = elim (validate_inputs state identity options) [
    | no_error ↦ encode_kind kind state identity options
    | error ↦ refused error
  ]

  -- The loop of `encode_pack`: the messages, or the first error.
  unfoldable pub gather :
      List MessageKind → FlightState → List ℕ → OdidOptions → EncodeError × List (List ℕ)
  unfolding encode
  gather [] state identity options = (no_error, [])
  gather (kind ∷ ks) state identity options =
      let (error, messages) = gather ks state identity options in
      elim (encode kind state identity options) [
        | refused e ↦ (e, [])
        | encoded bytes ↦ (error, bytes ∷ messages)
      ]

  unfoldable pub encode_pack : FlightState → List ℕ → OdidOptions → EncodeResult
  unfolding gather
  encode_pack state identity options =
      let (error, messages) = gather pack_kinds state identity options in
      elim error [
        | no_error ↦ elim (core.encode_message_pack messages) [
          | none ↦ refused core_encoding_failed
          | some bytes ↦ encoded (take (3 + length messages * message_size) bytes)
        ]
        | e ↦ refused e
      ]
