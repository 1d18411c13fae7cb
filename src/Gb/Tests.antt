-- ===== src/Gb/Tests.antt =====
-- Tests of the encoder of GB 46750.
use esp32_rid.Prelude.{ℕ, ◌≡◌, refl, false, List, ◌∷◌, replicate}
use esp32_rid.Prelude.Int.{pos}
use esp32_rid.Model.{
  location, authentication, self_id, operator_id, FlightState, valid_state, valid_latitude,
  valid_longitude,
}
use esp32_rid.Model.Floats.{
  is_finite32, is_finite64, is_nan64, le64, le32, lt32, signed_le, is_nan32,
}
use esp32_rid.Gb.{
  Floats, GbOptions, default_options, encoded, refused, unsupported_message, encode, encode_kind,
  encode_operator_id, gb_payload, put_fixed_text, validate_inputs,
}
use esp32_rid.Gb.Messages.{Carryable, Stamped, encode-Carryable, encode-Stamped}

-- Arithmetic that gives its first argument back, and roundings to 300.
abbrev rough : Floats
rough = record {
  times64 = λ a b. a;
  times32 = λ a b. a;
  plus32 = λ a b. a;
  abs32 = λ a. a;
  llround = λ a. pos 300;
  lround = λ a. pos 300;
}

abbrev hovering : FlightState
hovering = record {
  latitude_deg = 0;
  longitude_deg = 0;
  altitude_msl_m = 0;
  height_agl_m = 0;
  horizontal_speed_mps = 0;
  vertical_speed_mps = 0;
  heading_deg = 0;
  airborne = false;
  relative_time_ms = 0;
}

abbrev identity : List ℕ
identity = replicate 20 b'T'

abbrev stamped_options : GbOptions
stamped_options = record default_options { timestamp_ms = 1700000000000 }

registration :
    encode rough operator_id hovering identity default_options
    ≡ encoded (0xff ∷ 0x20 ∷ 8 ∷ 0x40 ∷ default_options.registration_mark)
unfolding encode encode_kind encode_operator_id gb_payload put_fixed_text validate_inputs
    valid_state valid_latitude valid_longitude is_finite32 is_finite64 is_nan64 le64 le32 lt32
    signed_le is_nan32
registration = refl

-- Two of the six kinds that the runtime asks for are never encoded.
unsupported :
    (encode rough authentication hovering identity default_options ≡ refused unsupported_message)
    × (encode rough self_id hovering identity default_options ≡ refused unsupported_message)
unfolding encode encode_kind validate_inputs valid_state valid_latitude valid_longitude is_finite32
    is_finite64 is_nan64 le64 le32 lt32 signed_le is_nan32
unsupported = (refl, refl)

encode-Carryable_example :
    Carryable rough identity (encode rough location hovering identity stamped_options)
encode-Carryable_example = encode-Carryable rough location hovering identity stamped_options

encode-Stamped_example :
    Stamped rough 1700000000000 (encode rough location hovering identity stamped_options)
encode-Stamped_example = encode-Stamped rough hovering identity stamped_options
