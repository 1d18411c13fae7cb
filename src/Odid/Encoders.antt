-- ===== src/Odid/Encoders.antt =====
-- The OpenDroneID encoder as the runtime uses it.
use esp32_rid.Prelude.{ℕ, ◌≡◌, Option, none, some, List, length}
use esp32_rid.Model.{MessageKind, FlightState, GeoPoint}
use esp32_rid.Runtime.{Encoders}
use esp32_rid.Runtime.Frames.{AllOption, Single}
use esp32_rid.Odid.{
  Core, OdidOptions, EncodeResult, refused, encoded, default_options, encode, encode_pack,
}
use esp32_rid.Odid.Packs.{Documented, Message, encode-Message}

-- `encoded.value()` where `encoded.ok()`.
abbrev pub value : EncodeResult → Option (List ℕ)
value (refused e) = none
value (encoded bytes) = some bytes

-- `OdidOptions options; options.operator_position = config_.site;`
abbrev pub runtime_options : Option GeoPoint → OdidOptions
runtime_options position = record default_options { operator_position = position }

module _ (core : Core)
    (gb : MessageKind → FlightState → List ℕ → Option GeoPoint → Option (List ℕ)) where
  unfoldable pub runtime_encoders : Encoders
  runtime_encoders = record {
    odid_pack = λ state identity position.
        value (encode_pack core state identity (runtime_options position));
    odid = λ kind state identity position.
        value (encode core kind state identity (runtime_options position));
    gb = gb;
  }

  -- If the library does what it documents, a single message that the encoder gives to the runtime has
  -- 25 bytes, as the runtime's framing requires.
  pub runtime_encoders-Single : Documented core → Single runtime_encoders
  unfolding runtime_encoders
  runtime_encoders-Single laws kind state identity position =
      go (encode core kind state identity (runtime_options position))
        (encode-Message core laws kind state identity (runtime_options position))
    where
      go : (r : EncodeResult) → Message r → AllOption (λ bytes. length bytes ≡ 25) (value r)
      go (refused e) m = tt
      go (encoded bytes) m = m
