-- ===== src/Gb/Messages.antt =====
-- The messages of GB 46750 as the runtime uses them.
use esp32_rid.Prelude.{
  ℕ, ◌+◌, ◌*◌, ◌≤◌, ◌<◌, ◌≡◌, refl, ap, ◌≢◌, true, false, not, ◌&&◌, ◌||◌, some, List, [], ◌∷◌,
  ◌++◌, arith, ltb, ◌==◌, if◌then◌else◌, if_cases, length, take, drop,
}
use esp32_rid.Model.{MessageKind, location, FlightState}
use esp32_rid.Model.Floats.{Float}
use esp32_rid.Payload.{view}
use esp32_rid.Wifi.{FrameError, frame_ok, build_gb_beacon}
use esp32_rid.Gb.{
  Floats, GbOptions, GbEncodeError, GbEncodeResult, no_error, refused, encoded,
  invalid_flight_state, put_u16_le, put_i32_le, put_u48_le, validate_inputs, gb_payload,
  put_coordinate, encode_location, location_ok, vertical_byte, motion_content, value_or,
  encode_kind, encode, max_timestamp,
}
use esp32_rid.Gb.Layout.{validate-Accepted, Frame, Framed, encode_kind-Framed}

-- A number from its bytes, the lowest first.
unfoldable pub get_le : List ℕ → ℕ
get_le [] = 0
get_le (b ∷ bs) = b + 256 * get_le bs

builds :
    (identity bytes address : List ℕ) (counter : ℕ)
    → length identity ≡ 20
    → 0 < length bytes
    → length bytes ≤ 40
    → (build_gb_beacon (some address) (view identity) counter (view bytes)).0 ≡ frame_ok
unfolding build_gb_beacon
builds identity bytes address counter h pos le =
    let P = λ (r : FrameError × List ℕ). r.0 ≡ frame_ok in
    if_cases P ((not (length identity == 0) && false) || (length bytes == 0) || false)
      (λ c. absurd (empty_none c))
      (λ c.
        if_cases P (ltb 32 (length identity) || ltb 249 (length bytes)) (λ d. absurd (fits_both d))
          (λ d.
            if_cases P (ltb 512 (38 + length identity + 3 + 2 + 5 + length bytes))
              (λ k. absurd (ground (arith, k, h, le))) (λ k. refl)))
  where
    empty_none : ((not (length identity == 0) && false) || (length bytes == 0) || false) ≡ true → ⊥
    empty_none c = ground (arith, c, pos)

    fits_both : (ltb 32 (length identity) || ltb 249 (length bytes)) ≡ true → ⊥
    fits_both d = ground (arith, d, h, le)

module _ (floats : Floats) where
  -- An error, or a message in a frame that a beacon can carry.
  abbrev pub Carryable : List ℕ → GbEncodeResult → Type 0
  Carryable identity (refused e) = e ≢ no_error
  Carryable identity (encoded bytes) =
      Frame bytes
      × ((address : List ℕ) (counter : ℕ)
          → (build_gb_beacon (some address) (view identity) counter (view bytes)).0 ≡ frame_ok)

  Framed-Carryable :
      (identity : List ℕ) (r : GbEncodeResult)
      → length identity ≡ 20
      → Framed r
      → Carryable identity r
  Framed-Carryable identity (refused e) h f = f
  Framed-Carryable identity (encoded bytes) h f = (
    f,
    λ address counter.
        builds identity bytes address counter h (omega (arith, ap length f.layout, f.sized))
          (omega (arith, ap length f.layout, f.sized, f.identified, f.small)),
  )

  -- Every message that is encoded is a byte of type, a byte of version, the size of its content, at
  -- most three identifiers and at most 31 bytes of content; and the Beacon frame for it can be built
  -- for every address and counter. Otherwise there is an error.
  pub encode-Carryable :
      (kind : MessageKind) (state : FlightState) (identity : List ℕ) (options : GbOptions)
      → Carryable identity (encode floats kind state identity options)
  unfolding encode
  encode-Carryable kind state identity options = go (validate_inputs state identity options) refl
    where
      go :
          (e : GbEncodeError)
          → validate_inputs state identity options ≡ e
          → Carryable identity (elim e as (λ x. GbEncodeResult) [
            | no_error ↦ encode_kind floats kind state identity options
            | error ↦ refused error
          ])
      go no_error h =
          let v = validate-Accepted state identity options h in
          Framed-Carryable identity (encode_kind floats kind state identity options) (v.product_id)
            (encode_kind-Framed floats kind state identity options v)
      go e h = λ k. ground (arith, k)

  -- An error, or a location in which the time stamp is read back.
  abbrev pub Stamped : ℕ → GbEncodeResult → Type 0
  Stamped time (refused e) = e ≢ no_error
  Stamped time (encoded bytes) = get_le (take 6 (drop 30 bytes)) ≡ time

  stamped_bytes :
      (time b : ℕ) (state : FlightState) (altitude : Float) (options : GbOptions)
      → time ≤ max_timestamp
      → get_le (
          take 6 (
            drop 30 (
              gb_payload
                (0x01 ∷ 0xff ∷ 0xfe ∷ [])
                (motion_content floats state altitude options ++ (put_u48_le time ++ (b ∷ []))))))
        ≡ time
  unfolding gb_payload motion_content put_coordinate put_i32_le put_u16_le put_u48_le vertical_byte
      get_le
  stamped_bytes time b state altitude options h = omega arith

  -- In a location that is encoded, bytes 30 to 35 are the time stamp in little-endian order.
  pub encode-Stamped :
      (state : FlightState) (identity : List ℕ) (options : GbOptions)
      → Stamped options.timestamp_ms (encode floats location state identity options)
  unfolding encode encode_kind encode_location
  encode-Stamped state identity options = go (validate_inputs state identity options) refl
    where
      located :
          (altitude : Float)
          → options.timestamp_ms ≤ max_timestamp
          → Stamped options.timestamp_ms (
              if not (location_ok floats state altitude)
              then refused invalid_flight_state
              else encoded (
                  gb_payload (0x01 ∷ 0xff ∷ 0xfe ∷ []) (
                    motion_content floats state altitude options
                    ++ (put_u48_le options.timestamp_ms ++ (options.timestamp_accuracy ∷ [])))))
      located altitude le =
          if_cases (Stamped options.timestamp_ms) (not (location_ok floats state altitude))
            (λ h k. ground (arith, k))
            (λ h.
              stamped_bytes options.timestamp_ms options.timestamp_accuracy state altitude options
                le)

      go :
          (e : GbEncodeError)
          → validate_inputs state identity options ≡ e
          → Stamped options.timestamp_ms (elim e as (λ x. GbEncodeResult) [
            | no_error ↦ encode_kind floats location state identity options
            | error ↦ refused error
          ])
      go no_error h =
          located (value_or options.barometric_altitude_m state.altitude_msl_m)
            ((validate-Accepted state identity options h).time)
      go e h = λ k. ground (arith, k)
