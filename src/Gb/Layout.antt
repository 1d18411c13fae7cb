-- ===== src/Gb/Layout.antt =====
-- What the encoder of GB 46750 writes.
use esp32_rid.Prelude.{
  ℕ, ◌+◌, ◌-◌, ◌%◌, ◌≤◌, ◌≡◌, refl, ◌≢◌, Bool, true, false, not, ◌||◌, List, [], ◌∷◌, ◌++◌, arith,
  ltb, ◌==◌, if◌then◌else◌, if_cases, length, replicate, length-append, length-replicate,
}
use esp32_rid.Model.{
  MessageKind, basic_id, location, authentication, self_id, system, operator_id, GeoPoint,
  FlightState, valid_state,
}
use esp32_rid.Model.Floats.{Float}
use esp32_rid.Gb.{
  Floats, GbOptions, GbEncodeError, GbEncodeResult, no_error, refused, encoded, invalid_options,
  invalid_flight_state, put_u16_le, put_i32_le, put_u48_le, validate_inputs, gb_payload,
  put_fixed_text, put_coordinate, encode_basic_id, encode_operator_id, encode_system,
  encode_location, valid_altitude, location_ok, vertical_byte, motion_content, encode_kind,
  product_id_size, registration_mark_size, options_rejected, point_ok, altitude_ok, system_content,
  value_or, max_timestamp,
}

-- What the validation of the inputs tells.
pub record Accepted (identity : List ℕ) (options : GbOptions) : Type 0 where
  pub product_id : length identity ≡ 20
  pub mark : length options.registration_mark ≤ 8
  pub time : options.timestamp_ms ≤ max_timestamp

ltb-false : (a b : ℕ) → ltb a b ≡ false → b ≤ a
ltb-false a b h = ground (arith, h)

or_false : (a b : Bool) → (a || b) ≡ false → (a ≡ false) × (b ≡ false)
or_false true b h = absurd (ground (arith, h))
or_false false b h = (refl, h)

pub validate-Accepted :
    (state : FlightState) (identity : List ℕ) (options : GbOptions)
    → (validate_inputs state identity options ≡ no_error)
    → Accepted identity options
unfolding validate_inputs
validate-Accepted state identity options h =
    if_cases (λ (e : GbEncodeError). e ≡ no_error → Accepted identity options)
      (not (length identity == 20)) (λ c k. absurd (ground (arith, k)))
      (λ c1.
        if_cases (λ (e : GbEncodeError). e ≡ no_error → Accepted identity options)
          (not (valid_state state)) (λ c k. absurd (ground (arith, k)))
          (λ c2.
            if_cases (λ (e : GbEncodeError). e ≡ no_error → Accepted identity options)
              (options_rejected options) (λ c k. absurd (ground (arith, k)))
              (λ c3 k.
                let m = ltb 8 (length options.registration_mark) in
                let p = not (point_ok options.gcs_position) in
                let a = not (altitude_ok options.gcs_altitude_m) in
                let b = not (altitude_ok options.barometric_altitude_m) in
                let late = ltb max_timestamp options.timestamp_ms in
                let o1 = or_false (m || p || a || b) late c3 in
                let o2 = or_false (m || p || a) b (o1.0) in
                let o3 = or_false (m || p) a (o2.0) in
                let o4 = or_false m p (o3.0) in
                record {
                  product_id = ground (arith, c1);
                  mark = ltb-false 8 (length options.registration_mark) (o4.0);
                  time = ltb-false max_timestamp (options.timestamp_ms) (o1.1);
                })))
      h

-- The bytes of a message: its type, its version, the size of its content, and the identifiers and
-- the content.
pub record Frame (bytes : List ℕ) : Type 0 where
  pub size : ℕ
  pub identifiers : ℕ
  pub tail : List ℕ
  pub layout : bytes ≡ 0xff ∷ 0x20 ∷ size ∷ tail
  pub sized : length tail ≡ identifiers + size
  pub identified : identifiers ≤ 3
  pub small : size ≤ 31

abbrev pub Framed : GbEncodeResult → Type 0
Framed (refused e) = e ≢ no_error
Framed (encoded bytes) = Frame bytes

payload-Frame :
    (identifiers content : List ℕ)
    → length identifiers ≤ 3
    → length content ≤ 31
    → Frame (gb_payload identifiers content)
unfolding gb_payload
payload-Frame identifiers content h k = record {
  size = length content % 256;
  identifiers = length identifiers;
  tail = identifiers ++ content;
  layout = refl;
  sized = omega (arith, length-append identifiers content);
  identified = h;
  small = omega arith;
}

length-fixed :
    (text : List ℕ) (size : ℕ) → length text ≤ size → length (put_fixed_text text size) ≡ size
unfolding put_fixed_text
length-fixed text size h = omega (
  arith,
  length-append text (replicate (size - length text) 0),
  length-replicate {A = ℕ} (size - length text) 0,
)

module _ (floats : Floats) where
  length-motion :
      (state : FlightState) (altitude : Float) (options : GbOptions)
      → length (motion_content floats state altitude options) ≡ 24
  unfolding motion_content put_coordinate put_i32_le put_u16_le vertical_byte
  length-motion state altitude options = refl

  pub encode_kind-Framed :
      (kind : MessageKind) (state : FlightState) (identity : List ℕ) (options : GbOptions)
      → Accepted identity options
      → Framed (encode_kind floats kind state identity options)
  unfolding encode_kind encode_basic_id encode_operator_id encode_system encode_location
  encode_kind-Framed basic_id state identity options v =
      payload-Frame (0x80 ∷ []) (put_fixed_text identity product_id_size) (omega arith)
        (omega (arith, length-fixed identity 20 (omega (arith, v.product_id))))
  encode_kind-Framed location state identity options v =
      located (value_or options.barometric_altitude_m state.altitude_msl_m)
    where
      length-content :
          (b : Float)
          → length (
              motion_content floats state b options
              ++ (put_u48_le options.timestamp_ms ++ (options.timestamp_accuracy ∷ [])))
            ≤ 31
      length-content b =
          unfold put_u48_le in
          omega (
            arith,
            length-append (motion_content floats state b options)
                (put_u48_le options.timestamp_ms ++ (options.timestamp_accuracy ∷ [])),
            length-motion state b options,
          )

      located :
          (b : Float)
          → Framed (
              if not (location_ok floats state b)
              then refused invalid_flight_state
              else encoded (
                  gb_payload (0x01 ∷ 0xff ∷ 0xfe ∷ []) (
                    motion_content floats state b options
                    ++ (put_u48_le options.timestamp_ms ++ (options.timestamp_accuracy ∷ [])))))
      located b =
          if_cases Framed (not (location_ok floats state b)) (λ h k. ground (arith, k))
            (λ h.
              payload-Frame (0x01 ∷ 0xff ∷ 0xfe ∷ [])
                (motion_content floats state b options
                  ++ (put_u48_le options.timestamp_ms ++ (options.timestamp_accuracy ∷ [])))
                (omega arith) (length-content b))
  encode_kind-Framed system state identity options v =
      sited
        (value_or options.gcs_position
          (record { latitude_deg = state.latitude_deg; longitude_deg = state.longitude_deg }))
        (value_or options.gcs_altitude_m state.altitude_msl_m)
    where
      length-system : (p : GeoPoint) (a : Float) → length (system_content floats p a options) ≤ 31
      length-system p a = unfold put_coordinate put_i32_le put_u16_le in omega arith

      sited :
          (p : GeoPoint) (a : Float)
          → Framed (
              if not (valid_altitude a)
              then refused invalid_options
              else encoded (gb_payload (0x3e ∷ []) (system_content floats p a options)))
      sited p a =
          if_cases Framed (not (valid_altitude a)) (λ h k. ground (arith, k))
            (λ h.
              payload-Frame (0x3e ∷ []) (system_content floats p a options) (omega arith)
                (length-system p a))
  encode_kind-Framed operator_id state identity options v =
      payload-Frame (0x40 ∷ []) (put_fixed_text options.registration_mark registration_mark_size)
        (omega arith) (omega (arith, length-fixed options.registration_mark 8 (v.mark)))
  encode_kind-Framed authentication state identity options v = λ h. ground (arith, h)
  encode_kind-Framed self_id state identity options v = λ h. ground (arith, h)
