-- ===== src/Odid/Packs.antt =====
-- What the OpenDroneID encoder gives, under what the library documents.
use mathlib.Core.Path.{subst}
use esp32_rid.Prelude.{
  ℕ, suc, ◌+◌, ◌*◌, ◌/◌, ◌≡◌, refl, ap, ◌∙◌, ◌≢◌, ◌⊎◌, inl, inr, true, Option, none, some, List, [],
  ◌∷◌, ◌++◌, arith, All, length, take, length-append, length-take, take-append,
}
use esp32_rid.Model.{
  MessageKind, basic_id, location, authentication, self_id, system, operator_id, FlightState,
}
use esp32_rid.Payload.{view}
use esp32_rid.Wifi.{is_message_pack}
use esp32_rid.Odid.{
  Core, OdidData, OdidOptions, EncodeError, EncodeResult, no_error, refused, encoded,
  core_encoding_failed, message_size, pack_kinds, validate_inputs, encoded_result, encode_kind,
  encode_basic_id, encode_location, encode_authentication, encode_self_id, encode_system,
  encode_operator_id, encode, gather, encode_pack,
}

-- One list after the other.
unfoldable pub flatten : List (List ℕ) → List ℕ
flatten [] = []
flatten (m ∷ ms) = m ++ flatten ms

abbrev pub Whole : List ℕ → Type 0
Whole m = length m ≡ message_size

-- A message is a structure of 25 bytes. The structure of a pack has a byte with the type of a pack in
-- its upper half, the size of a message, the number of messages, the messages, and what is left of
-- the room for nine.
pub record Documented (core : Core) : Type 0 where
  pub messages : (d : OdidData) (bytes : List ℕ) → core.encode_data d ≡ some bytes → Whole bytes
  pub packs :
      (ms : List (List ℕ)) (bytes : List ℕ)
      → core.encode_message_pack ms ≡ some bytes
      → All Whole ms
      → (first : ℕ) × (room : List ℕ) × (first / 16 ≡ 15)
        × (bytes ≡ first ∷ message_size ∷ length ms ∷ (flatten ms ++ room))

-- An error, or a message of 25 bytes.
abbrev pub Message : EncodeResult → Type 0
Message (refused e) = e ≢ no_error
Message (encoded bytes) = Whole bytes

-- The six kinds in the order of a pack.
abbrev pub six_kinds : List MessageKind
six_kinds = basic_id ∷ location ∷ authentication ∷ self_id ∷ system ∷ operator_id ∷ []

length-flatten :
    (ms : List (List ℕ)) → All Whole ms → length (flatten ms) ≡ length ms * message_size
unfolding flatten
length-flatten [] h = refl
length-flatten (m ∷ ms) h = omega (arith, length-append m (flatten ms), length-flatten ms h.1, h.0)

module _ (core : Core) (laws : Documented core) where
  result-Message : (d : OdidData) → Message (encoded_result core (core.encode_data d))
  result-Message d = go (core.encode_data d) refl
    where
      go : (o : Option (List ℕ)) → core.encode_data d ≡ o → Message (encoded_result core o)
      go none e = λ h. ground (arith, h)
      go (some bytes) e =
          let whole = laws.messages d bytes e in
          length-take message_size bytes (omega (arith, whole))

  encode_kind-Message :
      (kind : MessageKind) (state : FlightState) (identity : List ℕ) (options : OdidOptions)
      → Message (encode_kind core kind state identity options)
  unfolding encode_kind encode_basic_id encode_location encode_authentication encode_self_id
      encode_system encode_operator_id
  encode_kind-Message basic_id state identity options = result-Message _
  encode_kind-Message location state identity options = result-Message _
  encode_kind-Message authentication state identity options = result-Message _
  encode_kind-Message self_id state identity options = result-Message _
  encode_kind-Message system state identity options = result-Message _
  encode_kind-Message operator_id state identity options = result-Message _

  pub encode-Message :
      (kind : MessageKind) (state : FlightState) (identity : List ℕ) (options : OdidOptions)
      → Message (encode core kind state identity options)
  unfolding encode
  encode-Message kind state identity options = go (validate_inputs state identity options)
    where
      go :
          (e : EncodeError)
          → Message (elim e as (λ x. EncodeResult) [
            | no_error ↦ encode_kind core kind state identity options
            | error ↦ refused error
          ])
      go no_error = encode_kind-Message kind state identity options
      go e = λ h. ground (arith, h)

  module _ (state : FlightState) (identity : List ℕ) (options : OdidOptions) where
    -- The messages of the kinds, in their order.
    abbrev pub Messages : List MessageKind → List (List ℕ) → Type 0
    Messages [] [] = Unit
    Messages (kind ∷ kinds) (m ∷ ms) =
        (encode core kind state identity options ≡ encoded m) × Messages kinds ms
    Messages _ _ = ⊥

    -- The first of the kinds whose message is refused is refused with the error.
    abbrev pub FailsWith : EncodeError → List MessageKind → Type 0
    FailsWith e [] = ⊥
    FailsWith e (kind ∷ kinds) =
        (encode core kind state identity options ≡ refused e)
        ⊎ ((m : List ℕ) × (encode core kind state identity options ≡ encoded m) × FailsWith e kinds)

    Gathered : List MessageKind → EncodeError × List (List ℕ) → Type 0
    Gathered kinds r =
        ((r.0 ≡ no_error) × Messages kinds r.1 × (length r.1 ≡ length kinds) × All Whole r.1)
        ⊎ ((r.0 ≢ no_error) × FailsWith r.0 kinds)

    gather-Gathered :
        (kinds : List MessageKind) → Gathered kinds (gather core kinds state identity options)
    unfolding gather Gathered
    gather-Gathered [] = inl (refl, tt, refl, tt)
    gather-Gathered (kind ∷ kinds) =
        go (encode core kind state identity options) refl
          (encode-Message kind state identity options) (gather-Gathered kinds)
      where
        go :
            (r : EncodeResult)
            → encode core kind state identity options ≡ r
            → Message r
            → Gathered kinds (gather core kinds state identity options)
            → Gathered (kind ∷ kinds) (elim r as (λ x. EncodeError × List (List ℕ)) [
              | refused e ↦ (e, [])
              | encoded bytes ↦ (
                (gather core kinds state identity options).0,
                bytes ∷ (gather core kinds state identity options).1,
              )
            ])
        go (refused e) same m g = inr (m, inl same)
        go (encoded bytes) same m (inl (ok, all, count, whole)) =
            inl (ok, (same, all), ap suc count, (m, whole))
        go (encoded bytes) same m (inr (failed, fails)) = inr (failed, inr (bytes, same, fails))

    -- An error, that of the first message that is refused or of the library; or a message pack of the
    -- messages of the kinds, in 153 bytes.
    abbrev pub Pack : List MessageKind → EncodeResult → Type 0
    Pack kinds (refused e) =
        (e ≢ no_error)
        × (FailsWith e kinds
            ⊎ ((ms : List (List ℕ)) × Messages kinds ms
                × (core.encode_message_pack ms ≡ none)
                × (e ≡ core_encoding_failed)))
    Pack kinds (encoded bytes) =
        (first : ℕ) × (ms : List (List ℕ)) × (first / 16 ≡ 15)
        × Messages kinds ms
        × (bytes ≡ first ∷ message_size ∷ 6 ∷ flatten ms)
        × (length bytes ≡ 153)
        × (is_message_pack (view bytes) ≡ true)

  cut :
      (first : ℕ) (ms : List (List ℕ)) (room : List ℕ)
      → All Whole ms
      → length ms ≡ 6
      → take
          (3 + length ms * message_size)
          (first ∷ message_size ∷ length ms ∷ (flatten ms ++ room))
        ≡ first ∷ message_size ∷ 6 ∷ flatten ms
  cut first ms room h six =
      let e : length (flatten ms) ≡ 150 = omega (arith, length-flatten ms h, six) in
      rw six (
        ap (λ xs. first ∷ message_size ∷ 6 ∷ xs)
          (subst (λ n. take n (flatten ms ++ room) ≡ flatten ms) e (take-append (flatten ms) room)))

  pack_header :
      (first : ℕ) (ms : List (List ℕ))
      → first / 16 ≡ 15
      → length (flatten ms) ≡ 150
      → is_message_pack (view (first ∷ message_size ∷ 6 ∷ flatten ms)) ≡ true
  unfolding is_message_pack
  pack_header first ms h e = rw (e, h) refl

  module _ (state : FlightState) (identity : List ℕ) (options : OdidOptions) where
    packed :
        (kinds : List MessageKind) (ms : List (List ℕ)) (o : Option (List ℕ))
        → core.encode_message_pack ms ≡ o
        → Messages state identity options kinds ms
        → length ms ≡ 6
        → All Whole ms
        → Pack state identity options kinds (elim o as (λ x. EncodeResult) [
          | none ↦ refused core_encoding_failed
          | some bytes ↦ encoded (take (3 + length ms * message_size) bytes)
        ])
    packed kinds ms none e all six h = ((λ k. ground (arith, k)), inr (ms, all, e, refl))
    packed kinds ms (some bytes) e all six h =
        let p = laws.packs ms bytes e h in
        let same = ap (take (3 + length ms * message_size)) p.3 ∙ cut p.0 ms p.1 h six in
        let size : length (flatten ms) ≡ 150 = omega (arith, length-flatten ms h, six) in
        (
          p.0,
          ms,
          p.2,
          all,
          same,
          ap length same ∙ omega (arith, size),
          ap (λ xs. is_message_pack (view xs)) same ∙ pack_header (p.0) ms (p.2) size,
        )

    -- If the library does what it documents, a pack is encoded only if the messages of all six kinds
    -- are: Basic ID, Location, Authentication, Self ID, System and Operator ID. It is 153 bytes: a
    -- byte with the type of a pack in its upper half, the size of a message, their number, and the
    -- messages in that order; and the check of the radio's frames takes it as a message pack.
    -- Otherwise the error is that of the first message that is refused, or if none is,
    -- `core_encoding_failed`, and then the library refuses the six messages.
    pub encode_pack-Pack :
        Pack state identity options six_kinds (encode_pack core state identity options)
    unfolding encode_pack Gathered
    encode_pack-Pack =
        go (gather core pack_kinds state identity options)
          (gather-Gathered state identity options pack_kinds)
      where
        go :
            (r : EncodeError × List (List ℕ))
            → Gathered state identity options pack_kinds r
            → Pack state identity options six_kinds (elim r.0 as (λ x. EncodeResult) [
              | no_error ↦ elim (core.encode_message_pack r.1) as (λ x. EncodeResult) [
                | none ↦ refused core_encoding_failed
                | some bytes ↦ encoded (take (3 + length (r.1) * message_size) bytes)
              ]
              | e ↦ refused e
            ])
        go (no_error, ms) (inl (ok, all, six, whole)) =
            packed six_kinds ms (core.encode_message_pack ms) refl all six whole
        go (no_error, ms) (inr (failed, fails)) = absurd (failed refl)
        go (e, ms) (inl (ok, all, six, whole)) = cc
        go (e, ms) (inr (failed, fails)) = (failed, inl fails)
