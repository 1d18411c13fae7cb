-- ===== src/Ble/ServiceData.antt =====
-- `build_opendroneid_service_data` of components/rid_radio/ble_transport.cpp: the advertising data
-- that carries OpenDroneID messages. The result holds the bytes that `BleAdvertisingData::view` shows.
use esp32_rid.Prelude.{
  ℕ, ◌+◌, ◌-◌, ◌/◌, ◌%◌, ◌≤◌, ◌<◌, ◌≡◌, refl, ◌∙◌, ◌≢◌, ◌⊎◌, Bool, true, false, not, ◌&&◌, ◌||◌,
  Option, none, some, List, [], ◌∷◌, arith, ltb, leb, ◌==◌, if◌then◌else◌, length, get_or,
}
use esp32_rid.Payload.{ByteView, null_view, view, view_size, view_bytes, is_null}
use esp32_rid.Ble.{extended_max}
use esp32_rid.Wifi.{byte_at, is_message_pack}

-- `kOpenDroneIdMaxEncodedSize`.
abbrev pub max_encoded_size : ℕ
max_encoded_size = 153

pub data AdError : Type 0 where
  no_error invalid_payload payload_too_large : AdError

-- Whether the bytes are a single message or a message pack.
unfoldable pub is_encoded : ByteView → Bool
is_encoded messages =
    let single_message = view_size messages == 25 in
    let pack_length = leb 28 (view_size messages) && ((view_size messages - 3) % 25 == 0) in
    let message_pack =
      pack_length
      && not (is_null messages)
      && (byte_at messages 0 / 16 % 16 == 15)
      && (byte_at messages 1 == 25)
      && (byte_at messages 2 == (view_size messages - 3) / 25) in
    not (is_null messages || (not single_message && not message_pack))

unfoldable pub build_service_data : ByteView → ℕ → AdError × List ℕ
build_service_data messages counter =
    if ltb max_encoded_size (view_size messages)
    then (payload_too_large, [])
    else if not (is_encoded messages)
    then (invalid_payload, [])
    else (
      no_error,
      ((view_size messages + 4) % 256) ∷ 0x16 ∷ 0xfa ∷ 0xff ∷ counter ∷ view_bytes messages,
    )

-- A receiver of service data: the length of the structure, its type, the identifier of ASTM, the
-- counter, and the messages up to the end of the structure.
unfoldable pub parse_service_data : List ℕ → Option (ℕ × List ℕ)
parse_service_data (size ∷ kind ∷ low ∷ high ∷ counter ∷ rest) =
    if (kind == 0x16) && (low == 0xfa) && (high == 0xff) && (size == length rest + 4)
    then some (counter, rest)
    else none
parse_service_data _ = none

leb-ltb : (a b : ℕ) → leb a b ≡ not (ltb b a)
leb-ltb a b = ground arith

regroup :
    (single short whole kind size count : Bool)
    → not (not single && not (not short && whole && true && kind && size && count))
      ≡ (single || (true && not short && kind && size && count && whole))
regroup true short whole kind size count = refl
regroup false true whole kind size count = refl
regroup false false whole false size count = ground arith
regroup false false whole true false count = ground arith
regroup false false whole true true false = ground arith
regroup false false whole true true true = ground arith

-- Messages are taken if they are a single message or a pack that the Wi-Fi frame takes too.
encoded_lem :
    (messages : ByteView)
    → is_encoded messages
      ≡ (not (is_null messages) && ((view_size messages == 25) || is_message_pack messages))
unfolding is_encoded is_message_pack
encoded_lem (null_view n) = refl
encoded_lem (view xs) = rw (leb-ltb 28 (length xs)) (
    regroup (length xs == 25) (ltb (length xs) 28) ((length xs - 3) % 25 == 0)
      (get_or xs 0 0 / 16 % 16 == 15) (get_or xs 1 0 == 25) (get_or xs 2 0 == (length xs - 3) / 25))

built : ByteView → ℕ → List ℕ
built messages counter =
    ((view_size messages + 4) % 256) ∷ 0x16 ∷ 0xfa ∷ 0xff ∷ counter ∷ view_bytes messages

build_lem :
    (messages : ByteView) (counter : ℕ)
    → is_encoded messages ≡ true
    → ltb max_encoded_size (view_size messages) ≡ false
    → build_service_data messages counter ≡ (no_error, built messages counter)
unfolding build_service_data built
build_lem messages counter accepted small = rw (small, accepted, build_service_data) refl

view_length :
    (messages : ByteView)
    → is_null messages ≡ false
    → length (view_bytes messages) ≡ view_size messages
view_length (null_view n) h = absurd (ground (arith, h))
view_length (view xs) h = refl

received :
    (messages : ByteView) (counter : ℕ)
    → is_null messages ≡ false
    → view_size messages ≤ max_encoded_size
    → parse_service_data (built messages counter) ≡ some (counter, view_bytes messages)
unfolding built parse_service_data
received (null_view n) counter h le = absurd (ground (arith, h))
received (view xs) counter h le =
    let e : ((length xs + 4) % 256 == length xs + 4) ≡ true = ground arith in rw e refl

-- For a single message, or a pack that the Wi-Fi frame takes too, of at most 153 bytes: the data are
-- built, a receiver finds the counter and the messages again, and the data are five bytes longer
-- than the messages, which is within what an extended advertisement can carry.
pub parse-build :
    (messages : ByteView) (counter : ℕ)
    → is_null messages ≡ false
    → (view_size messages ≡ 25) ⊎ (is_message_pack messages ≡ true)
    → view_size messages ≤ max_encoded_size
    → let r = build_service_data messages counter in
      (r.0 ≡ no_error)
      × (parse_service_data r.1 ≡ some (counter, view_bytes messages))
      × (length r.1 ≡ view_size messages + 5)
      × (length r.1 ≤ extended_max)
unfolding built
parse-build messages counter h k le =
    rw
      (build_lem messages counter (encoded_lem messages ∙ ground (arith, h, k))
        (ground (arith, le)))
      (
        refl,
        received messages counter h le,
        omega (arith, view_length messages h),
        omega (arith, le, view_length messages h),
      )

-- For anything else the data are empty and there is an error.
pub build-error :
    (messages : ByteView) (counter : ℕ)
    → (is_null messages ≡ true)
      ⊎ (max_encoded_size < view_size messages)
      ⊎ ((view_size messages ≢ 25) × (is_message_pack messages ≡ false))
    → let r = build_service_data messages counter in (r.0 ≢ no_error) × (r.1 ≡ [])
unfolding build_service_data
build-error messages counter h = rw (encoded_lem messages, build_service_data) (ground (arith, h))
