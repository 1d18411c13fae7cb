-- ===== src/Wifi.antt =====
-- components/rid_radio/wifi_transport.cpp: the construction and the validation of Beacon frames. A
-- `WifiFrame` is the bytes before its size; a null address is `none`.
pub mod Valid
pub mod Tests
use esp32_rid.Prelude.{
  le→leb, All-map, ℕ, zero, suc, ◌+◌, ◌-◌, ◌*◌, ◌/◌, ◌%◌, ◌^◌, ◌≤◌, ◌<◌, ◌≡◌, refl, sym, ap, ◌∙◌,
  ◌≢◌, ◌↔◌, ◌⊎◌, inl, inr, Bool, true, false, not, ◌&&◌, ◌||◌, Option, none, some, List, [], ◌∷◌,
  ◌++◌, map, append-nil, append_assoc, arith, ltb, leb, ◌==◌, if◌then◌else◌, ltb→lt, lt→ltb, leb→le,
  ==_iff, Bool-cases, Option-cases, if_cases, All, length, get_or, set, take, drop, replicate,
  erase_at, length-append, length-set, length-take, length-drop, length-replicate, length-erase_at,
  length-erase_at-le, take-append, drop-append, take-append-drop, All-append, All-erase_at,
  All-get_or,
}
use esp32_rid.Payload.{ByteView, null_view, view, view_size, view_bytes, is_null}

pub data FrameError : Type 0 where
  frame_ok invalid_argument payload_too_large invalid_frame : FrameError

abbrev pub max_frame_size : ℕ
max_frame_size = 512

abbrev pub max_vendor_payload : ℕ
max_vendor_payload = 249

-- `kBeaconHeaderSize + kBeaconFixedBodySize`.
abbrev pub fixed_size : ℕ
fixed_size = 24 + 12

-- The header and the fixed body for an address.
unfoldable pub beacon_header : List ℕ → List ℕ
beacon_header address =
    (0x80 ∷ 0 ∷ 0 ∷ 0 ∷ 0xff ∷ 0xff ∷ 0xff ∷ 0xff ∷ 0xff ∷ 0xff ∷ [])
    ++ (take 6 address
        ++ (take 6 address ++ (0 ∷ 0 ∷ 0 ∷ 0 ∷ 0 ∷ 0 ∷ 0 ∷ 0 ∷ 0 ∷ 0 ∷ 0x64 ∷ 0 ∷ 1 ∷ 4 ∷ [])))

-- The information elements: the SSID, the rates and the vendor element.
unfoldable pub beacon_elements : List ℕ → ℕ → List ℕ → List ℕ
beacon_elements ssid counter payload =
    0
    ∷ (length ssid % 256)
    ∷ (ssid
        ++ (1
            ∷ 1
            ∷ 0x8c
            ∷ 0xdd
            ∷ ((5 + length payload) % 256)
            ∷ 0xfa
            ∷ 0x0b
            ∷ 0xbc
            ∷ 0x0d
            ∷ counter
            ∷ payload))

abbrev pub is_missing : Option (List ℕ) → Bool
is_missing none = true
is_missing (some address) = false

abbrev pub address_bytes : Option (List ℕ) → List ℕ
address_bytes none = []
address_bytes (some address) = address

-- The error and the frame, which is empty on an error.
unfoldable pub build_gb_beacon : Option (List ℕ) → ByteView → ℕ → ByteView → FrameError × List ℕ
build_gb_beacon address ssid counter payload =
    if is_missing address
      || (not (view_size ssid == 0) && is_null ssid)
      || view_size payload == 0
      || is_null payload
    then (invalid_argument, [])
    else if ltb 32 (view_size ssid) || ltb max_vendor_payload (view_size payload)
    then (payload_too_large, [])
    else if ltb max_frame_size (fixed_size + 2 + view_size ssid + 3 + 2 + 5 + view_size payload)
    then (payload_too_large, [])
    else (
      frame_ok,
      beacon_header (address_bytes address)
          ++ beacon_elements (view_bytes ssid) counter (view_bytes payload),
    )

abbrev pub byte_at : ByteView → ℕ → ℕ
byte_at v i = get_or (view_bytes v) i 0

-- Whether a message pack is one of OpenDroneID: its type, the size and the number of its messages.
unfoldable pub is_message_pack : ByteView → Bool
is_message_pack pack =
    not (is_null pack)
    && not (ltb (view_size pack) 28)
    && (byte_at pack 0 / 16 % 16 == 15)
    && (byte_at pack 1 == 25)
    && (byte_at pack 2 == (view_size pack - 3) / 25)
    && ((view_size pack - 3) % 25 == 0)

unfoldable pub build_opendroneid_beacon :
    Option (List ℕ) → ByteView → ℕ → ByteView → FrameError × List ℕ
build_opendroneid_beacon address ssid counter pack =
    if not (is_message_pack pack)
    then (invalid_argument, [])
    else build_gb_beacon address ssid counter pack

-- The loop of `valid_beacon_ies` over the bytes that are left, with the three flags.
unfoldable pub valid_elements : ℕ → List ℕ → Bool → Bool → Bool → Bool
valid_elements zero rest has_ssid has_rates has_vendor =
    (length rest == 0) && has_ssid && has_rates && has_vendor
valid_elements (suc fuel) [] has_ssid has_rates has_vendor = has_ssid && has_rates && has_vendor
valid_elements (suc fuel) (x ∷ []) has_ssid has_rates has_vendor = false
valid_elements (suc fuel) (id ∷ size ∷ rest) has_ssid has_rates has_vendor =
    let next =
      valid_elements fuel (drop size rest) (has_ssid || ((id == 0) && leb size 32))
        (has_rates || ((id == 1) && ltb 0 size && leb size 8))
        (has_vendor || ((id == 0xdd) && leb 4 size)) in
    if ltb (length rest) size then false else next

unfoldable pub validate_opendroneid_beacon : ByteView → FrameError
validate_opendroneid_beacon frame =
    if is_null frame
      || ltb (view_size frame) (fixed_size + 2)
      || ltb max_frame_size (view_size frame)
      || not (byte_at frame 0 / 4 % 64 == 32)
    then invalid_frame
    else if valid_elements (view_size frame) (drop fixed_size (view_bytes frame)) false false false
    then frame_ok
    else invalid_frame
