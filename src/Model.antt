-- ===== src/Model.antt =====
-- components/rid_model: the enumerations and records that every component shares. An enumeration
-- with an 8-bit underlying type also holds the values that a cast from a byte gives it.
pub mod Floats
use esp32_rid.Prelude.{
  ℕ, zero, suc, ◌+◌, ◌-◌, ◌*◌, ◌/◌, ◌%◌, ◌^◌, ◌≤◌, ◌<◌, ◌≡◌, refl, sym, ap, ◌∙◌, ◌≢◌, ◌↔◌, ◌⊎◌, inl,
  inr, Bool, true, false, not, ◌&&◌, ◌||◌, Option, none, some, List, [], ◌∷◌, ◌++◌, map, append-nil,
  append_assoc, arith, ltb, leb, ◌==◌, if◌then◌else◌, ltb→lt, lt→ltb, leb→le, ==_iff, Bool-cases,
  Option-cases, All, length, get_or, set, take, drop, replicate, erase_at, length-append,
  length-set, length-take, length-drop, length-replicate, length-erase_at, length-erase_at-le,
  take-append, drop-append, take-append-drop, All-append, All-erase_at, All-get_or,
}
use Floats.{Double, Float, is_finite64, is_finite32, le64, le32, lt32}

pub data Protocol : Type 0 where
  gb46750 open_drone_id : Protocol
  unknown_protocol : ℕ → Protocol

pub data Transport : Type 0 where
  ble4 ble5 wifi24 wifi58 : Transport
  unknown_transport : ℕ → Transport

pub data WifiMode : Type 0 where
  beacon nan : WifiMode
  unknown_mode : ℕ → WifiMode

pub data MessageKind : Type 0 where
  basic_id location authentication self_id system operator_id : MessageKind

-- `static_cast<size_t>(transport)`.
abbrev pub transport_value : Transport → ℕ
transport_value ble4 = 0
transport_value ble5 = 1
transport_value wifi24 = 2
transport_value wifi58 = 3
transport_value (unknown_transport n) = n

abbrev pub is_wifi : Transport → Bool
is_wifi wifi24 = true
is_wifi wifi58 = true
is_wifi _ = false

abbrev pub is_ble : Transport → Bool
is_ble ble4 = true
is_ble ble5 = true
is_ble _ = false

abbrev pub kind_value : MessageKind → ℕ
kind_value basic_id = 0
kind_value location = 1
kind_value authentication = 2
kind_value self_id = 3
kind_value system = 4
kind_value operator_id = 5

pub record GeoPoint : Type 0 where
  pub latitude_deg : Double
  pub longitude_deg : Double

pub record FlightState : Type 0 where
  pub latitude_deg : Double
  pub longitude_deg : Double
  pub altitude_msl_m : Float
  pub height_agl_m : Float
  pub horizontal_speed_mps : Float
  pub vertical_speed_mps : Float
  pub heading_deg : Float
  pub airborne : Bool
  pub relative_time_ms : ℕ

-- The bit patterns of the constants that the code compares with.
abbrev pub zero_f : Float
zero_f = 0

abbrev pub full_turn_f : Float
full_turn_f = 0x43b40000

abbrev pub minus_90 : Double
minus_90 = 0xc056800000000000

abbrev pub plus_90 : Double
plus_90 = 0x4056800000000000

abbrev pub minus_180 : Double
minus_180 = 0xc066800000000000

abbrev pub plus_180 : Double
plus_180 = 0x4066800000000000

unfoldable pub valid_latitude : Double → Bool
valid_latitude d = is_finite64 d && le64 minus_90 d && le64 d plus_90

unfoldable pub valid_longitude : Double → Bool
valid_longitude d = is_finite64 d && le64 minus_180 d && le64 d plus_180

-- `valid(const FlightState &)`.
unfoldable pub valid_state : FlightState → Bool
unfolding valid_latitude valid_longitude
valid_state s =
    valid_latitude s.latitude_deg
    && valid_longitude s.longitude_deg
    && is_finite32 s.altitude_msl_m
    && is_finite32 s.height_agl_m
    && is_finite32 s.horizontal_speed_mps
    && le32 zero_f s.horizontal_speed_mps
    && is_finite32 s.vertical_speed_mps
    && is_finite32 s.heading_deg
    && le32 zero_f s.heading_deg
    && lt32 s.heading_deg full_turn_f
