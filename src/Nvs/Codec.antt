-- ===== src/Nvs/Codec.antt =====
-- `encode_config` and `decode_config` of components/rid_config/nvs_store.cpp.
pub mod Typed
pub mod RoundTrip
use esp32_rid.Prelude.{
  le→leb, All-map, ℕ, zero, suc, ◌+◌, ◌-◌, ◌*◌, ◌/◌, ◌%◌, ◌^◌, ◌≤◌, ◌<◌, ◌≡◌, refl, sym, ap, ◌∙◌,
  ◌≢◌, ◌↔◌, ◌⊎◌, inl, inr, Bool, true, false, not, ◌&&◌, ◌||◌, Option, none, some, List, [], ◌∷◌,
  ◌++◌, map, append-nil, append_assoc, arith, ltb, leb, ◌==◌, if◌then◌else◌, ltb→lt, lt→ltb, leb→le,
  ==_iff, Bool-cases, Option-cases, if_cases, All, length, get_or, set, take, drop, replicate,
  erase_at, length-append, length-set, length-take, length-drop, length-replicate, length-erase_at,
  length-erase_at-le, take-append, drop-append, take-append-drop, All-append, All-erase_at,
  All-get_or,
}
use esp32_rid.Prelude.Int.{ℤ, pos, negsuc, to_u32, of_u32}
use esp32_rid.Model.{
  Protocol, gb46750, open_drone_id, unknown_protocol, Transport, ble4, ble5, wifi24, wifi58,
  unknown_transport, WifiMode, beacon, nan, unknown_mode, GeoPoint, transport_value,
}
use esp32_rid.Trajectory.{
  TrajectoryType, hover, line, circle, rectangle, waypoint_loop, takeoff_cruise_land, unknown_type,
  EnuPoint, TrajectoryConfig,
}
use esp32_rid.Config.{
  GroupConfig, SystemConfig, ConfigError, ok, validate, message_kind_count, max_aircraft,
}
use esp32_rid.Nvs.Errors.{NvsStoreError, invalid_config, payload_too_large}
use esp32_rid.Nvs.Bytes.{
  Reader, ◌>>=◌, done, check, write_scalar, read_scalar, read_string, read_many, write_many,
}

abbrev pub max_payload_size : ℕ
max_payload_size = 32 * 1024

abbrev pub max_name_size : ℕ
max_name_size = 64

abbrev pub max_waypoints : ℕ
max_waypoints = 64

-- `static_cast<uint8_t>` of an enumeration, and back.
abbrev pub protocol_byte : Protocol → ℕ
protocol_byte gb46750 = 0
protocol_byte open_drone_id = 1
protocol_byte (unknown_protocol n) = n

abbrev pub byte_protocol : ℕ → Protocol
byte_protocol n = if n == 0 then gb46750 else if n == 1 then open_drone_id else unknown_protocol n

abbrev pub byte_transport : ℕ → Transport
byte_transport n =
    if n == 0
    then ble4
    else if n == 1
    then ble5
    else if n == 2
    then wifi24
    else if n == 3
    then wifi58
    else unknown_transport n

abbrev pub mode_byte : WifiMode → ℕ
mode_byte beacon = 0
mode_byte nan = 1
mode_byte (unknown_mode n) = n

abbrev pub byte_mode : ℕ → WifiMode
byte_mode n = if n == 0 then beacon else if n == 1 then nan else unknown_mode n

abbrev pub type_byte : TrajectoryType → ℕ
type_byte hover = 0
type_byte line = 1
type_byte circle = 2
type_byte rectangle = 3
type_byte waypoint_loop = 4
type_byte takeoff_cruise_land = 5
type_byte (unknown_type n) = n

abbrev pub byte_type : ℕ → TrajectoryType
byte_type n =
    if n == 0
    then hover
    else if n == 1
    then line
    else if n == 2
    then circle
    else if n == 3
    then rectangle
    else if n == 4
    then waypoint_loop
    else if n == 5
    then takeoff_cruise_land
    else unknown_type n

unfoldable pub write_optional_period : Option ℤ → List ℕ
write_optional_period none = write_scalar 4 (to_u32 (negsuc 0))
write_optional_period (some period) = write_scalar 4 (to_u32 period)

-- The check on the value of a period that was read; -1 is no period.
abbrev pub period_check : ℤ → Bool
period_check (pos n) = true
period_check (negsuc n) = n == 0

abbrev pub period_of : ℤ → Option ℤ
period_of (pos n) = some (pos n)
period_of (negsuc n) = none

unfoldable pub read_optional_period : Reader (Option ℤ)
read_optional_period = read_scalar 4 >>= λ bits.
    check (period_check (of_u32 bits)) >>= λ _. done (period_of (of_u32 bits))

unfoldable pub write_point : EnuPoint → List ℕ
write_point p = write_scalar 4 p.east_m ++ (write_scalar 4 p.north_m ++ write_scalar 4 p.up_m)

unfoldable pub read_point : Reader EnuPoint
read_point = read_scalar 4 >>= λ east. read_scalar 4 >>= λ north.
    read_scalar 4 >>= λ up. done (record { east_m = east; north_m = north; up_m = up })

-- The scalars of a trajectory and its waypoints.
unfoldable pub write_trajectory : TrajectoryConfig → List ℕ
write_trajectory t =
    write_scalar 1 (type_byte t.type)
    ++ (write_scalar 4 t.altitude_m
        ++ (write_scalar 4 t.speed_mps
            ++ (write_scalar 4 t.heading_deg
                ++ (write_scalar 4 t.primary_size_m
                    ++ (write_scalar 4 t.secondary_size_m
                        ++ (write_scalar 4 t.vertical_speed_mps
                            ++ (write_scalar 4 t.cruise_time_ms
                                ++ (write_scalar 2 (length t.waypoints)
                                    ++ write_many write_point t.waypoints))))))))

unfoldable pub read_trajectory : Reader TrajectoryConfig
read_trajectory = read_scalar 1 >>= λ type. read_scalar 4 >>= λ altitude. read_scalar 4 >>= λ speed.
    read_scalar 4 >>= λ heading. read_scalar 4 >>= λ primary. read_scalar 4 >>= λ secondary.
    read_scalar 4 >>= λ vertical. read_scalar 4 >>= λ cruise. read_scalar 2 >>= λ waypoint_count.
    check (leb waypoint_count max_waypoints) >>= λ _.
    read_many waypoint_count read_point >>= λ waypoints. done (record {
      type = byte_type type;
      altitude_m = altitude;
      speed_mps = speed;
      heading_deg = heading;
      primary_size_m = primary;
      secondary_size_m = secondary;
      vertical_speed_mps = vertical;
      cruise_time_ms = cruise;
      waypoints = waypoints;
    })

unfoldable pub write_group : GroupConfig → List ℕ
write_group g =
    write_scalar 2 (length g.name)
    ++ (g.name
        ++ (write_scalar 2 g.count
            ++ (write_scalar 1 (protocol_byte g.protocol)
                ++ (write_scalar 1 (transport_value g.transport)
                    ++ (write_scalar 1 (mode_byte g.wifi_mode)
                        ++ (write_trajectory g.trajectory
                            ++ (write_optional_period g.default_period
                                ++ write_many write_optional_period g.period_overrides)))))))

unfoldable pub read_group : Reader GroupConfig
read_group = read_scalar 2 >>= λ name_size. check (leb name_size max_name_size) >>= λ _.
    read_string name_size >>= λ name. read_scalar 2 >>= λ count. read_scalar 1 >>= λ protocol.
    read_scalar 1 >>= λ transport. read_scalar 1 >>= λ wifi_mode. read_trajectory >>= λ trajectory.
    read_optional_period >>= λ default_period.
    read_many message_kind_count read_optional_period >>= λ overrides. done (record {
      name = name;
      count = count;
      protocol = byte_protocol protocol;
      transport = byte_transport transport;
      wifi_mode = byte_mode wifi_mode;
      trajectory = trajectory;
      default_period = default_period;
      period_overrides = overrides;
    })

unfoldable pub write_site : Option GeoPoint → List ℕ
write_site none = write_scalar 1 0
write_site (some p) =
    write_scalar 1 1 ++ (write_scalar 8 p.latitude_deg ++ write_scalar 8 p.longitude_deg)

-- The site behind a byte that tells whether there is one.
abbrev pub read_located : Bool → Reader (Option GeoPoint)
read_located false = done none
read_located true = read_scalar 8 >>= λ latitude. read_scalar 8 >>= λ longitude.
    done (some (record { latitude_deg = latitude; longitude_deg = longitude }))

unfoldable pub read_site : Reader (Option GeoPoint)
read_site =
    read_scalar 1 >>= λ has_site. check (leb has_site 1) >>= λ _. read_located (not (has_site == 0))

-- The bytes of a configuration; the groups' sizes are checked apart.
unfoldable pub write_config : SystemConfig → List ℕ
write_config c =
    write_site c.site
    ++ (write_scalar 4 (to_u32 c.default_period)
        ++ (write_scalar 2 (length c.groups) ++ write_many write_group c.groups))

unfoldable pub read_config : Reader SystemConfig
read_config = read_site >>= λ site. read_scalar 4 >>= λ default_period.
    read_scalar 2 >>= λ group_count. check (leb group_count max_aircraft) >>= λ _.
    read_many group_count read_group >>= λ groups.
    done (record { site = site; default_period = of_u32 default_period; groups = groups })

-- No group has a name or a number of waypoints that the encoding refuses.
unfoldable pub groups_fit : List GroupConfig → Bool
groups_fit [] = true
groups_fit (g ∷ gs) =
    leb (length g.name) max_name_size
    && leb (length g.trajectory.waypoints) max_waypoints
    && groups_fit gs

-- `ValidationResult::ok`.
abbrev pub is_none : ConfigError → Bool
is_none ok = true
is_none error = false

abbrev pub is_valid : SystemConfig → Bool
is_valid c = is_none (validate c)

pub data EncodeResult : Type 0 where
  refused : NvsStoreError → EncodeResult
  encoded : List ℕ → EncodeResult

unfoldable pub encode_config : SystemConfig → EncodeResult
encode_config c =
    if not (is_valid c)
    then refused invalid_config
    else if ltb (2 ^ 16 - 1) (length c.groups)
    then refused payload_too_large
    else if not (groups_fit c.groups)
    then refused payload_too_large
    else if ltb max_payload_size (length (write_config c))
    then refused payload_too_large
    else encoded (write_config c)

-- `none` is `NvsStoreError::Corrupt`, the one error of `decode_config`.
unfoldable pub decode_config : List ℕ → Option SystemConfig
decode_config payload = elim (read_config payload) [
  | none ↦ none
  | some (c, []) ↦ if not (is_valid c) then none else some c
  | some (c, x ∷ xs) ↦ none
]
