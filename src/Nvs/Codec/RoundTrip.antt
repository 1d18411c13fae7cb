-- ===== src/Nvs/Codec/RoundTrip.antt =====
-- The decoder gives back the configuration that was encoded.
use esp32_rid.Nvs.Codec.{max_payload_size}
use mathlib.Core.Path.{subst}
use esp32_rid.Prelude.{
  le→leb, All-map, ℕ, ◌-◌, ◌%◌, ◌^◌, ◌≤◌, ◌<◌, ◌≡◌, refl, sym, ap, ◌∙◌, ◌⊎◌, inl, inr, true, false,
  Option, none, some, List, [], ◌∷◌, append-nil, arith, All, length,
}
use esp32_rid.Prelude.Int.{ℤ, pos, negsuc, to_u32, of_u32}
use esp32_rid.Model.{GeoPoint, transport_value, Transport, is_wifi, is_ble}
use esp32_rid.Trajectory.{
  hover, line, circle, rectangle, waypoint_loop, takeoff_cruise_land, unknown_type, TrajectoryType,
  valid_trajectory, TrajectoryConfig, EnuPoint,
}
use esp32_rid.Config.{GroupConfig, SystemConfig, ok, validate, message_kind_count, max_aircraft}
use esp32_rid.Config.Valid.{InRange, OptionInRange, GroupValid, Valid, total, validate_iff}
use esp32_rid.Nvs.Bytes.{write_many, read_many}
use esp32_rid.Nvs.Bytes.Reads.{
  Reads, Reads-bind, Reads-last, Reads-checked, Reads-done, Reads-scalar, Reads-string, Reads-many,
}
use esp32_rid.Nvs.Codec.Typed.{PointTyped, TrajectoryTyped, GroupTyped, SiteTyped, Typed}
use esp32_rid.Nvs.Codec.{
  write_point, read_point, write_optional_period, read_optional_period, write_trajectory,
  read_trajectory, write_group, read_group, write_site, read_site, write_config, read_config,
  groups_fit, is_valid, is_none, encode_config, decode_config, encoded, max_waypoints,
  max_name_size, byte_type, type_byte, byte_transport, byte_protocol, byte_mode, protocol_byte,
  mode_byte,
}

Reads-point : (p : EnuPoint) → PointTyped p → Reads read_point (write_point p) p
unfolding read_point write_point
Reads-point p h = Reads-bind _ (Reads-scalar 4 p.east_m h.east) (
    Reads-bind _ (Reads-scalar 4 p.north_m h.north)
      (Reads-last _ (Reads-scalar 4 p.up_m h.up) (Reads-done p p refl)))

Reads-period :
    (p : Option ℤ) → OptionInRange p → Reads read_optional_period (write_optional_period p) p
unfolding read_optional_period write_optional_period
Reads-period none h =
    Reads-last _ (Reads-scalar 4 (2 ^ 32 - 1) (omega arith))
      (Reads-checked _ refl (Reads-done none none refl))
Reads-period (some (pos n)) h =
    let e : of_u32 (n % 2 ^ 32) ≡ pos n = ground arith in
    Reads-last _ (Reads-scalar 4 (n % 2 ^ 32) (omega arith))
      (Reads-checked _ (rw e refl) (Reads-done _ (some (pos n)) (rw e refl)))
Reads-period (some (negsuc n)) h = absurd h

abbrev TypeRounds : TrajectoryType → Type 0
TypeRounds k = (type_byte k < 256) × (byte_type (type_byte k) ≡ k)

type_cases : (k : TrajectoryType) → TypeRounds k ⊎ ((n : ℕ) × (k ≡ unknown_type n))
type_cases hover = inl (omega arith, refl)
type_cases line = inl (omega arith, refl)
type_cases circle = inl (omega arith, refl)
type_cases rectangle = inl (omega arith, refl)
type_cases waypoint_loop = inl (omega arith, refl)
type_cases takeoff_cruise_land = inl (omega arith, refl)
type_cases (unknown_type n) = inr (n, refl)

valid_trajectory-TypeRounds : (t : TrajectoryConfig) → valid_trajectory t ≡ true → TypeRounds t.type
unfolding valid_trajectory
valid_trajectory-TypeRounds t h = elim (type_cases t.type) [
  | inl k ↦ k
  | inr (n, e) ↦ (let never : valid_trajectory t ≡ false = rw (e, valid_trajectory) in absurd (cc))
]

Reads-trajectory :
    (t : TrajectoryConfig)
    → TrajectoryTyped t
    → TypeRounds t.type
    → length t.waypoints ≤ max_waypoints
    → Reads read_trajectory (write_trajectory t) t
unfolding read_trajectory write_trajectory
Reads-trajectory t h k few = Reads-bind _ (Reads-scalar 1 (type_byte t.type) k.0) (
    Reads-bind _ (Reads-scalar 4 t.altitude_m h.altitude) (
      Reads-bind _ (Reads-scalar 4 t.speed_mps h.speed) (
        Reads-bind _ (Reads-scalar 4 t.heading_deg h.heading) (
          Reads-bind _ (Reads-scalar 4 t.primary_size_m h.primary) (
            Reads-bind _ (Reads-scalar 4 t.secondary_size_m h.secondary) (
              Reads-bind _ (Reads-scalar 4 t.vertical_speed_mps h.vertical) (
                Reads-bind _ (Reads-scalar 4 t.cruise_time_ms h.cruise) (
                  Reads-bind _ (Reads-scalar 2 (length t.waypoints) (omega arith)) (
                    Reads-checked _ (le→leb (length t.waypoints) max_waypoints few) (
                      Reads-last _
                        (Reads-many read_point write_point t.waypoints
                          (All-map Reads-point t.waypoints h.points))
                        (Reads-done _ t (rw k.1 refl))))))))))))

abbrev TransportRounds : Transport → Type 0
TransportRounds t = (transport_value t < 256) × (byte_transport (transport_value t) ≡ t)

known_transport : (t : Transport) → (is_wifi t ≡ true) ⊎ (is_ble t ≡ true) → TransportRounds t
known_transport t h = ground arith

-- A group as the encoder accepts it.
abbrev Accepted : GroupConfig → Type 0
Accepted g =
    GroupValid g
    × GroupTyped g
    × (length g.name ≤ max_name_size)
    × (length g.trajectory.waypoints ≤ max_waypoints)

supported-transport : (g : GroupConfig) → GroupValid g → TransportRounds g.transport
supported-transport g v = elim v.combination.1 [
  | inl (p, t) ↦ known_transport g.transport t
  | inr (p, t) ↦ known_transport g.transport (inl t)
]

supported-protocol :
    (g : GroupConfig)
    → GroupValid g
    → (protocol_byte g.protocol < 256) × (byte_protocol (protocol_byte g.protocol) ≡ g.protocol)
supported-protocol g v = elim v.combination.1 [
  | inl (p, t) ↦ rw p (omega arith, refl)
  | inr (p, t) ↦ rw p (omega arith, refl)
]

Reads-group : (g : GroupConfig) → Accepted g → Reads read_group (write_group g) g
unfolding read_group write_group
Reads-group g (v, h, short, few) =
    let k = supported-transport g v in
    let p = supported-protocol g v in
    let m : (mode_byte g.wifi_mode < 256) × (byte_mode (mode_byte g.wifi_mode) ≡ g.wifi_mode) =
      rw (v.combination.0) (omega arith, refl) in
    let overrides : Reads (read_many message_kind_count read_optional_period)
        (write_many write_optional_period g.period_overrides) g.period_overrides =
      subst
        (λ n.
          Reads (read_many n read_optional_period)
            (write_many write_optional_period g.period_overrides) g.period_overrides)
        h.overrides
        (Reads-many read_optional_period write_optional_period g.period_overrides
          (All-map Reads-period g.period_overrides v.overrides)) in
    Reads-bind _ (Reads-scalar 2 (length g.name) (omega arith)) (
      Reads-checked _ (le→leb (length g.name) max_name_size short) (
        Reads-bind _ (Reads-string g.name) (
          Reads-bind _ (Reads-scalar 2 g.count h.counted) (
            Reads-bind _ (Reads-scalar 1 (protocol_byte g.protocol) p.0) (
              Reads-bind _ (Reads-scalar 1 (transport_value g.transport) k.0) (
                Reads-bind _ (Reads-scalar 1 (mode_byte g.wifi_mode) m.0) (
                  Reads-bind _
                    (Reads-trajectory g.trajectory h.moving
                      (valid_trajectory-TypeRounds g.trajectory v.moving) few)
                    (Reads-bind _ (Reads-period g.default_period v.period)
                      (Reads-last _ overrides (Reads-done _ g (rw (p.1, k.1, m.1) refl)))))))))))

All-Accepted :
    (gs : List GroupConfig)
    → All GroupValid gs
    → All GroupTyped gs
    → groups_fit gs ≡ true
    → All Accepted gs
unfolding groups_fit
All-Accepted [] v h f = tt
All-Accepted (g ∷ gs) v h f =
    ((v.0, h.0, ground arith, ground arith), All-Accepted gs v.1 h.1 (ground arith))

-- Each group has an aircraft.
length-le-total : (gs : List GroupConfig) → All GroupValid gs → length gs ≤ total gs
length-le-total [] v = omega arith
length-le-total (g ∷ gs) v = omega (arith, length-le-total gs v.1, v.0.counted)

Reads-site : (s : Option GeoPoint) → SiteTyped s → Reads read_site (write_site s) s
unfolding read_site write_site
Reads-site none h =
    Reads-last _ (Reads-scalar 1 0 (omega arith)) (Reads-checked _ refl (Reads-done none none refl))
Reads-site (some p) h = Reads-bind _ (Reads-scalar 1 1 (omega arith)) (
    Reads-checked _ refl (
      Reads-bind _ (Reads-scalar 8 p.latitude_deg h.0)
        (Reads-last _ (Reads-scalar 8 p.longitude_deg h.1) (Reads-done _ (some p) refl))))

InRange-u32 : (p : ℤ) → InRange p → (to_u32 p < 2 ^ 32) × (of_u32 (to_u32 p) ≡ p)
InRange-u32 (pos n) h = (omega arith, ground arith)
InRange-u32 (negsuc n) h = absurd h

Reads-config :
    (c : SystemConfig)
    → Valid c
    → Typed c
    → groups_fit c.groups ≡ true
    → Reads read_config (write_config c) c
unfolding read_config write_config
Reads-config c v h f =
    let few : length c.groups ≤ max_aircraft =
      omega (arith, length-le-total c.groups v.groups, v.few_aircraft) in
    let p = InRange-u32 c.default_period v.period in
    Reads-bind _ (Reads-site c.site h.located) (
      Reads-bind _ (Reads-scalar 4 (to_u32 c.default_period) p.0) (
        Reads-bind _ (Reads-scalar 2 (length c.groups) (omega arith)) (
          Reads-checked _ (le→leb (length c.groups) max_aircraft few) (
            Reads-last _
              (Reads-many read_group write_group c.groups
                (All-map Reads-group c.groups (All-Accepted c.groups v.groups h.groups f)))
              (Reads-done _ c (rw (p.1) refl))))))

pub encode_config_cases :
    (c : SystemConfig) (payload : List ℕ)
    → encode_config c ≡ encoded payload
    → (validate c ≡ ok)
      × (groups_fit c.groups ≡ true)
      × (payload ≡ write_config c)
      × (length payload ≤ max_payload_size)
unfolding encode_config
encode_config_cases c payload e = ground arith

decode-read :
    (payload : List ℕ) (c : SystemConfig)
    → read_config payload ≡ some (c, [])
    → validate c ≡ ok
    → decode_config payload ≡ some c
unfolding decode_config
decode-read payload c r v = let a : is_valid c ≡ true = ap is_none v in rw (r, decode_config, a)

-- A payload that the encoder accepts is decoded to the configuration that was encoded, for every
-- configuration whose numbers fit the source's types.
pub decode-encode :
    (c : SystemConfig) (payload : List ℕ)
    → Typed c
    → encode_config c ≡ encoded payload
    → decode_config payload ≡ some c
decode-encode c payload h e =
    let (v, f, p, few) = encode_config_cases c payload e in
    let r = (Reads-config c ((validate_iff c).0 v) h f).run [] in
    decode-read payload c
      (subst (λ xs. read_config xs ≡ some (c, [])) (append-nil (write_config c) ∙ sym p) r) v
