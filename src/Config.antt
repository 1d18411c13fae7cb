-- ===== src/Config.antt =====
-- components/rid_config/config.cpp: the configuration, its validation and its expansion into
-- aircraft. A `std::string` is a list of bytes, a `std::set` the list of what went into it.
pub mod Valid
pub mod Expand
pub mod Tests
use mathlib.Core.Option
use esp32_rid.Prelude.{
  le→leb, All-map, ℕ, zero, suc, ◌+◌, ◌-◌, ◌*◌, ◌/◌, ◌%◌, ◌^◌, ◌≤◌, ◌<◌, ◌≡◌, refl, sym, ap, ◌∙◌,
  ◌≢◌, ◌↔◌, ◌⊎◌, inl, inr, Bool, true, false, not, ◌&&◌, ◌||◌, Option, none, some, List, [], ◌∷◌,
  ◌++◌, map, append-nil, append_assoc, arith, ltb, leb, ◌==◌, if◌then◌else◌, ltb→lt, lt→ltb, leb→le,
  ==_iff, Bool-cases, Option-cases, if_cases, All, length, get_or, set, take, drop, replicate,
  erase_at, length-append, length-set, length-take, length-drop, length-replicate, length-erase_at,
  length-erase_at-le, take-append, drop-append, take-append-drop, All-append, All-erase_at,
  All-get_or,
}
use esp32_rid.Prelude.Int.{ℤ, pos, at_least, at_most}
use esp32_rid.Model.{
  Protocol, gb46750, open_drone_id, Transport, ble4, is_wifi, is_ble, WifiMode, beacon, MessageKind,
  kind_value, GeoPoint, valid_latitude, valid_longitude,
}
use esp32_rid.Trajectory.{TrajectoryConfig, default_trajectory, valid_trajectory}
use esp32_rid.Identity.{Digest, derive_test_id}

abbrev pub message_kind_count : ℕ
message_kind_count = 6

abbrev pub max_aircraft : ℕ
max_aircraft = 50

pub record GroupConfig : Type 0 where
  pub name : List ℕ
  pub count : ℕ
  pub protocol : Protocol
  pub transport : Transport
  pub wifi_mode : WifiMode
  pub trajectory : TrajectoryConfig
  pub default_period : Option ℤ
  pub period_overrides : List (Option ℤ)

-- The constructor with four arguments; the other fields take their initialisers.
unfoldable pub new_group : List ℕ → ℕ → Protocol → Transport → GroupConfig
new_group name count protocol transport = record {
  name = name;
  count = count;
  protocol = protocol;
  transport = transport;
  wifi_mode = beacon;
  trajectory = default_trajectory;
  default_period = none;
  period_overrides = replicate message_kind_count none;
}

pub record SystemConfig : Type 0 where
  pub site : Option GeoPoint
  pub default_period : ℤ
  pub groups : List GroupConfig

unfoldable pub default_config : SystemConfig
default_config = record { site = none; default_period = pos 1000; groups = [] }

pub record AircraftConfig : Type 0 where
  pub identity : List ℕ
  pub group_index : ℕ
  pub instance_index : ℕ
  pub protocol : Protocol
  pub transport : Transport
  pub wifi_mode : WifiMode

pub data ConfigError : Type 0 where
  ok missing_site invalid_site no_aircraft too_many_aircraft invalid_group_name : ConfigError
  duplicate_group_name invalid_group_count invalid_period invalid_trajectory : ConfigError
  unsupported_combination identity_derivation_failed : ConfigError

unfoldable pub valid_period : ℤ → Bool
valid_period p = at_least 100 p && at_most 60000 p

unfoldable pub valid_site : GeoPoint → Bool
valid_site p = valid_latitude p.latitude_deg && valid_longitude p.longitude_deg

abbrev is_beacon : WifiMode → Bool
is_beacon beacon = true
is_beacon _ = false

abbrev pub is_odid : Protocol → Bool
is_odid open_drone_id = true
is_odid _ = false

abbrev is_gb : Protocol → Bool
is_gb gb46750 = true
is_gb _ = false

unfoldable pub supported : GroupConfig → Bool
supported g =
    if not (is_beacon g.wifi_mode) || (not (is_wifi g.transport) && not (is_ble g.transport))
    then false
    else if is_ble g.transport && not (is_beacon g.wifi_mode)
    then false
    else if is_gb g.protocol
    then is_wifi g.transport && is_beacon g.wifi_mode
    else is_odid g.protocol

-- The equality of strings by which the set of names tells them apart.
unfoldable pub bytes_eq : List ℕ → List ℕ → Bool
bytes_eq [] [] = true
bytes_eq [] (y ∷ ys) = false
bytes_eq (x ∷ xs) [] = false
bytes_eq (x ∷ xs) (y ∷ ys) = (x == y) && bytes_eq xs ys

unfoldable pub contains : List (List ℕ) → List ℕ → Bool
unfolding bytes_eq
contains [] name = false
contains (n ∷ ns) name = bytes_eq n name || contains ns name

abbrev pub period_ok : Option ℤ → Bool
period_ok none = true
period_ok (some p) = valid_period p

unfoldable pub periods_ok : List (Option ℤ) → Bool
periods_ok [] = true
periods_ok (p ∷ ps) = period_ok p && periods_ok ps

abbrev pub is_empty : List ℕ → Bool
is_empty [] = true
is_empty (x ∷ xs) = false

-- The checks on one group, in order, with the names seen so far.
unfoldable pub check_group : List (List ℕ) → GroupConfig → ConfigError
check_group names g =
    if is_empty g.name
    then invalid_group_name
    else if g.count == 0
    then invalid_group_count
    else if contains names g.name
    then duplicate_group_name
    else if not (supported g)
    then unsupported_combination
    else if not (valid_trajectory g.trajectory)
    then invalid_trajectory
    else if not (period_ok g.default_period)
    then invalid_period
    else if not (periods_ok g.period_overrides)
    then invalid_period
    else ok

-- The loop over the groups, with the names and the number of aircraft so far, and the last check.
unfoldable pub validate_groups : List (List ℕ) → ℕ → List GroupConfig → ConfigError
validate_groups names total [] = if total == 0 then no_aircraft else ok
validate_groups names total (g ∷ gs) =
    let rest = validate_groups (g.name ∷ names) (total + g.count) gs in
    elim (check_group names g) [
      | ok ↦ if ltb max_aircraft (total + g.count) then too_many_aircraft else rest
      | failed ↦ failed
    ]

unfoldable pub validate : SystemConfig → ConfigError
validate c = elim c.site [
  | none ↦ missing_site
  | some site ↦
      if not (valid_site site)
      then invalid_site
      else if not (valid_period c.default_period)
      then invalid_period
      else validate_groups [] 0 c.groups
]

pub data ExpandResult : Type 0 where
  failed : ConfigError → ExpandResult
  expanded : List AircraftConfig → ExpandResult

unfoldable pub effective_period : SystemConfig → GroupConfig → MessageKind → ℤ
effective_period system group kind = elim (get_or group.period_overrides (kind_value kind) none) [
  | some p ↦ p
  | none ↦ elim group.default_period [ some p ↦ p | none ↦ system.default_period ]
]

module _ (sha256 : Digest) (device : List ℕ) where
  -- The aircraft of one group, from an instance on, `rounds` of them; `none` for an identity that
  -- could not be derived.
  unfoldable pub expand_group : GroupConfig → ℕ → ℕ → ℕ → Option (List AircraftConfig)
  expand_group g group_index zero instance_index = some []
  expand_group g group_index (suc rounds) instance_index =
      let identity = derive_test_id sha256 device g.name instance_index g.protocol in
      let rest = expand_group g group_index rounds (instance_index + 1) in
      if is_empty identity
      then none
      else Option.map
          (λ (others : List AircraftConfig).
            record {
              identity = identity;
              group_index = group_index % 2 ^ 16;
              instance_index = instance_index;
              protocol = g.protocol;
              transport = g.transport;
              wifi_mode = g.wifi_mode;
            }
            ∷ others)
          rest

  unfoldable pub expand_groups : ℕ → List GroupConfig → Option (List AircraftConfig)
  expand_groups group_index [] = some []
  expand_groups group_index (g ∷ gs) =
      let rest = expand_groups (group_index + 1) gs in
      elim (expand_group g group_index g.count 0) [
        | none ↦ none
        | some first ↦ Option.map (λ (others : List AircraftConfig). first ++ others) rest
      ]

  unfoldable pub validate_and_expand : SystemConfig → ExpandResult
  validate_and_expand c = elim (validate c) [
    | ok ↦ elim (expand_groups 0 c.groups) [
      | none ↦ failed identity_derivation_failed
      | some aircraft ↦ expanded aircraft
    ]
    | error ↦ failed error
  ]
