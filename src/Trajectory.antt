-- ===== src/Trajectory.antt =====
-- components/rid_trajectory: the configuration of a trajectory and the test `valid` that the rest
-- of the program relies on. The sampling of positions is floating-point arithmetic and is left out.
pub mod Clock
use esp32_rid.Prelude.{
  le→leb, All-map, ℕ, zero, suc, ◌+◌, ◌-◌, ◌*◌, ◌/◌, ◌%◌, ◌^◌, ◌≤◌, ◌<◌, ◌≡◌, refl, sym, ap, ◌∙◌,
  ◌≢◌, ◌↔◌, ◌⊎◌, inl, inr, Bool, true, false, not, ◌&&◌, ◌||◌, Option, none, some, List, [], ◌∷◌,
  ◌++◌, map, append-nil, append_assoc, arith, ltb, leb, ◌==◌, if◌then◌else◌, ltb→lt, lt→ltb, leb→le,
  ==_iff, Bool-cases, Option-cases, if_cases, All, length, get_or, set, take, drop, replicate,
  erase_at, length-append, length-set, length-take, length-drop, length-replicate, length-erase_at,
  length-erase_at-le, take-append, drop-append, take-append-drop, All-append, All-erase_at,
  All-get_or,
}
use esp32_rid.Model.Floats.{Float, is_finite32, le32, lt32, eq32}

pub data TrajectoryType : Type 0 where
  hover line circle rectangle waypoint_loop takeoff_cruise_land : TrajectoryType
  unknown_type : ℕ → TrajectoryType

pub record EnuPoint : Type 0 where
  pub east_m : Float
  pub north_m : Float
  pub up_m : Float

pub record TrajectoryConfig : Type 0 where
  pub type : TrajectoryType
  pub altitude_m : Float
  pub speed_mps : Float
  pub heading_deg : Float
  pub primary_size_m : Float
  pub secondary_size_m : Float
  pub vertical_speed_mps : Float
  pub cruise_time_ms : ℕ
  pub waypoints : List EnuPoint

-- `TrajectoryConfig{}`: +0.0 is the pattern 0.
unfoldable pub default_trajectory : TrajectoryConfig
default_trajectory = record {
  type = hover;
  altitude_m = 0;
  speed_mps = 0;
  heading_deg = 0;
  primary_size_m = 0;
  secondary_size_m = 0;
  vertical_speed_mps = 0;
  cruise_time_ms = 0;
  waypoints = [];
}

unfoldable pub finite_nonnegative : Float → Bool
finite_nonnegative f = is_finite32 f && le32 0 f

unfoldable pub finite_positive : Float → Bool
finite_positive f = is_finite32 f && lt32 0 f

-- `waypoints[(i + 1) % size]`, for the points behind `i` and the first of all.
abbrev next_point : List EnuPoint → EnuPoint → EnuPoint
next_point [] first = first
next_point (p ∷ ps) first = p

abbrev differs : EnuPoint → EnuPoint → Bool
differs p q = not (eq32 p.east_m q.east_m) || not (eq32 p.north_m q.north_m)

-- The loop over the waypoints; `seen` is `has_horizontal_segment`.
unfoldable pub valid_waypoints : EnuPoint → Bool → List EnuPoint → Bool
unfolding finite_nonnegative
valid_waypoints first seen [] = seen
valid_waypoints first seen (p ∷ ps) =
    let rest = valid_waypoints first (seen || differs p (next_point ps first)) ps in
    if not (is_finite32 p.east_m) || not (is_finite32 p.north_m) || not (finite_nonnegative p.up_m)
    then false
    else rest

abbrev loop_of : List EnuPoint → Bool
loop_of [] = false
loop_of (p ∷ ps) = if ltb (length ps) 1 then false else valid_waypoints p false (p ∷ ps)

-- `valid(const TrajectoryConfig &)`.
unfoldable pub valid_trajectory : TrajectoryConfig → Bool
unfolding finite_nonnegative finite_positive valid_waypoints
valid_trajectory c = elim c.type [
  | hover ↦ finite_nonnegative c.altitude_m
  | line ↦
      finite_positive c.primary_size_m
      && finite_positive c.speed_mps
      && finite_nonnegative c.altitude_m
      && is_finite32 c.heading_deg
      && le32 0 c.heading_deg
      && lt32 c.heading_deg 0x43b40000
  | circle ↦
      finite_positive c.primary_size_m
      && finite_positive c.speed_mps
      && finite_nonnegative c.altitude_m
  | rectangle ↦
      finite_positive c.primary_size_m
      && finite_positive c.secondary_size_m
      && finite_positive c.speed_mps
      && finite_nonnegative c.altitude_m
  | waypoint_loop ↦ finite_positive c.speed_mps && loop_of c.waypoints
  | takeoff_cruise_land ↦ finite_positive c.altitude_m && finite_positive c.vertical_speed_mps
  | unknown_type n ↦ false
]
