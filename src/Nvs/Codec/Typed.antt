-- ===== src/Nvs/Codec/Typed.antt =====
-- What the source's types guarantee of a configuration: numbers within their widths, floating-point
-- numbers as bit patterns, and an array of six overrides.
use esp32_rid.Prelude.{◌^◌, ◌<◌, ◌≡◌, Option, none, some, All, length}
use esp32_rid.Model.{GeoPoint}
use esp32_rid.Trajectory.{EnuPoint, TrajectoryConfig}
use esp32_rid.Config.{GroupConfig, SystemConfig, message_kind_count}

pub record PointTyped (p : EnuPoint) : Type 0 where
  pub east : p.east_m < 2 ^ 32
  pub north : p.north_m < 2 ^ 32
  pub up : p.up_m < 2 ^ 32

pub record TrajectoryTyped (t : TrajectoryConfig) : Type 0 where
  pub altitude : t.altitude_m < 2 ^ 32
  pub speed : t.speed_mps < 2 ^ 32
  pub heading : t.heading_deg < 2 ^ 32
  pub primary : t.primary_size_m < 2 ^ 32
  pub secondary : t.secondary_size_m < 2 ^ 32
  pub vertical : t.vertical_speed_mps < 2 ^ 32
  pub cruise : t.cruise_time_ms < 2 ^ 32
  pub points : All PointTyped t.waypoints

pub record GroupTyped (g : GroupConfig) : Type 0 where
  pub counted : g.count < 2 ^ 16
  pub moving : TrajectoryTyped g.trajectory
  pub overrides : length g.period_overrides ≡ message_kind_count

abbrev pub SiteTyped : Option GeoPoint → Type 0
SiteTyped none = Unit
SiteTyped (some p) = (p.latitude_deg < 2 ^ 64) × (p.longitude_deg < 2 ^ 64)

pub record Typed (c : SystemConfig) : Type 0 where
  pub located : SiteTyped c.site
  pub groups : All GroupTyped c.groups
