-- ===== src/Nvs/Tests.antt =====
-- The store on a concrete configuration.
use esp32_rid.Prelude.{◌≡◌, refl, ap, true, some, arith, length}
use esp32_rid.Config.{new_group}
use esp32_rid.Trajectory.{default_trajectory}
use esp32_rid.Config.Tests.{system, system_ok}
use esp32_rid.Nvs.Bytes.{write_scalar, write_many}
use esp32_rid.Nvs.Codec.{
  write_config, write_site, write_group, write_trajectory, write_optional_period, groups_fit,
  encode_config, decode_config, encoded, is_none, is_valid,
}
use esp32_rid.Nvs.Codec.Typed.{TrajectoryTyped, Typed}
use esp32_rid.Nvs.Codec.RoundTrip.{decode-encode}

system-is_valid : is_valid system ≡ true
system-is_valid = ap is_none system_ok

system_groups_fit : groups_fit system.groups ≡ true
unfolding groups_fit new_group default_trajectory
system_groups_fit = refl

system-length : length (write_config system) ≡ 157
unfolding write_config write_site write_group write_trajectory write_optional_period write_scalar
    write_many new_group default_trajectory
system-length = refl

pub encode_system : encode_config system ≡ encoded (write_config system)
unfolding encode_config
encode_system = rw (system-is_valid, encode_config, system_groups_fit, system-length)

hovering : TrajectoryTyped default_trajectory
unfolding default_trajectory
hovering = record {
  altitude = omega arith;
  speed = omega arith;
  heading = omega arith;
  primary = omega arith;
  secondary = omega arith;
  vertical = omega arith;
  cruise = omega arith;
  points = tt;
}

pub system-Typed : Typed system
unfolding new_group
system-Typed = record {
  located = (omega arith, omega arith);
  groups = (
    record { counted = omega arith; moving = hovering; overrides = refl },
    (record { counted = omega arith; moving = hovering; overrides = refl }, tt),
  );
}

decode-encode_example : decode_config (write_config system) ≡ some system
decode-encode_example = decode-encode system (write_config system) system-Typed encode_system
