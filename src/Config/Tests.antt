-- ===== src/Config/Tests.antt =====
-- A concrete configuration, validated and expanded, with a hash that is easy to compute.
use mathlib.Core.Option.{some-injective}
use mathlib.Core.Path.{subst}
use esp32_rid.Prelude.{
  ℕ, zero, suc, ◌%◌, ◌≤◌, ◌<◌, ◌≡◌, refl, ◌≢◌, ◌↔◌, ◌⊎◌, none, some, List, [], ◌∷◌, ◌++◌, arith,
  All, length, take, replicate,
}
use esp32_rid.Prelude.Int.{pos}
use esp32_rid.Identity.{Digest, hashed, test_prefix, unhex, IsHex, derive_test_id_lem}
use esp32_rid.Model.{
  GeoPoint, open_drone_id, gb46750, ble5, wifi24, location, valid_latitude, valid_longitude,
}
use esp32_rid.Model.Floats.{is_finite32, is_finite64, is_nan64, le64, le32, signed_le, is_nan32}
use esp32_rid.Config.{
  GroupConfig, SystemConfig, new_group, validate, valid_site, valid_period, validate_groups,
  check_group, contains, bytes_eq, supported, periods_ok, default_config, ok, missing_site,
  effective_period, failed, expanded, validate_and_expand, identity_derivation_failed, max_aircraft,
}
use esp32_rid.Identity.{derive_test_id}
use esp32_rid.Trajectory.{default_trajectory, valid_trajectory, finite_nonnegative}
use esp32_rid.Config.Valid.{Valid, InRange, validate_iff, effective_period-InRange}
use esp32_rid.Config.Expand.{fleet, Underived, Derived, validate_and_expand_lem}

-- 32 bytes that tell how much was hashed.
abbrev digest : Digest
digest xs = some (replicate 32 (length xs % 256))

abbrev pub site : GeoPoint
site = record { latitude_deg = 0x4044000000000000; longitude_deg = 0x405d000000000000 }

abbrev pub group_a : GroupConfig
group_a = new_group (97 ∷ []) 2 open_drone_id ble5

abbrev pub group_b : GroupConfig
group_b = record (new_group (98 ∷ []) 1 gb46750 wifi24) { default_period = some (pos 500) }

abbrev pub system : SystemConfig
system = record { site = some site; default_period = pos 1000; groups = group_a ∷ group_b ∷ [] }

pub system_ok : validate system ≡ ok
unfolding validate valid_site valid_period validate_groups check_group contains bytes_eq supported
    periods_ok new_group default_trajectory valid_trajectory valid_latitude valid_longitude
    is_finite64 le64 signed_le is_nan64 finite_nonnegative is_finite32 le32 is_nan32
system_ok = refl

no_site : validate default_config ≡ missing_site
unfolding validate default_config
no_site = refl

two_periods :
    (effective_period system group_a location ≡ pos 1000)
    × (effective_period system group_b location ≡ pos 500)
unfolding effective_period new_group
two_periods = (refl, refl)

validate_iff_example : (validate system ≡ ok) ↔ Valid system
validate_iff_example = validate_iff system

effective_period-InRange_example :
    All (λ g. InRange (effective_period system g location)) system.groups
effective_period-InRange_example = effective_period-InRange system location system_ok

validate_and_expand_lem_example :
    let result = validate_and_expand digest (1 ∷ 2 ∷ []) system in
    ((validate system ≢ ok) × (result ≡ failed (validate system)))
    ⊎ ((validate system ≡ ok)
        × (result ≡ failed identity_derivation_failed)
        × Underived (fleet digest (1 ∷ 2 ∷ []) 0 system.groups))
    ⊎ ((validate system ≡ ok)
        × (result ≡ expanded (fleet digest (1 ∷ 2 ∷ []) 0 system.groups))
        × Derived (fleet digest (1 ∷ 2 ∷ []) 0 system.groups)
        × (0 < length (fleet digest (1 ∷ 2 ∷ []) 0 system.groups))
        × (length (fleet digest (1 ∷ 2 ∷ []) 0 system.groups) ≤ max_aircraft))
validate_and_expand_lem_example = validate_and_expand_lem digest (1 ∷ 2 ∷ []) system

All-replicate : (n b : ℕ) → b < 256 → All (λ c. c < 256) (replicate n b)
All-replicate zero b h = tt
All-replicate (suc n) b h = (h, All-replicate n b h)

digest_full : (xs ys : List ℕ) → digest xs ≡ some ys → (length ys ≡ 32) × All (λ b. b < 256) ys
digest_full xs ys h =
    subst (λ zs. (length zs ≡ 32) × All (λ b. b < 256) zs)
      (some-injective (replicate 32 (length xs % 256)) ys h)
      (refl, All-replicate 32 (length xs % 256) (omega arith))

derive_test_id_lem_example :
    let id = derive_test_id digest (1 ∷ 2 ∷ []) (97 ∷ []) 7 open_drone_id in
    ((digest (hashed (1 ∷ 2 ∷ []) (97 ∷ []) 7 open_drone_id) ≡ none) × (id ≡ []))
    ⊎ ((hash digits : List ℕ) × (digest (hashed (1 ∷ 2 ∷ []) (97 ∷ []) 7 open_drone_id) ≡ some hash)
        × (id ≡ test_prefix ++ digits)
        × (unhex digits ≡ take 8 hash)
        × (length digits ≡ 16)
        × All IsHex digits)
derive_test_id_lem_example =
    derive_test_id_lem digest (1 ∷ 2 ∷ []) (97 ∷ []) 7 open_drone_id digest_full
