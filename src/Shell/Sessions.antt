-- ===== src/Shell/Sessions.antt =====
-- Tests of the commands of the shell.
use esp32_rid.Prelude.{ℕ, ◌%◌, ◌≡◌, refl, true, none, some, List, [], ◌∷◌, length, replicate}
use esp32_rid.Model.Floats.{
  Double, is_finite32, is_finite64, is_nan64, le64, le32, signed_le, is_nan32,
}
use esp32_rid.Model.{valid_latitude, valid_longitude}
use esp32_rid.Identity.{Digest, derive_test_id, hex_bytes}
use esp32_rid.Trajectory.{default_trajectory, valid_trajectory, finite_nonnegative}
use esp32_rid.Config.{
  default_config, expand_groups, expand_group, validate_and_expand, validate, valid_site,
  valid_period, validate_groups, check_group, contains, bytes_eq, supported, periods_ok, new_group,
}
use esp32_rid.Shell.Words.{
  text, words, split, number, digits_value, parse_protocol, parse_transport, decimal,
}
use esp32_rid.Shell.Commands.{
  Shell, Callback, handle_site, handle_group, group_offset, add_group, parse_group,
}
use esp32_rid.Shell.Handle.{call, handle, handle_tokens, handle_config, handle_apply, handle_save}
use esp32_rid.Shell.Outcome.{Outcome}
use esp32_rid.Shell.Handling.{session, AppliedValid, handle-Outcome, session-AppliedValid}

digest : Digest
digest xs = some (replicate 32 (length xs % 256))

-- Every word reads as 40.
strtod : List ℕ → Double × ℕ
strtod token = (0x4044000000000000, length token)

-- Callbacks that keep the generations that they are called with.
abbrev noting : Callback (List ℕ)
noting config generation w = (true, generation ∷ w)

abbrev start : Shell (List ℕ)
start = record {
  staged = default_config;
  applied = none;
  generation = 6;
  apply_callback = some noting;
  save_callback = some noting;
}

abbrev lines : List (List ℕ)
lines =
    text "config apply"
    ∷ text "site set latitude 40 longitude 40"
    ∷ text "group add demo 2 odid ble5"
    ∷ text "config apply"
    ∷ text "group clear"
    ∷ text "config apply"
    ∷ text "config save"
    ∷ []

applied_once :
    let s = session digest (1 ∷ []) strtod lines start [] in
    (s.1 ≡ 7 ∷ 7 ∷ []) × (s.0.generation ≡ 7) × (s.0.staged.groups ≡ [])
unfolding session handle handle_tokens handle_config handle_apply handle_save call handle_site
    handle_group group_offset add_group parse_group words split text number digits_value
    parse_protocol parse_transport decimal strtod validate_and_expand expand_groups expand_group
    derive_test_id hex_bytes digest validate valid_site valid_period validate_groups check_group
    contains bytes_eq supported default_config periods_ok new_group default_trajectory
    valid_trajectory valid_latitude valid_longitude is_finite64 le64 signed_le is_nan64
    finite_nonnegative is_finite32 le32 is_nan32
applied_once = (refl, refl, refl)

handle-Outcome_example :
    Outcome start [] (handle digest (1 ∷ []) strtod (text "config apply") start [])
handle-Outcome_example = handle-Outcome digest (1 ∷ []) strtod (text "config apply") start []

session-AppliedValid_example :
    AppliedValid ((session digest (1 ∷ []) strtod lines start []).0.applied)
session-AppliedValid_example = session-AppliedValid digest (1 ∷ []) strtod lines start [] tt
