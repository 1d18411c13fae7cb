-- ===== src/Shell/Handle.antt =====
-- The commands of components/rid_shell/shell.cpp about the whole configuration, and `Shell::handle`.
use esp32_rid.Prelude.{
  ℕ, ◌+◌, ◌%◌, ◌^◌, Bool, true, false, not, ◌&&◌, ◌||◌, Option, none, some, List, [], ◌∷◌, ◌++◌,
  ◌==◌, if◌then◌else◌, length,
}
use esp32_rid.Model.Floats.{Double}
use esp32_rid.Identity.{Digest}
use esp32_rid.Config.{SystemConfig, failed, expanded, validate_and_expand}
use esp32_rid.Shell.Words.{text, is_text, words, aircraft_count, show}
use esp32_rid.Shell.Commands.{
  Callback, Shell, Handled, new_line, token, help_reply, status_reply, list_fleet, group_offset,
  restage, refuse, answer, handle_site, handle_group,
}

abbrev pub is_empty_line : List (List ℕ) → Bool
is_empty_line [] = true
is_empty_line (t ∷ ts) = false

-- A call of a callback, which fails if it is not set.
unfoldable pub call : {W : Type 0} → Option (Callback W) → SystemConfig → ℕ → W → Bool × W
call none config generation w = (false, w)
call (some callback) config generation w = callback config generation w

module _ {W : Type 0} (sha256 : Digest) (device : List ℕ) where
  unfoldable pub handle_fleet : Shell W → W → Handled W
  handle_fleet s w = elim (validate_and_expand sha256 device s.staged) [
    | failed e ↦ refuse s w "INVALID_CONFIG"
    | expanded aircraft ↦
        answer s w (text "OK fleet=" ++ (show (length aircraft) ++ list_fleet aircraft))
  ]

  unfoldable pub handle_check : Shell W → W → Handled W
  handle_check s w = elim (validate_and_expand sha256 device s.staged) [
    | failed e ↦ refuse s w "INVALID_CONFIG"
    | expanded aircraft ↦ answer s w (text "OK aircraft=" ++ (show (length aircraft) ++ new_line))
  ]

  unfoldable pub handle_apply : Shell W → W → Handled W
  handle_apply s w = elim (validate_and_expand sha256 device s.staged) [
    | failed e ↦ refuse s w "INVALID_CONFIG"
    | expanded aircraft ↦
        let next = (s.generation + 1) % 2 ^ 32 in
        let (accepted, w') = call s.apply_callback s.staged next w in
        if not accepted then refuse s w' "OPERATION_FAILED" else (
          text "OK generation="
              ++ (show next ++ (text " running=" ++ (show (length aircraft) ++ new_line))),
          record s { applied = some (s.staged); generation = next },
          w',
        )
  ]

  unfoldable pub handle_save : Shell W → W → Handled W
  handle_save s w = elim s.applied [
    | none ↦ refuse s w "NO_APPLIED_CONFIG"
    | some config ↦
        let (saved, w') = call s.save_callback config s.generation w in
        if not saved
        then refuse s w' "OPERATION_FAILED"
        else answer s w' (text "OK saved generation=" ++ (show s.generation ++ new_line))
  ]

  unfoldable pub handle_rollback : Shell W → W → Handled W
  handle_rollback s w = elim s.applied [
    | none ↦ refuse s w "NO_APPLIED_CONFIG"
    | some config ↦
        restage s config w
          (text "OK rollback running=" ++ (show (aircraft_count config.groups) ++ new_line))
  ]

  unfoldable pub handle_config : List ℕ → Shell W → W → Handled W
  handle_config command s w =
      if is_text command "validate" || is_text command "check"
      then handle_check s w
      else if is_text command "apply"
      then handle_apply s w
      else if is_text command "save"
      then handle_save s w
      else if is_text command "rollback"
      then handle_rollback s w
      else refuse s w "UNKNOWN_COMMAND"

  unfoldable pub handle_tokens : (List ℕ → Double × ℕ) → List (List ℕ) → Shell W → W → Handled W
  unfolding group_offset
  handle_tokens strtod tokens s w =
      if is_empty_line tokens || is_text (token tokens 0) "help"
      then answer s w help_reply
      else if is_text (token tokens 0) "status"
      then answer s w (status_reply s)
      else if is_text (token tokens 0) "site"
      then handle_site strtod tokens s w
      else if not (group_offset tokens == 0)
      then handle_group tokens (group_offset tokens) s w
      else if is_text (token tokens 0) "fleet"
          && (length tokens == 2)
          && is_text (token tokens 1) "list"
      then handle_fleet s w
      else if not (is_text (token tokens 0) "config") || not (length tokens == 2)
      then refuse s w "UNKNOWN_COMMAND"
      else handle_config (token tokens 1) s w

  -- `handle`.
  unfoldable pub handle : (List ℕ → Double × ℕ) → List ℕ → Shell W → W → Handled W
  handle strtod line s w = handle_tokens strtod (words line) s w
