-- ===== src/Shell/Handling.antt =====
-- What every line of the shell may change.
use esp32_rid.Shell.Handle.{is_empty_line}
use mathlib.Core.Path.{subst}
use esp32_rid.Prelude.{
  ℕ, ◌+◌, ◌%◌, ◌^◌, ◌≡◌, refl, sym, ap, inl, inr, not, ◌&&◌, ◌||◌, Option, none, some, List, [],
  ◌∷◌, ◌++◌, arith, ◌==◌, if◌then◌else◌, if_cases, length,
}
use esp32_rid.Model.Floats.{Double}
use esp32_rid.Identity.{Digest}
use esp32_rid.Config.{
  SystemConfig, AircraftConfig, ExpandResult, failed, expanded, validate_and_expand, validate, ok,
}
use esp32_rid.Config.Expand.{validate_and_expand_lem}
use esp32_rid.Shell.Words.{text, is_text, words, aircraft_count, show}
use esp32_rid.Shell.Commands.{
  Shell, Handled, new_line, token, group_offset, restage, refuse, answer,
}
use esp32_rid.Shell.Handle.{
  call, handle_fleet, handle_check, handle_apply, handle_save, handle_rollback, handle_config,
  handle_tokens, handle,
}
use esp32_rid.Shell.Outcome.{
  Outcome, refuse-Outcome, restage-Outcome, handle_site-Outcome, handle_group-Outcome,
}

abbrev pub AppliedValid : Option SystemConfig → Type 0
AppliedValid none = Unit
AppliedValid (some config) = validate config ≡ ok

Expanded : ExpandResult → Type 0
Expanded (failed e) = ⊥
Expanded (expanded aircraft) = Unit

Expanded-valid :
    (sha256 : Digest) (device : List ℕ) (c : SystemConfig)
    → Expanded (validate_and_expand sha256 device c)
    → validate c ≡ ok
unfolding Expanded
Expanded-valid sha256 device c h = elim (validate_and_expand_lem sha256 device c) [
  | inl k ↦ absurd (subst Expanded (k.1) h)
  | inr (inl k) ↦ k.0
  | inr (inr k) ↦ k.0
]

module _ {W : Type 0} where
  handle_rollback-Outcome :
      (sha256 : Digest) (device : List ℕ) (s : Shell W) (w : W)
      → Outcome s w (handle_rollback sha256 device s w)
  unfolding handle_rollback
  handle_rollback-Outcome sha256 device s w = go (s.applied)
    where
      go :
          (o : Option SystemConfig)
          → Outcome s w (elim o as (λ x. Handled W) [
            | none ↦ refuse s w "NO_APPLIED_CONFIG"
            | some config ↦
                restage s config w
                  (text "OK rollback running=" ++ (show (aircraft_count config.groups) ++ new_line))
          ])
      go none = refuse-Outcome s w _
      go (some config) = restage-Outcome s config w _ (unfold text in refl)

  handle_save-Outcome :
      (sha256 : Digest) (device : List ℕ) (s : Shell W) (w : W)
      → Outcome s w (handle_save sha256 device s w)
  unfolding handle_save
  handle_save-Outcome sha256 device s w = go (s.applied) refl
    where
      go :
          (o : Option SystemConfig)
          → s.applied ≡ o
          → Outcome s w (elim o as (λ x. Handled W) [
            | none ↦ refuse s w "NO_APPLIED_CONFIG"
            | some config ↦
                let (saved, w') = call s.save_callback config s.generation w in
                if not saved
                then refuse s w' "OPERATION_FAILED"
                else answer s w' (text "OK saved generation=" ++ (show s.generation ++ new_line))
          ])
      go none e = refuse-Outcome s w _
      go (some config) e =
          let saved = (call s.save_callback config s.generation w).0 in
          if_cases (Outcome s w) (not saved)
            (λ h. inr (inr (config, e, refl, refl, unfold text in sym h)))
            (λ h. inr (inr (config, e, refl, refl, unfold text in sym h)))

  -- A query about the staged configuration, expanded.
  query-Outcome :
      (s : Shell W) (w : W) (reply : List AircraftConfig → List ℕ) (r : ExpandResult)
      → Outcome s w (elim r as (λ x. Handled W) [
        | failed e ↦ refuse s w "INVALID_CONFIG"
        | expanded aircraft ↦ answer s w (reply aircraft)
      ])
  query-Outcome s w reply (failed e) = refuse-Outcome s w _
  query-Outcome s w reply (expanded aircraft) = refuse-Outcome s w _

  handle_apply-Outcome :
      (sha256 : Digest) (device : List ℕ) (s : Shell W) (w : W)
      → Outcome s w (handle_apply sha256 device s w)
  unfolding handle_apply Expanded
  handle_apply-Outcome sha256 device s w =
      go (validate_and_expand sha256 device s.staged) (Expanded-valid sha256 device (s.staged))
    where
      next : ℕ
      next = (s.generation + 1) % 2 ^ 32

      go :
          (r : ExpandResult)
          → (Expanded r → validate s.staged ≡ ok)
          → Outcome s w (elim r as (λ x. Handled W) [
            | failed e ↦ refuse s w "INVALID_CONFIG"
            | expanded aircraft ↦
                let (accepted, w') = call s.apply_callback s.staged next w in
                if not accepted then refuse s w' "OPERATION_FAILED" else (
                  text "OK generation="
                      ++ (show next ++ (text " running=" ++ (show (length aircraft) ++ new_line))),
                  record s { applied = some (s.staged); generation = next },
                  w',
                )
          ])
      go (failed e) valid = refuse-Outcome s w _
      go (expanded aircraft) valid =
          let accepted = (call s.apply_callback s.staged next w).0 in
          if_cases (Outcome s w) (not accepted)
            (λ h. inr (inl (valid tt, refl, inl (unfold text in refl, refl, ground (arith, h)))))
            (λ h. inr (inl (valid tt, refl, inr (unfold text in refl, refl, ground (arith, h)))))

  handle_config-Outcome :
      (sha256 : Digest) (device : List ℕ) (command : List ℕ) (s : Shell W) (w : W)
      → Outcome s w (handle_config sha256 device command s w)
  unfolding handle_config handle_check
  handle_config-Outcome sha256 device command s w =
      if_cases (Outcome s w) (is_text command "validate" || is_text command "check")
        (λ h. query-Outcome s w _ (validate_and_expand sha256 device s.staged))
        (λ h.
          if_cases (Outcome s w) (is_text command "apply")
            (λ h1. handle_apply-Outcome sha256 device s w)
            (λ h1.
              if_cases (Outcome s w) (is_text command "save")
                (λ h2. handle_save-Outcome sha256 device s w)
                (λ h2.
                  if_cases (Outcome s w) (is_text command "rollback")
                    (λ h3. handle_rollback-Outcome sha256 device s w)
                    (λ h3. refuse-Outcome s w _))))

  -- Whatever the line: either no callback is called, the applied configuration and its generation
  -- stay, and so does the staged one if the reply is an error; or the callback to apply is called with
  -- the staged configuration, which is valid, and the next generation modulo 2 ^ 32, and exactly if it
  -- accepts, both become the applied ones and the reply is no error; or the callback to save is called
  -- with the applied configuration and its generation, the state stays, and the reply is an error
  -- exactly if it fails.
  pub handle-Outcome :
      (sha256 : Digest) (device : List ℕ) (strtod : List ℕ → Double × ℕ) (line : List ℕ)
      (s : Shell W) (w : W)
      → Outcome s w (handle sha256 device strtod line s w)
  unfolding handle handle_tokens handle_fleet
  handle-Outcome sha256 device strtod line s w =
      let tokens = words line in
      if_cases (Outcome s w) (is_empty_line tokens || is_text (token tokens 0) "help")
        (λ h. refuse-Outcome s w _)
        (λ h.
          if_cases (Outcome s w) (is_text (token tokens 0) "status") (λ h1. refuse-Outcome s w _)
            (λ h1.
              if_cases (Outcome s w) (is_text (token tokens 0) "site")
                (λ h2. handle_site-Outcome strtod tokens s w)
                (λ h2.
                  if_cases (Outcome s w) (not (group_offset tokens == 0))
                    (λ h3. handle_group-Outcome tokens (group_offset tokens) s w)
                    (λ h3.
                      if_cases (Outcome s w)
                        (is_text (token tokens 0) "fleet"
                          && (length tokens == 2)
                          && is_text (token tokens 1) "list")
                        (λ h4. query-Outcome s w _ (validate_and_expand sha256 device s.staged))
                        (λ h4.
                          if_cases (Outcome s w)
                            (not (is_text (token tokens 0) "config") || not (length tokens == 2))
                            (λ h5. refuse-Outcome s w _)
                            (λ h5. handle_config-Outcome sha256 device (token tokens 1) s w))))))

  -- One line after the other.
  unfoldable pub session :
      Digest → List ℕ → (List ℕ → Double × ℕ) → List (List ℕ) → Shell W → W → Shell W × W
  session sha256 device strtod [] s w = (s, w)
  session sha256 device strtod (line ∷ lines) s w =
      let (reply, s', w') = handle sha256 device strtod line s w in
      session sha256 device strtod lines s' w'

  Outcome-Valid :
      (s : Shell W) (w : W) (r : Handled W)
      → Outcome s w r
      → AppliedValid (s.applied)
      → AppliedValid (r.1.applied)
  Outcome-Valid s w r (inl k) v = subst AppliedValid (sym k.0.applied) v
  Outcome-Valid s w r (inr (inl (valid, world, inl k))) v =
      subst AppliedValid (ap (λ (x : Shell W). x.applied) (sym k.1)) v
  Outcome-Valid s w r (inr (inl (valid, world, inr k))) v =
      subst AppliedValid (ap (λ (x : Shell W). x.applied) (sym k.1)) valid
  Outcome-Valid s w r (inr (inr (config, e, world, same, saved))) v =
      subst AppliedValid (ap (λ (x : Shell W). x.applied) (sym same)) v

  -- From a shell whose applied configuration, if it has one, is valid, any sequence of lines leads to
  -- one whose applied configuration, if it has one, is valid.
  pub session-AppliedValid :
      (sha256 : Digest) (device : List ℕ) (strtod : List ℕ → Double × ℕ) (lines : List (List ℕ))
      (s : Shell W) (w : W)
      → AppliedValid (s.applied)
      → AppliedValid ((session sha256 device strtod lines s w).0.applied)
  unfolding session
  session-AppliedValid sha256 device strtod [] s w v = v
  session-AppliedValid sha256 device strtod (line ∷ lines) s w v =
      let r = handle sha256 device strtod line s w in
      session-AppliedValid sha256 device strtod lines (r.1) (r.2)
        (Outcome-Valid s w r (handle-Outcome sha256 device strtod line s w) v)
