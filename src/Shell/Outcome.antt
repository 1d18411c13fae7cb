-- ===== src/Shell/Outcome.antt =====
-- What a command of the shell may change, and the commands that call no callback.
use esp32_rid.Prelude.{
  ℕ, ◌+◌, ◌%◌, ◌^◌, ◌≡◌, refl, ◌⊎◌, inl, inr, Bool, true, false, not, ◌&&◌, Option, none, some,
  List, [], ◌∷◌, ◌++◌, leb, ◌==◌, if_cases, length, get_or,
}
use esp32_rid.Model.Floats.{Double}
use esp32_rid.Config.{SystemConfig, GroupConfig, validate, ok}
use esp32_rid.Shell.Words.{text, is_text, decimal}
use esp32_rid.Shell.Commands.{
  Shell, Handled, new_line, token, restage, refuse, handle_site, handle_group, delete_group,
  add_group,
}
use esp32_rid.Shell.Handle.{call}

-- The first byte of every reply to a refused command, 'E', and of no other.
abbrev pub is_error : List ℕ → Bool
is_error reply = get_or reply 0 0 == b'E'

module _ {W : Type 0} where
  -- The state is as it was, apart from a staged configuration where the command succeeded.
  pub record Kept (s : Shell W) (reply : List ℕ) (s' : Shell W) : Type 0 where
    pub applied : s'.applied ≡ s.applied
    pub generation : s'.generation ≡ s.generation
    pub callbacks : (s'.apply_callback ≡ s.apply_callback) × (s'.save_callback ≡ s.save_callback)
    pub staged : (is_error reply ≡ false) ⊎ (s'.staged ≡ s.staged)

  -- The calls of the callbacks that a command may make: none; one to apply the staged configuration,
  -- with the next generation; one to save the applied one, with the current generation.
  abbrev pub Outcome : Shell W → W → Handled W → Type 0
  Outcome s w (reply, s', w') =
      (Kept s reply s' × (w' ≡ w))
      ⊎ ((validate s.staged ≡ ok)
          × (w' ≡ (call s.apply_callback s.staged ((s.generation + 1) % 2 ^ 32) w).1)
          × (((is_error reply ≡ true)
                × (s' ≡ s)
                × ((call s.apply_callback s.staged ((s.generation + 1) % 2 ^ 32) w).0 ≡ false))
              ⊎ ((is_error reply ≡ false)
                  × (s' ≡ record s {
                    applied = some (s.staged);
                    generation = (s.generation + 1) % 2 ^ 32;
                  })
                  × ((call s.apply_callback s.staged ((s.generation + 1) % 2 ^ 32) w).0 ≡ true))))
      ⊎ ((config : SystemConfig) × (s.applied ≡ some config)
          × (w' ≡ (call s.save_callback config s.generation w).1)
          × (s' ≡ s)
          × (is_error reply ≡ not (call s.save_callback config s.generation w).0))

  pub refuse-Outcome : (s : Shell W) (w : W) (reply : List ℕ) → Outcome s w (reply, s, w)
  refuse-Outcome s w reply = inl (
    record { applied = refl; generation = refl; callbacks = (refl, refl); staged = inr refl },
    refl,
  )

  pub restage-Outcome :
      (s : Shell W) (config : SystemConfig) (w : W) (reply : List ℕ)
      → is_error reply ≡ false
      → Outcome s w (restage s config w reply)
  restage-Outcome s config w reply h =
      inl (
        record { applied = refl; generation = refl; callbacks = (refl, refl); staged = inl h },
        refl,
      )

  pub handle_site-Outcome :
      (strtod : List ℕ → Double × ℕ) (tokens : List (List ℕ)) (s : Shell W) (w : W)
      → Outcome s w (handle_site strtod tokens s w)
  unfolding handle_site
  handle_site-Outcome strtod tokens s w =
      if_cases (Outcome s w) _ (λ h. refuse-Outcome s w _)
        (λ h. first (decimal strtod (token tokens 3)) (decimal strtod (token tokens 5)))
    where
      first :
          (a b : Option Double)
          → Outcome s w (elim a as (λ x. Handled W) [
            | none ↦ refuse s w "INVALID_ARGUMENT"
            | some latitude ↦ elim b as (λ x. Handled W) [
              | none ↦ refuse s w "INVALID_ARGUMENT"
              | some longitude ↦
                  restage s
                    (record (s.staged) {
                      site = some (record { latitude_deg = latitude; longitude_deg = longitude });
                    })
                    w
                    (text "OK site staged" ++ new_line)
            ]
          ])
      first none b = refuse-Outcome s w _
      first (some a) none = refuse-Outcome s w _
      first (some a) (some b) = restage-Outcome s _ w _ (unfold text in refl)

  pub handle_group-Outcome :
      (tokens : List (List ℕ)) (offset : ℕ) (s : Shell W) (w : W)
      → Outcome s w (handle_group tokens offset s w)
  unfolding handle_group
  handle_group-Outcome tokens offset s w =
      let action = token tokens offset in
      if_cases (Outcome s w) (leb (length tokens) offset) (λ h. refuse-Outcome s w _)
        (λ h.
          if_cases (Outcome s w) (is_text action "list") (λ h1. refuse-Outcome s w _)
            (λ h1.
              if_cases (Outcome s w) (is_text action "clear") (λ h2. cleared)
                (λ h2.
                  if_cases (Outcome s w) (is_text action "delete" && (length tokens == offset + 2))
                    (λ h3. deleted (delete_group (token tokens (offset + 1)) s.staged.groups))
                    (λ h3.
                      if_cases (Outcome s w) (not (is_text action "add"))
                        (λ h4. refuse-Outcome s w _) (λ h4. added (add_group tokens offset))))))
    where
      cleared :
          Outcome s w
            (restage s (record (s.staged) { groups = [] }) w (text "OK group_clear" ++ new_line))
      cleared = restage-Outcome s _ w _ (unfold text in refl)

      deleted :
          (o : Option (List GroupConfig))
          → Outcome s w (elim o as (λ x. Handled W) [
            | none ↦ refuse s w "GROUP_NOT_FOUND"
            | some groups ↦
                restage s
                  (record (s.staged) { groups = groups })
                  w
                  (text "OK group_delete" ++ new_line)
          ])
      deleted none = refuse-Outcome s w _
      deleted (some groups) = restage-Outcome s _ w _ (unfold text in refl)

      added :
          (o : Option GroupConfig)
          → Outcome s w (elim o as (λ x. Handled W) [
            | none ↦ refuse s w "INVALID_ARGUMENT"
            | some g ↦
                restage s
                  (record (s.staged) { groups = s.staged.groups ++ (g ∷ []) })
                  w
                  (text "OK group " ++ (g.name ++ (text " staged" ++ new_line)))
          ])
      added none = refuse-Outcome s w _
      added (some g) = restage-Outcome s _ w _ (unfold text in refl)
