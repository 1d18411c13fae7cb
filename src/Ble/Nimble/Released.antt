-- ===== src/Ble/Nimble/Released.antt =====
-- What a reset of the NimBLE backend that succeeds has done to its marks.
use esp32_rid.Prelude.{
  ℕ, ◌≡◌, refl, sym, ◌∙◌, ◌≢◌, Bool, true, false, not, ◌&&◌, arith, ◌==◌, if◌then◌else◌, if_cases,
}
use esp32_rid.Prelude.Arrays.{update_self, update_ne}
use esp32_rid.Radio.{EspErr, esp_ok, is_ok}
use esp32_rid.Ble.Nimble.{Host, Nimble, cast, reset, reset_at}

cast_error : (code : ℕ) → code ≢ 0 → is_ok (cast code) ≡ false
cast_error code h = ground arith

true_not_false : true ≢ false
true_not_false h = ground (arith, h)

module _ {H M : Type 0} (api : Host H M) where
  -- What is recorded as the first error when a call may have failed.
  pick_error :
      (b : Bool) (x y : EspErr) → b ≡ is_ok y → is_ok x ≡ false → is_ok (if b then x else y) ≡ false
  pick_error true x y e h = h
  pick_error false x y e h = sym e

  recorded :
      (code : ℕ) (failed : Bool) (first : EspErr)
      → (failed ≡ true → code ≢ 0)
      → is_ok (if failed && is_ok first then cast code else first) ≡ true
      → (is_ok first ≡ true) × (failed ≡ false)
  recorded code false first h e = (e, refl)
  recorded code true first h e =
      let k = pick_error (is_ok first) (cast code) first refl (cast_error code (h refl)) in
      absurd (true_not_false (sym e ∙ k))

  Released : ℕ → EspErr × Nimble H → EspErr × Nimble H → Type 0
  Released index r s =
      is_ok s.0 ≡ true
      → (is_ok r.0 ≡ true)
        × (s.1.configured index ≡ false)
        × ((j : ℕ) → index ≢ j → s.1.configured j ≡ r.1.configured j)

  reset_at-Released : (index : ℕ) (r : EspErr × Nimble H) → Released index r (reset_at api index r)
  unfolding reset_at Released
  reset_at-Released index (first, n) =
      let stopped = (api.adv_stop (n.instances index) n.host).0 in
      let h1 = (api.adv_stop (n.instances index) n.host).1 in
      let removed = (api.adv_remove (n.instances index) h1).0 in
      let failed = not (stopped == 0) && not (stopped == api.already) in
      let first1 = if failed && is_ok first then cast stopped else first in
      if_cases (Released index (first, n)) (not (n.configured index))
        (λ e h. (h, ground (arith, e), λ j k. refl))
        (λ e h.
          let b = recorded removed (not (removed == 0)) first1 (λ k. ground (arith, k)) h in
          let a = recorded stopped failed first (λ k. ground (arith, k)) b.0 in
          let gone : (removed == 0) ≡ true = ground (arith, b.1) in
          (
            a.0,
            rw gone (update_self n.configured index false),
            λ j k. rw gone (update_ne n.configured index j false k),
          ))

  -- When `reset` succeeds, neither instance is marked as configured any more.
  pub reset-Unconfigured :
      (n : Nimble H)
      → is_ok (reset api n).0 ≡ true
      → ((reset api n).1.configured 0 ≡ false) × ((reset api n).1.configured 1 ≡ false)
  unfolding reset Released
  reset-Unconfigured n h =
      let r = reset_at api 0 (esp_ok, n) in
      let a = reset_at-Released 1 r h in
      let b = reset_at-Released 0 (esp_ok, n) a.0 in (a.2 0 (omega arith) ∙ b.1, a.1)
