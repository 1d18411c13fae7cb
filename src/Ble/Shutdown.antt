-- ===== src/Ble/Shutdown.antt =====
-- A BLE transport that has been shut down.
use esp32_rid.Prelude.{
  ℕ, ◌≡◌, refl, ◌∙◌, ◌⊎◌, inl, inr, true, false, not, ◌||◌, List, [], ◌∷◌, arith, if◌then◌else◌,
  if_cases,
}
use esp32_rid.Payload.{ScheduledPayload}
use esp32_rid.Radio.{EspErr, is_ok}
use esp32_rid.Ble.Run.{Event, submits, polls, completes, run, step}
use esp32_rid.Ble.{
  Ble, Completion, backend_error, GapBackend, shutdown, submit, poll, enqueue_completion, depth,
}

-- A shutdown has been called.
abbrev pub Stopped : Ble → Type 0
Stopped b = (b.shutting_down || b.shut_down) ≡ true

module _ {D : Type 0} (backend : GapBackend D) where
  shutdown-Stopped : (b : Ble) (d : D) → Stopped (shutdown backend b d).1
  unfolding shutdown
  shutdown-Stopped b d = ground arith

  submit-refused : (b : Ble) (p : ScheduledPayload) → Stopped b → submit b p ≡ (backend_error, b)
  unfolding submit
  submit-refused b p h = rw h refl

  poll-refused :
      (b : Ble) (now_ms : ℕ) (d : D) → Stopped b → poll backend b now_ms d ≡ (backend_error, b, d)
  unfolding poll
  poll-refused b now_ms d h = rw h refl

  enqueue-Stopped :
      (b : Ble) (e : Completion)
      → Stopped b
      → Stopped (enqueue_completion b e)
        × (depth (enqueue_completion b e) ≡ depth b)
        × ((enqueue_completion b e).counters ≡ b.counters)
  unfolding enqueue_completion
  enqueue-Stopped b e h =
      if_cases (λ (x : Ble). Stopped x × (depth x ≡ depth b) × (x.counters ≡ b.counters)) _
        (λ k. (h, refl, refl)) (λ k. (h, refl, refl))

  run-Stopped :
      (es : List Event) (b : Ble) (d : D)
      → Stopped b
      → let s = run backend es b d in
        (s.1 ≡ d) × (depth s.0 ≡ depth b) × (s.0.counters ≡ b.counters)
  unfolding run step
  run-Stopped [] b d h = (refl, refl, refl)
  run-Stopped (submits p ∷ es) b d h = rw (submit-refused b p h, run) (run-Stopped es b d h)
  run-Stopped (polls now_ms ∷ es) b d h = rw (poll-refused b now_ms d h, run) (run-Stopped es b d h)
  run-Stopped (completes e ∷ es) b d h =
      let k = enqueue-Stopped b e h in
      let r = run-Stopped es (enqueue_completion b e) d k.0 in (r.0, r.1 ∙ k.1, r.2 ∙ k.2)

  shutdown-kept :
      (b : Ble) (d : D)
      → b.shut_down ≡ false
      → let r = shutdown backend b d in
        (r.1.counters ≡ b.counters) × ((is_ok r.0 ≡ false) ⊎ (depth r.1 ≡ 0))
  unfolding shutdown
  shutdown-kept b d h =
      let d1 = if b.shutting_down then d else backend.set_callback false d in
      let b1 = record b { shutting_down = true } in
      let (result, d2) = backend.reset d1 in
      rw h (
        if_cases
          (λ (r : EspErr × Ble × D).
            (r.1.counters ≡ b.counters) × ((is_ok r.0 ≡ false) ⊎ (depth r.1 ≡ 0)))
          (not (is_ok result)) (λ k. (refl, inl (ground (arith, k)))) (λ k. (refl, inr refl)))

  -- After a shutdown of a transport that was not shut down before, successful or not, no sequence
  -- of submissions, polls and completions calls the backend again or changes a counter; and the
  -- queue stays empty if the shutdown succeeded.
  pub run-shutdown :
      (es : List Event) (b : Ble) (d : D)
      → b.shut_down ≡ false
      → let r = shutdown backend b d in
        let s = run backend es r.1 r.2 in
        (s.1 ≡ r.2) × (s.0.counters ≡ b.counters) × ((is_ok r.0 ≡ false) ⊎ (depth s.0 ≡ 0))
  run-shutdown es b d h =
      let r = shutdown backend b d in
      let s = run-Stopped es r.1 r.2 (shutdown-Stopped b d) in
      let k = shutdown-kept b d h in
      (s.0, s.2 ∙ k.0, elim k.1 [ inl e ↦ inl e | inr e ↦ inr (s.1 ∙ e) ])
