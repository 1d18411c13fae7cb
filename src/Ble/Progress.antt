-- ===== src/Ble/Progress.antt =====
-- What a poll of the BLE transport that reports no error has achieved.
use esp32_rid.Ble.{ScheduledPayload}
use esp32_rid.Prelude.{ℕ, zero, suc, ◌≡◌, refl, ◌⊎◌, inl, inr, true, ◌||◌, arith, if_cases}
use esp32_rid.Payload.{is_expired, add_dropped}
use esp32_rid.Slots.{slot}
use esp32_rid.Ble.{
  Ble, BleError, no_error, GapBackend, stats_index, count_in, earliest_pending_index, erase_pending,
  drain_completions, send, poll_loop, poll,
}

-- Without an error, an advertisement is on the air or nothing waits.
abbrev pub Advanced : {D : Type 0} → BleError × Ble × D → Type 0
Advanced r = r.0 ≡ no_error → (r.1.busy ≡ true) ⊎ (r.1.pending_count ≡ 0)

module _ {D : Type 0} (backend : GapBackend D) where
  send-Advanced :
      (b : Ble) (p : ScheduledPayload) (now_ms : ℕ) (d : D) → Advanced (send backend b p now_ms d)
  unfolding send
  send-Advanced b p now_ms d = λ h. ground (arith, h)

  poll_loop-Advanced :
      (fuel : ℕ) (b : Ble) (now_ms : ℕ) (d : D)
      → b.pending_count ≡ fuel
      → Advanced (poll_loop backend fuel b now_ms d)
  unfolding poll_loop earliest_pending_index erase_pending
  poll_loop-Advanced zero b now_ms d h = λ e. inr h
  poll_loop-Advanced (suc fuel) b now_ms d h =
      let index = earliest_pending_index b in
      let selected = slot b.pending index in
      let b' = erase_pending b index in
      if_cases {A = BleError × Ble × D} Advanced (is_expired now_ms selected)
        (λ e.
          poll_loop-Advanced fuel (count_in b' (stats_index selected.transport) add_dropped) now_ms
            d (omega (arith, h)))
        (λ e. send-Advanced b' selected now_ms d)

  pub poll-Advanced : (b : Ble) (now_ms : ℕ) (d : D) → Advanced (poll backend b now_ms d)
  unfolding poll
  poll-Advanced b now_ms d =
      let b' = drain_completions b in
      if_cases {A = BleError × Ble × D} Advanced (b.shutting_down || b.shut_down)
        (λ e h. ground (arith, h))
        (λ e.
          if_cases {A = BleError × Ble × D} Advanced b'.busy (λ k h. inl k)
            (λ k. poll_loop-Advanced b'.pending_count b' now_ms d refl))
