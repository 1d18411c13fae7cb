-- ===== src/Coordinator/Run.antt =====
-- The counters of the two bands and the frames on the air over any sequence of calls.
use esp32_rid.Prelude.{ℕ, ◌+◌, ◌≤◌, ◌≡◌, refl, inl, inr, true, List, [], ◌∷◌, arith, length}
use esp32_rid.Model.{Transport, is_wifi}
use esp32_rid.Payload.{ScheduledPayload, u64_max}
use esp32_rid.Radio.{WifiBackend}
use esp32_rid.Coordinator.{
  Coordinator, init, submit, poll, Event, submits, polls, run, depth, stats, band_index,
}
use esp32_rid.Coordinator.Band.{Inv, BandOk, init-Inv}
use esp32_rid.Coordinator.Invariant.{submit_cases, submit-Inv, poll-Inv, grow-Inv}
use esp32_rid.Coordinator.OnAir.{Air, traced, Tuned, Transmits, poll-Outcome}

submit-Tuned :
    {D : Type 0} (c : Coordinator) (p : ScheduledPayload) (a : Air D)
    → Tuned c a
    → Tuned (submit c p).1 a
submit-Tuned c p a t = elim (submit_cases c p) [ inl e ↦ rw e t | inr (fits, free, e) ↦ rw e t ]

module _ {D : Type 0} (backend : WifiBackend D) where
  pub run-Inv :
      (es : List Event) (n limit : ℕ) (c : Coordinator) (d : D)
      → n + length es ≡ limit
      → limit ≤ u64_max
      → Inv n c
      → Inv limit (run backend (c, d) es).0
  unfolding run
  run-Inv [] n limit c d e h v = let e' : n ≡ limit = omega arith in rw (← e') v
  run-Inv (submits p ∷ es) n limit c d e h v =
      run-Inv es (n + 1) limit (submit c p).1 d (omega arith) h (submit-Inv n c p (omega arith) v)
  run-Inv (polls now_ms ∷ es) n limit c d e h v =
      let polled = poll backend c now_ms d in
      run-Inv es (n + 1) limit polled.1 polled.2 (omega arith) h
        (grow-Inv polled.1 (omega arith) (poll-Inv backend c now_ms d v))

  -- Over any backend and any run of fewer than 2 ^ 64 calls from a fresh coordinator, the accepted
  -- payloads of a Wi-Fi transport are those submitted to the driver, those dropped and those still
  -- queued; at most 16 are queued; and the `completed` counter stays at zero.
  pub stats-run :
      (dwell_ms retry_ms : ℕ) (d : D) (es : List Event) (t : Transport)
      → length es ≤ u64_max
      → is_wifi t ≡ true
      → let c = (run backend (init dwell_ms retry_ms, d) es).0 in
        ((stats c t).expected ≡ (stats c t).submitted + (stats c t).dropped + depth c t)
        × (depth c t ≤ 16)
        × ((stats c t).completed ≡ 0)
  unfolding stats depth
  stats-run dwell_ms retry_ms d es t h w =
      let c = (run backend (init dwell_ms retry_ms, d) es).0 in
      let v : BandOk (length es) c (band_index t) =
        run-Inv es 0 (length es) (init dwell_ms retry_ms) d (omega arith) h
          (init-Inv dwell_ms retry_ms) (band_index t) in
      rw w (v.balanced, v.bounded, v.incomplete)

  run-Tuned :
      (es : List Event) (n : ℕ) (c : Coordinator) (a : Air D)
      → n + length es ≤ u64_max
      → Inv n c
      → Tuned c a
      → let s = run (traced backend) (c, a) es in Tuned s.0 s.1
  unfolding run
  run-Tuned [] n c a h v t = t
  run-Tuned (submits p ∷ es) n c a h v t =
      run-Tuned es (n + 1) (submit c p).1 a (omega arith) (submit-Inv n c p (omega arith) v)
        (submit-Tuned c p a t)
  run-Tuned (polls now_ms ∷ es) n c a h v t =
      let polled = poll (traced backend) c now_ms a in
      run-Tuned es (n + 1) polled.1 polled.2 (omega arith)
        (grow-Inv polled.1 (omega arith) (poll-Inv (traced backend) c now_ms a v))
        (poll-Outcome backend c now_ms a v t).0

module _ {D : Type 0} (backend : WifiBackend D) where
  -- After any run of fewer than 2 ^ 64 calls from a fresh coordinator, a poll hands at most one
  -- frame to the driver, whatever the backend answers: that of an unexpired payload queued for a
  -- band than which no payload of that queue is older, with the radio on channel 6 for a payload
  -- for 2.4 GHz and on channel 149 for one for 5.8 GHz.
  pub poll-Transmits :
      (dwell_ms retry_ms now_ms : ℕ) (d : D) (es : List Event)
      → length es ≤ u64_max
      → let s =
          run
            (traced backend)
            (init dwell_ms retry_ms, record { device = d; tuned = 0; sent = [] })
            es in
        let s' = poll (traced backend) s.0 now_ms s.1 in
        Transmits s.0.pending s.0.pending_count now_ms s.1.sent s'.2.sent
  poll-Transmits dwell_ms retry_ms now_ms d es h =
      let c = init dwell_ms retry_ms in
      let a : Air D = record { device = d; tuned = 0; sent = [] } in
      let s = run (traced backend) (c, a) es in
      let v = init-Inv dwell_ms retry_ms in
      (poll-Outcome backend s.0 now_ms s.1
        (run-Inv (traced backend) es 0 (length es) c a (omega arith) h v)
        (run-Tuned backend es 0 c a (omega arith) v (inl (unfold init in refl)))).1
