-- ===== src/Coordinator/Invariant.antt =====
-- What `submit` and `poll` keep true of each band's queue.
use esp32_rid.Coordinator.Band.{
  Fits, BandInv, Inv, push-BandInv, grow-BandInv, erase-BandInv, recount-BandInv,
}
use esp32_rid.Prelude.{
  ℕ, ◌+◌, ◌<◌, ◌≡◌, refl, ◌≢◌, ◌⊎◌, inl, inr, true, not, ◌&&◌, List, arith, ltb, ◌==◌, if_cases,
  set,
}
use esp32_rid.Prelude.Arrays.{update}
use esp32_rid.Payload.{
  payload_view, ScheduledPayload, TransportStats, add_expected, add_submitted, add_dropped,
  add_radio_errors, is_expired, u64_max,
}
use esp32_rid.Payload.Order.{increment_step}
use native.Mathlib.Decide.{ℕ_discrete}
use esp32_rid.Prelude.Arrays.{update_self, update_ne}
use esp32_rid.Slots.{slot}
use esp32_rid.Radio.{invalid_state, EspErr, esp_ok, is_ok, WifiBackend}
use esp32_rid.Radio.Pending.{earliest-live}
use esp32_rid.Coordinator.{
  after_switch, sent_counts, band_channel, Coordinator, band_index, queue_capacity, submit,
  earliest_index, erase, count_in, plan, select_band, send_next, switch_and_send, poll,
}

pub submit_cases :
    (c : Coordinator) (p : ScheduledPayload)
    → let band = band_index p.transport in
      ((submit c p).1 ≡ c)
      ⊎ (Fits band p
          × (c.pending_count band ≢ queue_capacity)
          × ((submit c p).1 ≡ record c {
            pending = update c.pending band (set (c.pending band) (c.pending_count band) p);
            pending_count = update c.pending_count band (c.pending_count band + 1);
            band_stats = update c.band_stats band (add_expected (c.band_stats band));
          }))
unfolding submit
submit_cases c p = ground arith

update-BandInv :
    (limit : ℕ) (c : Coordinator) (band count : ℕ) (slots : List ScheduledPayload)
    (s : TransportStats)
    → Inv limit c
    → BandInv limit band slots count s
    → (other : ℕ)
    → BandInv limit other
        (update c.pending band slots other)
        (update c.pending_count band count other)
        (update c.band_stats band s other)
update-BandInv limit c band count slots s v new other = elim (ℕ_discrete band other) [
  | yes e ↦ rw (← e) (
      rw
        (
          update_self c.pending band slots,
          update_self c.pending_count band count,
          update_self c.band_stats band s,
        )
        new)
  | no ne ↦
      rw
        (
          update_ne c.pending band other slots ne,
          update_ne c.pending_count band other count ne,
          update_ne c.band_stats band other s ne,
        )
        (v other)
]

-- `submit` keeps the invariant and counts at most one payload, as long as the count of accepted
-- payloads has not reached its maximum.
pub submit-Inv :
    (limit : ℕ) (c : Coordinator) (p : ScheduledPayload)
    → limit < u64_max
    → Inv limit c
    → Inv (limit + 1) (submit c p).1
submit-Inv limit c p h v = elim (submit_cases c p) [
  | inl e ↦ rw e (λ band. grow-BandInv (v band) h)
  | inr (fits, free, e) ↦
      let band = band_index p.transport in
      rw e (
        update-BandInv (limit + 1) c band _ _ _ (λ other. grow-BandInv (v other) h)
          (push-BandInv p (v band) fits free h))
]

sent_counts_lem :
    (p : ScheduledPayload) (now_ms : ℕ) (s : TransportStats)
    → ((sent_counts p now_ms s).expected ≡ s.expected)
      × ((sent_counts p now_ms s).submitted ≡ (add_submitted s).submitted)
      × ((sent_counts p now_ms s).dropped ≡ s.dropped)
      × ((sent_counts p now_ms s).completed ≡ s.completed)
sent_counts_lem p now_ms s = ground arith

-- The coordinator that a call leaves is in order.
abbrev Keeps : ℕ → (D : Type 0) → EspErr × Coordinator × D → Type 0
Keeps limit D r = Inv limit r.1

module _ {limit : ℕ} where
  -- One payload leaves the queue of a band, and one counter says why.
  pub erase-Inv :
      (c : Coordinator) (band index : ℕ) (f : TransportStats → TransportStats)
      → Inv limit c
      → index < c.pending_count band
      → (f (c.band_stats band)).expected ≡ (c.band_stats band).expected
      → (f (c.band_stats band)).completed ≡ (c.band_stats band).completed
      → (f (c.band_stats band)).submitted + (f (c.band_stats band)).dropped
        ≡ (c.band_stats band).submitted + (c.band_stats band).dropped + 1
      → Inv limit (erase (count_in c band f) band index)
  unfolding erase
  erase-Inv c band index f v h e k m =
      update-BandInv limit c band _ _ _ v (erase-BandInv index (v band) h e k m)

  recount-Inv :
      (c : Coordinator) (band : ℕ) → Inv limit c → Inv limit (count_in c band add_radio_errors)
  recount-Inv c band v other = elim (ℕ_discrete band other) [
    | yes e ↦ rw (← e) (
        rw (update_self c.band_stats band (add_radio_errors (c.band_stats band)))
          (recount-BandInv (v band)))
    | no ne ↦
        rw (update_ne c.band_stats band other (add_radio_errors (c.band_stats band)) ne) (v other)
  ]

  -- The increments of a poll do not saturate, since what leaves the queue had been counted.
  counters_step :
      (c : Coordinator) (band : ℕ)
      → Inv limit c
      → 0 < c.pending_count band
      → ((add_dropped (c.band_stats band)).submitted + (add_dropped (c.band_stats band)).dropped
          ≡ (c.band_stats band).submitted + (c.band_stats band).dropped + 1)
        × ((add_submitted (c.band_stats band)).submitted
              + (add_submitted (c.band_stats band)).dropped
            ≡ (c.band_stats band).submitted + (c.band_stats band).dropped + 1)
  counters_step c band v h = omega (
    arith,
    (v band).balanced,
    (v band).unsaturated,
    (v band).capped,
    increment_step (c.band_stats band).submitted,
    increment_step (c.band_stats band).dropped,
  )

  -- The index that `poll` selects is that of a live payload.
  pub selected_bound :
      (c : Coordinator) (band : ℕ)
      → Inv limit c
      → 0 < c.pending_count band
      → earliest_index c band < c.pending_count band
  unfolding earliest_index
  selected_bound c band v h =
      (earliest-live (c.pending_count band) (c.pending band) h
        (omega (arith, (v band).room, (v band).bounded))).0

  module _ {D : Type 0} (backend : WifiBackend D) where
    pub select_band-Inv :
        (c : Coordinator) (band now_ms : ℕ) (d : D)
        → Inv limit c
        → Inv limit (select_band backend c band now_ms d).1
    unfolding select_band
    select_band-Inv c band now_ms d v =
        if_cases (Keeps limit D) (ltb now_ms c.retry_at_ms) (λ _. v)
          (λ _.
            if_cases (Keeps limit D) (not (is_ok (backend.set_channel (band_channel band) d).0))
              (λ _. recount-Inv c band v) (λ _. v))

    pub send_next-Inv :
        (c : Coordinator) (now_ms : ℕ) (d : D)
        → Inv limit c
        → Inv limit (send_next backend c now_ms d).1
    unfolding send_next
    send_next-Inv c now_ms d v =
        let band = c.active_band in
        let index = earliest_index c band in
        let payload = slot (c.pending band) index in
        let s = c.band_stats band in
        if_cases (Keeps limit D) (c.pending_count band == 0) (λ _. v)
          λ waiting.
            let some_left : 0 < c.pending_count band = ground arith in
            let bound = selected_bound c band v some_left in
            let steps = counters_step c band v some_left in
            let sent = sent_counts_lem payload now_ms s in
            if_cases (Keeps limit D) (is_expired now_ms payload)
              (λ _. erase-Inv c band index add_dropped v bound refl refl steps.0)
              (λ _.
                if_cases (Keeps limit D) (not (is_ok (backend.transmit (payload_view payload) d).0))
                  (λ _. recount-Inv c band v)
                  (λ _.
                    erase-Inv c band index (sent_counts payload now_ms) v bound sent.0 sent.3
                      (omega (arith, sent, steps))))

    after_switch-Inv :
        (r : EspErr) (c : Coordinator) (now_ms : ℕ) (d : D)
        → Inv limit c
        → Inv limit (after_switch backend r c now_ms d).1
    unfolding after_switch
    after_switch-Inv esp_ok c now_ms d v = send_next-Inv c now_ms d v
    after_switch-Inv invalid_state c now_ms d v = v
    after_switch-Inv _ c now_ms d v = v

    pub switch_and_send-Inv :
        (c : Coordinator) (now_ms : ℕ) (d : D)
        → Inv limit c
        → Inv limit (switch_and_send backend c now_ms d).1
    unfolding switch_and_send
    switch_and_send-Inv c now_ms d v =
        let target = (plan c now_ms).0 in
        if_cases (Keeps limit D) (plan c now_ms).1
          (λ _.
            after_switch-Inv (select_band backend c target now_ms d).0 _ now_ms _
              (select_band-Inv c target now_ms d v))
          (λ _. send_next-Inv c now_ms d v)

    -- `poll` keeps the invariant, whatever the backend answers.
    pub poll-Inv :
        (c : Coordinator) (now_ms : ℕ) (d : D) → Inv limit c → Inv limit (poll backend c now_ms d).1
    unfolding poll
    poll-Inv c now_ms d v =
        if_cases (Keeps limit D) (c.pending_count 0 == 0 && c.pending_count 1 == 0) (λ _. v)
          λ _.
            if_cases (Keeps limit D) c.configured (λ _. switch_and_send-Inv c now_ms d v)
              λ _.
                if_cases (Keeps limit D) (not (is_ok (backend.set_country_cn d).0)) (λ _. v)
                  λ _.
                    switch_and_send-Inv (record c { configured = true }) now_ms
                      (backend.set_country_cn d).1 v

-- The invariant under a larger count.
pub grow-Inv : {limit : ℕ} (c : Coordinator) → limit < u64_max → Inv limit c → Inv (limit + 1) c
grow-Inv c h v band = grow-BandInv (v band) h
