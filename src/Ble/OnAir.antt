-- ===== src/Ble/OnAir.antt =====
-- What one poll of the BLE transport puts on the air.
use mathlib.Core.Path.{subst}
use esp32_rid.Prelude.{
  All-map, ℕ, zero, suc, ◌≤◌, ◌<◌, ◌≡◌, refl, sym, ◌∙◌, ◌⊎◌, inl, inr, true, false, ◌||◌, List,
  arith, Bool-cases, if_cases, All, length, erase_at, length-take,
}
use esp32_rid.Payload.{ScheduledPayload, add_dropped, is_expired, payload_view, older_than, u64_max}
use esp32_rid.Slots.{slot}
use esp32_rid.Slots.Erase.{NoneOlderThan}
use esp32_rid.Radio.{is_ok}
use esp32_rid.Radio.Pending.{live}
use esp32_rid.Ble.Queue.{Has, erase_at-Has, All-of_erase_at}
use esp32_rid.Ble.Invariant.{Fits, Inv, fresh-Inv}
use esp32_rid.Ble.Steps.{drain_completions-Inv, taken, rest_of, taken_lem}
use esp32_rid.Ble.Polls.{taken-Fits, drop-Inv}
use esp32_rid.Ble.Run.{Event, run, run-Inv}
use esp32_rid.Ble.{
  fresh, create, Ble, GapBackend, BleError, mode_of, count_in, stats_index, drain_completions,
  erase_pending, earliest_pending_index, advertise, send, poll_loop, poll,
}

abbrev pub queue_of : Ble → List ScheduledPayload
queue_of b = live b.pending_count b.pending

-- No entry of a list that has not expired is older than `p`.
abbrev pub Foremost : ℕ → ScheduledPayload → List ScheduledPayload → Type 0
Foremost now_ms p = All (λ q. (is_expired now_ms q ≡ true) ⊎ (older_than q p ≡ false))

-- What may be advertised out of a queue.
abbrev pub Chosen : ℕ → List ScheduledPayload → ScheduledPayload → Type 0
Chosen now_ms queue p =
    Has p queue × Fits p × (is_expired now_ms p ≡ false) × Foremost now_ms p queue

taken-Chosen :
    (limit now_ms : ℕ) (b : Ble)
    → Inv limit b
    → 0 < b.pending_count
    → is_expired now_ms (taken b) ≡ false
    → Chosen now_ms (queue_of b) (taken b)
taken-Chosen limit now_ms b v h unexpired =
    let t = taken_lem b v.0 h in
    let below : earliest_pending_index b < length (queue_of b) =
      omega (
        arith,
        t.0,
        length-take b.pending_count b.pending (omega (arith, v.0.room, v.0.bounded)),
      ) in
    (
      (earliest_pending_index b, below, t.3),
      taken-Fits limit b v h,
      unexpired,
      All-map (λ q e. inr e) (queue_of b) t.1,
    )

module _ {D : Type 0} (backend : GapBackend D) where
  -- The backend has not been called, or has been asked for one advertisement, which is on the air
  -- if the transport is busy afterwards.
  abbrev pub OneAdvert : ℕ → List ScheduledPayload → D → BleError × Ble × D → Type 0
  OneAdvert now_ms queue d r =
      (r.2 ≡ d)
      ⊎ ((p : ScheduledPayload) × Chosen now_ms queue p
          × (r.2 ≡ (advertise backend (mode_of p.transport) (payload_view p) d).1)
          × (r.1.busy ≡ is_ok (advertise backend (mode_of p.transport) (payload_view p) d).0))

  send_lem :
      (now_ms : ℕ) (queue : List ScheduledPayload) (b : Ble) (p : ScheduledPayload) (d : D)
      → Chosen now_ms queue p
      → b.busy ≡ false
      → OneAdvert now_ms queue d (send backend b p now_ms d)
  unfolding send
  send_lem now_ms queue b p d c idle =
      let (result, d') = advertise backend (mode_of p.transport) (payload_view p) d in
      elim (Bool-cases (is_ok result)) [
        | inl e ↦ rw e (inr (p, c, refl, sym e))
        | inr e ↦ rw e (inr (p, c, refl, idle ∙ sym e))
      ]

  -- What may be advertised once an expired payload is gone.
  widen :
      (now_ms : ℕ) (b : Ble) (d : D) (r : BleError × Ble × D)
      → (earliest_pending_index b < b.pending_count)
        × NoneOlderThan (taken b) (queue_of b)
        × (queue_of (rest_of b) ≡ erase_at (earliest_pending_index b) (queue_of b))
        × (slot (queue_of b) (earliest_pending_index b) ≡ taken b)
      → is_expired now_ms (taken b) ≡ true
      → OneAdvert now_ms (queue_of (rest_of b)) d r
      → OneAdvert now_ms (queue_of b) d r
  widen now_ms b d r t h (inl e) = inl e
  widen now_ms b d r t h (inr (p, c, o, o')) =
      let index = earliest_pending_index b in
      inr (
        p,
        (
          erase_at-Has p index (queue_of b) (subst (Has p) t.2 c.0),
          c.1,
          c.2,
          All-of_erase_at (λ q. (is_expired now_ms q ≡ true) ⊎ (older_than q p ≡ false)) index
              (queue_of b) (rw (t.3) (inl h)) (subst (Foremost now_ms p) t.2 c.3),
        ),
        o,
        o',
      )

  poll_loop_lem :
      (fuel limit now_ms : ℕ) (b : Ble) (d : D)
      → Inv limit b
      → fuel ≡ b.pending_count
      → b.busy ≡ false
      → OneAdvert now_ms (queue_of b) d (poll_loop backend fuel b now_ms d)
  unfolding poll_loop
  poll_loop_lem zero limit now_ms b d v e idle = inl refl
  poll_loop_lem (suc fuel) limit now_ms b d v e idle =
      if_cases (OneAdvert now_ms (queue_of b) d) (is_expired now_ms (taken b))
        (λ h.
          let b' = count_in (rest_of b) (stats_index (taken b).transport) add_dropped in
          let t = taken_lem b v.0 (omega arith) in
          widen now_ms b d (poll_loop backend fuel b' now_ms d) t h (
            poll_loop_lem fuel limit now_ms b' d (drop-Inv limit b v (omega arith))
              (unfold erase_pending in omega arith) (unfold erase_pending in idle)))
        (λ h.
          send_lem now_ms (queue_of b) (rest_of b) (taken b) d
            (taken-Chosen limit now_ms b v (omega arith) h) (unfold erase_pending in idle))

  pub poll_advert :
      (limit now_ms : ℕ) (b : Ble) (d : D)
      → Inv limit b
      → let b' = drain_completions b in
        let r = poll backend b now_ms d in
        OneAdvert now_ms (queue_of b') d r × ((b'.busy ≡ false) ⊎ (r.2 ≡ d))
  unfolding poll
  poll_advert limit now_ms b d v =
      let b' = drain_completions b in
      let w = drain_completions-Inv limit b v in
      if_cases (λ r. OneAdvert now_ms (queue_of b') d r × ((b'.busy ≡ false) ⊎ (r.2 ≡ d)))
        (b.shutting_down || b.shut_down) (λ h. (inl refl, inr refl))
        (λ h.
          if_cases (λ r. OneAdvert now_ms (queue_of b') d r × ((b'.busy ≡ false) ⊎ (r.2 ≡ d)))
            b'.busy (λ k. (inl refl, inr refl))
            (λ k. (poll_loop_lem b'.pending_count limit now_ms b' d w refl k, inl k)))

  -- After any sequence of submissions, polls and completions on a transport that has just been created,
  -- a poll calls the backend at most for one advertisement, and only when none is on the air: that
  -- of an unexpired payload of the queue than which no unexpired payload of the queue is older, in
  -- the mode of its transport, with its bytes, of which there are at most as many as that mode can carry.
  -- The transport is busy afterwards exactly if the backend took it.
  pub poll-OneAdvert :
      (now_ms : ℕ) (es : List Event) (d : D)
      → length es ≤ u64_max
      → let c = create backend d in
        let s = run backend es c.0 c.1 in
        let b' = drain_completions s.0 in
        let r = poll backend s.0 now_ms s.1 in
        OneAdvert now_ms (queue_of b') s.1 r × ((b'.busy ≡ false) ⊎ (r.2 ≡ s.1))
  unfolding create
  poll-OneAdvert now_ms es d h =
      let s = run backend es fresh (backend.set_callback true d) in
      poll_advert (length es) now_ms s.0 s.1 (
        run-Inv backend es 0 (length es) fresh (backend.set_callback true d) (omega arith) h
          fresh-Inv)
