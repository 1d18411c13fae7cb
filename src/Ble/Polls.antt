-- ===== src/Ble/Polls.antt =====
-- `poll` keeps the invariant of the BLE transport.
use mathlib.Core.Path.{subst}
use esp32_rid.Prelude.{
  ℕ, zero, suc, ◌+◌, ◌<◌, ◌≡◌, refl, sym, ap, ◌∙◌, Bool, true, false, not, ◌||◌, List, arith, ltb,
  ◌==◌, if◌then◌else◌, if_cases, length, erase_at, length-take, All-erase_at, All-get_or,
}
use esp32_rid.Payload.{
  ScheduledPayload, add_submitted, add_late, add_dropped, add_radio_errors, is_expired,
  payload_view,
}
use esp32_rid.Radio.{is_ok}
use esp32_rid.Radio.Pending.{live, length-erased}
use esp32_rid.Ble.Queue.{one, waiting, waiting-erase_at}
use esp32_rid.Ble.Invariant.{
  Fits, in_flight, Counts, Held, Inv, flag, update_at, drop-Counts, fail-Counts, launch-Counts,
}
use esp32_rid.Ble.Steps.{drain_completions-Inv, taken, rest_of, taken_lem, idle_in_flight}
use esp32_rid.Ble.{
  Ble, GapBackend, BleError, stats_index, mode_of, count_in, drain_completions, erase_pending,
  earliest_pending_index, advertise, send, poll_loop, poll,
}

module _ (limit : ℕ) (b : Ble) (v : Inv limit b) (some_left : 0 < b.pending_count) where
  abbrev i : ℕ
  i = stats_index (taken b).transport

  abbrev queue : List ScheduledPayload
  queue = live b.pending_count b.pending

  abbrev left : List ScheduledPayload
  left = live (rest_of b).pending_count (rest_of b).pending

  length-queue : length queue ≡ b.pending_count
  length-queue = length-take b.pending_count b.pending (omega (arith, v.0.room, v.0.bounded))

  pub taken-Fits : Fits (taken b)
  taken-Fits =
      let t = taken_lem b v.0 some_left in
      subst Fits t.3 (
        All-get_or Fits (earliest_pending_index b) queue _ (omega (arith, t.0, length-queue))
          v.0.fitting)

  rest-Held : Held (rest_of b)
  rest-Held =
      let t = taken_lem b v.0 some_left in
      record {
        room =
            unfold erase_pending in
            length-erased b.pending_count (earliest_pending_index b) b.pending ∙ v.0.room;
        bounded = unfold erase_pending in omega (arith, v.0.bounded);
        fitting = rw (t.2) (All-erase_at Fits (earliest_pending_index b) queue v.0.fitting);
        reading = unfold erase_pending in v.0.reading;
        writing = unfold erase_pending in v.0.writing;
      }

  -- The payload taken is counted apart from those left.
  rest-counted :
      (k : ℕ) → Counts limit (b.counters k) (waiting k left + flag (i == k)) (in_flight k b)
  rest-counted k =
      let t = taken_lem b v.0 some_left in
      let e : waiting k queue ≡ waiting k left + flag (i == k) =
        sym (waiting-erase_at k (earliest_pending_index b) queue (omega (arith, t.0, length-queue)))
        ∙ ap (λ p. waiting k (erase_at (earliest_pending_index b) queue) + one k p) t.3
        ∙ ap (λ xs. waiting k xs + flag (i == k)) (sym t.2) in
      subst (λ w. Counts limit (b.counters k) w (in_flight k b)) e (v.1 k)

  pub drop-Inv : Inv limit (count_in (rest_of b) i add_dropped)
  unfolding erase_pending
  drop-Inv =
      let q = rest-Held in
      (
        record {
          room = q.room;
          bounded = q.bounded;
          fitting = q.fitting;
          reading = q.reading;
          writing = q.writing;
        },
        λ k.
            rw (update_at b.counters add_dropped i k)
              (drop-Counts (i == k) (waiting k left) (rest-counted k)),
      )

  pub fail-Inv : Inv limit (count_in (rest_of b) i add_radio_errors)
  unfolding erase_pending
  fail-Inv =
      let q = rest-Held in
      (
        record {
          room = q.room;
          bounded = q.bounded;
          fitting = q.fitting;
          reading = q.reading;
          writing = q.writing;
        },
        λ k.
            rw (update_at b.counters add_radio_errors i k)
              (fail-Counts (i == k) (waiting k left) (rest-counted k)),
      )

  pub launch-Inv :
      (late : Bool)
      → b.busy ≡ false
      → Inv limit (
          count_in
            (record (rest_of b) { active_transport = (taken b).transport; busy = true })
            i
            (λ s. if late then add_late (add_submitted s) else add_submitted s))
  unfolding erase_pending
  launch-Inv late idle =
      let q = rest-Held in
      (
        record {
          room = q.room;
          bounded = q.bounded;
          fitting = q.fitting;
          reading = q.reading;
          writing = q.writing;
        },
        λ k.
            rw
              (update_at b.counters
                (λ s. if late then add_late (add_submitted s) else add_submitted s) i k)
              (launch-Counts (i == k) late (waiting k left) (
                subst (Counts limit (b.counters k) (waiting k left + flag (i == k)))
                  (idle_in_flight k b idle) (rest-counted k))),
      )

module _ {D : Type 0} (backend : GapBackend D) where
  -- The transport that a poll leaves is in order.
  abbrev Keeps : ℕ → BleError × Ble × D → Type 0
  Keeps limit r = Inv limit r.1

  send-Inv :
      (limit now_ms : ℕ) (b : Ble) (d : D)
      → Inv limit b
      → 0 < b.pending_count
      → b.busy ≡ false
      → Inv limit (send backend (rest_of b) (taken b) now_ms d).1
  unfolding send
  send-Inv limit now_ms b d v h idle =
      let (result, d') =
        advertise backend (mode_of (taken b).transport) (payload_view (taken b)) d in
      if_cases (Keeps limit) (not (is_ok result)) (λ e. fail-Inv limit b v h)
        (λ e. launch-Inv limit b v h (ltb (taken b).deadline_ms now_ms) idle)

  poll_loop-Inv :
      (fuel limit now_ms : ℕ) (b : Ble) (d : D)
      → Inv limit b
      → fuel ≡ b.pending_count
      → b.busy ≡ false
      → Inv limit (poll_loop backend fuel b now_ms d).1
  unfolding poll_loop
  poll_loop-Inv zero limit now_ms b d v e idle = v
  poll_loop-Inv (suc fuel) limit now_ms b d v e idle =
      let b' = count_in (rest_of b) (stats_index (taken b).transport) add_dropped in
      if_cases (Keeps limit) (is_expired now_ms (taken b))
        (λ h.
          poll_loop-Inv fuel limit now_ms b' d (drop-Inv limit b v (omega arith))
            (unfold erase_pending in omega arith) (unfold erase_pending in idle))
        (λ h. send-Inv limit now_ms b d v (omega arith) idle)

  pub poll-Inv :
      (limit now_ms : ℕ) (b : Ble) (d : D) → Inv limit b → Inv limit (poll backend b now_ms d).1
  unfolding poll
  poll-Inv limit now_ms b d v =
      let b' = drain_completions b in
      let w = drain_completions-Inv limit b v in
      if_cases (Keeps limit) (b.shutting_down || b.shut_down) (λ h. v)
        (λ h.
          if_cases (Keeps limit) b'.busy (λ k. w)
            (λ k. poll_loop-Inv b'.pending_count limit now_ms b' d w refl k))
