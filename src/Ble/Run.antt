-- ===== src/Ble/Run.antt =====
-- A BLE transport from its creation on, over any backend and any sequence of calls and completions.
use esp32_rid.Prelude.{ℕ, ◌+◌, ◌≤◌, ◌<◌, ◌≡◌, true, List, [], ◌∷◌, arith, length}
use esp32_rid.Model.{Transport, is_ble}
use esp32_rid.Payload.{ScheduledPayload, u64_max}
use esp32_rid.Radio.Pending.{live}
use esp32_rid.Ble.Queue.{waiting}
use esp32_rid.Ble.Invariant.{in_flight, Inv, fresh-Inv, grow-Inv}
use esp32_rid.Ble.Steps.{submit-Inv, enqueue_completion-Inv}
use esp32_rid.Ble.Polls.{poll-Inv}
use esp32_rid.Ble.{
  Ble, Completion, GapBackend, fresh, create, stats_index, queue_capacity, submit,
  enqueue_completion, poll, depth, stats,
}

-- A call of the runtime's task, or a completion that the host task reports.
pub data Event : Type 0 where
  submits : ScheduledPayload → Event
  polls : ℕ → Event
  completes : Completion → Event

module _ {D : Type 0} (backend : GapBackend D) where
  unfoldable pub step : Event → Ble → D → Ble × D
  step (submits p) b d = ((submit b p).1, d)
  step (polls now_ms) b d = let r = poll backend b now_ms d in (r.1, r.2)
  step (completes event) b d = (enqueue_completion b event, d)

  unfoldable pub run : List Event → Ble → D → Ble × D
  run [] b d = (b, d)
  run (e ∷ es) b d = let r = step e b d in run es r.0 r.1

  step-Inv :
      (limit : ℕ) (e : Event) (b : Ble) (d : D)
      → limit < u64_max
      → Inv limit b
      → Inv (limit + 1) (step e b d).0
  unfolding step
  step-Inv limit (submits p) b d h v = submit-Inv limit b p h v
  step-Inv limit (polls now_ms) b d h v =
      grow-Inv (poll backend b now_ms d).1 h (poll-Inv backend limit now_ms b d v)
  step-Inv limit (completes event) b d h v =
      grow-Inv (enqueue_completion b event) h (enqueue_completion-Inv limit b event v)

  pub run-Inv :
      (es : List Event) (n limit : ℕ) (b : Ble) (d : D)
      → n + length es ≡ limit
      → limit ≤ u64_max
      → Inv n b
      → Inv limit (run es b d).0
  unfolding run
  run-Inv [] n limit b d e h v = let e' : n ≡ limit = omega arith in rw (← e') v
  run-Inv (x ∷ es) n limit b d e h v =
      let r = step x b d in
      run-Inv es (n + 1) limit r.0 r.1 (omega arith) h (step-Inv n x b d (omega arith) v)

  unfoldable pub run_created : List Event → D → Ble
  run_created es d = let c = create backend d in (run es c.0 c.1).0

  -- After any sequence of submissions, polls and completions on a transport that has just been
  -- created, over any backend, and for each of the two BLE transports: every payload that was
  -- accepted is either completed, counted as a radio error, dropped, still waiting in the queue or on
  -- the air; no more are completed than were submitted to the radio; and the depth of the queue is at
  -- most its capacity. The sequence has fewer than 2^64 calls, so that no counter has reached its limit.
  pub stats-run_created :
      (es : List Event) (d : D) (t : Transport)
      → length es ≤ u64_max
      → is_ble t ≡ true
      → let b = run_created es d in
        let c = stats b t in
        let k = stats_index t in
        (c.expected
          ≡ c.completed
            + c.radio_errors
            + c.dropped
            + waiting k (live b.pending_count b.pending)
            + in_flight k b)
        × (c.completed + in_flight k b ≤ c.submitted)
        × (depth b ≤ queue_capacity)
  unfolding run_created create stats
  stats-run_created es d t h ble =
      let v =
        run-Inv es 0 (length es) fresh (backend.set_callback true d) (omega arith) h fresh-Inv in
      rw ble ((v.1 (stats_index t)).balanced, (v.1 (stats_index t)).begun, v.0.bounded)
