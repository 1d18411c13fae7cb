-- ===== src/Ble/Drain.antt =====
-- The completions that the BLE transport takes from its ring: all of them, and each frees the radio.
use esp32_rid.Prelude.{
  ℕ, zero, suc, ◌+◌, ◌-◌, ◌%◌, ◌≤◌, ◌<◌, ◌≡◌, refl, ◌∙◌, ◌≢◌, ◌⊎◌, inl, inr, Bool, true, false,
  List, arith, ltb, ◌==◌, if◌then◌else◌, ==_iff, if_cases, length,
}
use esp32_rid.Ble.Invariant.{Held}
use esp32_rid.Payload.{u64_max}
use esp32_rid.Ble.Invariant.{fresh-Inv}
use esp32_rid.Ble.Steps.{enqueue_completion-Inv}
use esp32_rid.Ble.Run.{Event, run-Inv, run_created}
use esp32_rid.Ble.{
  GapBackend, fresh, create, Ble, Completion, ring_size, succeeded, enqueue_completion, finish,
  drain_loop, drain_completions,
}

-- How far the reading position is behind a writing position.
abbrev behind : ℕ → ℕ → ℕ
behind read write = (write + ring_size - read) % ring_size

finish-idle : (success : Bool) (b : Ble) → (finish success b).busy ≡ false
unfolding finish
finish-idle success b = if_cases (λ (x : Ble). x.busy ≡ false) b.busy (λ h. refl) (λ h. h)

finish-read : (success : Bool) (b : Ble) → (finish success b).read ≡ b.read
unfolding finish
finish-read success b = if_cases (λ (x : Ble). x.read ≡ b.read) b.busy (λ h. refl) (λ h. refl)

drain_loop-idle :
    (fuel : ℕ) (b : Ble) (write : ℕ) → b.busy ≡ false → (drain_loop fuel b write).busy ≡ false
unfolding drain_loop
drain_loop-idle zero b write h = h
drain_loop-idle (suc fuel) b write h =
    if_cases (λ (x : Ble). x.busy ≡ false) (b.read == write) (λ e. h)
      (λ e. drain_loop-idle fuel _ write (finish-idle (succeeded (b.completions b.read)) b))

drain_loop-read :
    (fuel : ℕ) (b : Ble) (write : ℕ)
    → b.read < ring_size
    → write < ring_size
    → behind b.read write ≤ fuel
    → (drain_loop fuel b write).read ≡ write
unfolding drain_loop
drain_loop-read zero b write r w h = omega arith
drain_loop-read (suc fuel) b write r w h =
    if_cases (λ (x : Ble). x.read ≡ write) (b.read == write) (λ e. (==_iff b.read write).0 e)
      (λ e.
        drain_loop-read fuel _ write (omega arith) w
          (let apart : b.read ≢ write = λ k. absurd (ground (arith, e, k)) in omega (arith, apart)))

-- A round that finds a completion leaves the radio free.
drain_loop-frees :
    (fuel : ℕ) (b : Ble) (write : ℕ) → b.read ≢ write → (drain_loop (suc fuel) b write).busy ≡ false
unfolding drain_loop
drain_loop-frees fuel b write h =
    if_cases (λ (x : Ble). x.busy ≡ false) (b.read == write)
      (λ e. absurd (h ((==_iff b.read write).0 e)))
      (λ e. drain_loop-idle fuel _ write (finish-idle (succeeded (b.completions b.read)) b))

drain_loop-overflows :
    (fuel : ℕ) (b : Ble) (write : ℕ) → (drain_loop fuel b write).overflows ≡ b.overflows
unfolding drain_loop finish
drain_loop-overflows zero b write = refl
drain_loop-overflows (suc fuel) b write =
    let b' = finish (succeeded (b.completions b.read)) b in
    if_cases (λ (x : Ble). x.overflows ≡ b.overflows) (b.read == write) (λ e. refl)
      (λ e.
        drain_loop-overflows fuel (record b' { read = (b.read + 1) % ring_size }) write
        ∙ if_cases (λ (x : Ble). x.overflows ≡ b.overflows) b.busy (λ k. refl) (λ k. refl))

-- What is left once the loop is done.
settle : Ble → Ble
settle b =
    let idle = record b { overflows = 0 } in if ltb 0 b.overflows then finish false idle else idle

settle-kept : (b : Ble) → ((settle b).read ≡ b.read) × ((settle b).overflows ≡ 0)
unfolding settle finish
settle-kept b = ground arith

settle-frees : (b : Ble) → (b.busy ≡ false) ⊎ (0 < b.overflows) → (settle b).busy ≡ false
unfolding settle finish
settle-frees b h = ground arith

drain_completions-settle : (b : Ble) → drain_completions b ≡ settle (drain_loop ring_size b b.write)
unfolding drain_completions settle
drain_completions-settle b = refl

-- The ring is empty after a drain, and its overflows are forgotten.
pub drain_completions-empties :
    (b : Ble)
    → Held b
    → ((drain_completions b).read ≡ b.write) × ((drain_completions b).overflows ≡ 0)
drain_completions-empties b h =
    let looped = drain_loop ring_size b b.write in
    rw (drain_completions-settle b) (
      (settle-kept looped).0
          ∙ drain_loop-read ring_size b b.write h.reading h.writing (omega arith),
      (settle-kept looped).1,
    )

-- A drain that finds a completion, or only the mark of one that was lost, leaves the radio free.
pub drain_completions-frees :
    (b : Ble) → (b.read ≢ b.write) ⊎ (0 < b.overflows) → (drain_completions b).busy ≡ false
drain_completions-frees b (inl h) =
    rw (drain_completions-settle b)
      (settle-frees (drain_loop ring_size b b.write) (inl (drain_loop-frees 7 b b.write h)))
drain_completions-frees b (inr h) = rw (drain_completions-settle b) (
    settle-frees (drain_loop ring_size b b.write)
      (inr (rw (drain_loop-overflows ring_size b b.write) h)))

-- Reporting a completion leaves the ring with something to find.
enqueue_completion-unread :
    (b : Ble) (event : Completion)
    → Held b
    → (enqueue_completion b event).read ≢ (enqueue_completion b event).write
unfolding enqueue_completion
enqueue_completion-unread b event h =
    if_cases (λ (x : Ble). x.read ≢ x.write) ((b.write + 1) % ring_size == b.read)
      (λ e k. omega (arith, (==_iff ((b.write + 1) % ring_size) b.read).0 e, h.writing, k))
      (λ e k. absurd (ground (arith, e, k)))

drain-enqueue :
    (b : Ble) (event : Completion)
    → Held b
    → (drain_completions (enqueue_completion b event)).busy ≡ false
drain-enqueue b event h =
    drain_completions-frees (enqueue_completion b event) (inl (enqueue_completion-unread b event h))

module _ {D : Type 0} (backend : GapBackend D) where
  -- After any sequence of submissions, polls and completions on a transport that has just been created,
  -- once the host reports one more completion, even to a full ring, the next drain frees the radio,
  -- reads the ring up to its writing position and forgets the overflows.
  pub completion-frees :
      (es : List Event) (d : D) (event : Completion)
      → length es ≤ u64_max
      → let b = enqueue_completion (run_created backend es d) event in
        let b' = drain_completions b in (b'.busy ≡ false) × (b'.read ≡ b.write) × (b'.overflows ≡ 0)
  unfolding run_created create
  completion-frees es d event h =
      let v =
        run-Inv backend es 0 (length es) fresh (backend.set_callback true d) (omega arith) h
          fresh-Inv in
      let b = enqueue_completion (run_created backend es d) event in
      let w = enqueue_completion-Inv (length es) (run_created backend es d) event v in
      let e = drain_completions-empties b w.0 in
      (drain-enqueue (run_created backend es d) event v.0, e.0, e.1)
