-- ===== src/App/Polls.antt =====
-- The polls of a round of `runtime_task` of main/app_main.cpp.
use esp32_rid.Prelude.{
  ℕ, zero, suc, ◌+◌, ◌≤◌, ◌<◌, ◌≡◌, refl, ap, ◌≢◌, ◌⊎◌, inl, inr, Bool, true, false, not, arith,
  ◌==◌, if_cases, replicate,
}
use esp32_rid.Model.{wifi24, wifi58}
use esp32_rid.Radio.{WifiBackend, is_ok}
use esp32_rid.Coordinator.{Coordinator, depth, polls, step, run, poll}
use esp32_rid.App.Rounds.{wifi_polls}

module _ {W : Type 0} (backend : WifiBackend W) (now_ms : ℕ) where
  -- What waits for the Wi-Fi radio, the state after a number of polls, and whether a poll succeeds.
  abbrev pub wifi_waiting : Coordinator × W → ℕ
  wifi_waiting s = depth s.0 wifi24 + depth s.0 wifi58

  abbrev pub after : ℕ → Coordinator × W → Coordinator × W
  after count s = run backend s (replicate count (polls now_ms))

  abbrev pub succeeds : Coordinator × W → Bool
  succeeds s = is_ok (poll backend s.0 now_ms s.1).0

  -- At most `attempts` polls lead from one state to the other. Something waits before each of them,
  -- and each but the last succeeds. Fewer are made only if nothing waits any more or the last fails.
  pub record Polled (attempts : ℕ) (s s' : Coordinator × W) : Type 0 where
    pub count : ℕ
    pub few : count ≤ attempts
    pub polled : s' ≡ after count s
    pub going : (j : ℕ) → j < count → wifi_waiting (after j s) ≢ 0
    pub succeeding : (j : ℕ) → suc j < count → succeeds (after j s) ≡ true
    pub stopped :
        (count ≡ attempts)
        ⊎ (wifi_waiting s' ≡ 0)
        ⊎ ((j : ℕ) × (count ≡ suc j) × (succeeds (after j s) ≡ false))

  -- Something waits before the first poll and before each of the rest.
  first_going :
      (count : ℕ) (s : Coordinator × W)
      → wifi_waiting s ≢ 0
      → ((j : ℕ) → j < count → wifi_waiting (after j (step backend s (polls now_ms))) ≢ 0)
      → (j : ℕ) → j < suc count
      → wifi_waiting (after j s) ≢ 0
  unfolding run
  first_going count s h rest zero l = h
  first_going count s h rest (suc j) l = rest j (omega arith)

  first_succeeding :
      (count : ℕ) (s : Coordinator × W)
      → succeeds s ≡ true
      → ((j : ℕ) → suc j < count → succeeds (after j (step backend s (polls now_ms))) ≡ true)
      → (j : ℕ) → suc j < suc count
      → succeeds (after j s) ≡ true
  unfolding run
  first_succeeding count s h rest zero l = h
  first_succeeding count s h rest (suc j) l = rest j (omega arith)

  first-Polled :
      (attempts : ℕ) (s s' : Coordinator × W)
      → wifi_waiting s ≢ 0
      → succeeds s ≡ true
      → Polled attempts (step backend s (polls now_ms)) s'
      → Polled (suc attempts) s s'
  unfolding run
  first-Polled attempts s s' w h k = record {
    count = suc k.count;
    few = omega (arith, k.few);
    polled = k.polled;
    going = first_going k.count s w k.going;
    succeeding = first_succeeding k.count s h k.succeeding;
    stopped = elim k.stopped [
      | inl e ↦ inl (ap suc e)
      | inr (inl e) ↦ inr (inl e)
      | inr (inr (j, e, f)) ↦ inr (inr (suc j, ap suc e, f))
    ];
  }

  none-Polled : (attempts : ℕ) (s : Coordinator × W) → wifi_waiting s ≡ 0 → Polled attempts s s
  unfolding run
  none-Polled attempts s h = record {
    count = 0;
    few = omega arith;
    polled = refl;
    going = λ j l. omega (arith, l);
    succeeding = λ j l. absurd (omega (arith, l));
    stopped = inr (inl h);
  }

  failed-Polled :
      (attempts : ℕ) (s : Coordinator × W)
      → wifi_waiting s ≢ 0
      → succeeds s ≡ false
      → Polled (suc attempts) s (step backend s (polls now_ms))
  unfolding run
  failed-Polled attempts s w h = record {
    count = 1;
    few = omega arith;
    polled = refl;
    going = first_going 0 s w (λ j l. omega (arith, l));
    succeeding = λ j l. absurd (omega (arith, l));
    stopped = inr (inr (0, refl, h));
  }

  pub wifi_polls-Polled :
      (attempts : ℕ) (c : Coordinator) (d : W)
      → Polled attempts (c, d) (wifi_polls backend attempts c now_ms d)
  unfolding wifi_polls step run
  wifi_polls-Polled zero c d = record {
    count = 0;
    few = omega arith;
    polled = refl;
    going = λ j l. omega (arith, l);
    succeeding = λ j l. absurd (omega (arith, l));
    stopped = inl refl;
  }
  wifi_polls-Polled (suc attempts) c d =
      let r = poll backend c now_ms d in
      if_cases (Polled (suc attempts) (c, d)) (depth c wifi24 + depth c wifi58 == 0)
        (λ e. none-Polled (suc attempts) (c, d) (ground (arith, e)))
        (λ e.
          if_cases (Polled (suc attempts) (c, d)) (not (is_ok r.0))
            (λ e1. failed-Polled attempts (c, d) (λ z. ground (arith, e, z)) (ground (arith, e1)))
            (λ e1.
              first-Polled attempts (c, d) (wifi_polls backend attempts r.1 now_ms r.2)
                (λ z. ground (arith, e, z)) (ground (arith, e1))
                (wifi_polls-Polled attempts r.1 r.2)))
