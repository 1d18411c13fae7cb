-- ===== src/App/Rounds.antt =====
-- `runtime_task` of main/app_main.cpp: the rounds in which the application ticks the runtime and polls
-- its radios, between which the host task reports completions.
use esp32_rid.Prelude.{ℕ, zero, suc, ◌+◌, not, List, [], ◌∷◌, ◌==◌, if◌then◌else◌}
use esp32_rid.Model.{wifi24, wifi58}
use esp32_rid.Radio.{WifiBackend, is_ok}
use esp32_rid.Coordinator.{Coordinator, depth, poll as wifi_poll}
use esp32_rid.Ble.{Completion, GapBackend, enqueue_completion, poll as ble_poll}
use esp32_rid.Runtime.{Runtime, Engine, Encoders}
use esp32_rid.Runtime.Ticks.{tick}
use esp32_rid.App.{Radios, radio_sink}

abbrev pub max_wifi_polls : ℕ
max_wifi_polls = 8

-- `RuntimeContext`, with the states of what the two backends drive.
pub record Context (E W B : Type 0) : Type 0 where
  pub runtime : Runtime E
  pub radios : Radios
  pub wifi_device : W
  pub ble_device : B

-- A round of the task at a time, or a completion that the host task reports.
pub data Event : Type 0 where
  round_at : ℕ → Event
  completes : Completion → Event

module _ {W : Type 0} (backend : WifiBackend W) where
  unfoldable pub wifi_polls : ℕ → Coordinator → ℕ → W → Coordinator × W
  wifi_polls zero c now_ms d = (c, d)
  wifi_polls (suc attempts) c now_ms d =
      let (result, c', d') = wifi_poll backend c now_ms d in
      let rest = wifi_polls attempts c' now_ms d' in
      if depth c wifi24 + depth c wifi58 == 0
      then (c, d)
      else if not (is_ok result)
      then (c', d')
      else rest

module _ {E W B : Type 0} (engine : Engine E) (encoders : Encoders) (wifi : WifiBackend W)
    (ble : GapBackend B) where
  -- The round of a runtime that runs.
  unfoldable pub running_round : ℕ → Context E W B → Context E W B
  running_round now_ms x =
      let t = tick engine encoders radio_sink x.runtime now_ms x.radios in
      let w = wifi_polls wifi max_wifi_polls t.sink.wifi now_ms x.wifi_device in
      let b = ble_poll ble t.sink.ble now_ms x.ble_device in
      record {
        runtime = t.runtime;
        radios = record { wifi = w.0; ble = b.1 };
        wifi_device = w.1;
        ble_device = b.2;
      }

  unfoldable pub step : Event → Context E W B → Context E W B
  step (round_at now_ms) x = if x.runtime.running then running_round now_ms x else x
  step (completes event) x = record x {
    radios = record (x.radios) { ble = enqueue_completion x.radios.ble event };
  }

  unfoldable pub steps : List Event → Context E W B → Context E W B
  steps [] x = x
  steps (e ∷ es) x = steps es (step e x)
