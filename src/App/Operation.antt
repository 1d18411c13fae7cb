-- ===== src/App/Operation.antt =====
-- What each round of `runtime_task` of main/app_main.cpp does with the radios.
use mathlib.Core.Path.{subst}
use esp32_rid.Prelude.{
  ℕ, ◌≡◌, refl, sym, ap, ◌∙◌, ◌⊎◌, true, Option, List, [], ◌∷◌, ◌++◌, if_cases, All, All-append,
}
use esp32_rid.Identity.{Digest}
use esp32_rid.Model.{MessageKind, FlightState, GeoPoint}
use esp32_rid.Config.{SystemConfig}
use esp32_rid.Payload.{ScheduledPayload}
use esp32_rid.Radio.{WifiBackend}
use esp32_rid.Coordinator.{init}
use esp32_rid.Ble.{no_error, GapBackend, create, poll as ble_poll}
use esp32_rid.Ble.Progress.{poll-Advanced}
use esp32_rid.Odid.{Core}
use esp32_rid.Odid.Packs.{Documented}
use esp32_rid.Odid.Encoders.{runtime_encoders, runtime_encoders-Single}
use esp32_rid.Runtime.{Runtime, Engine, no_failure}
use esp32_rid.Runtime.Schedule.{apply}
use esp32_rid.Runtime.Ticks.{tick}
use esp32_rid.Runtime.Frames.{Sendable, Carried}
use esp32_rid.Runtime.Handed.{tick-keeps}
use esp32_rid.Runtime.Due.{tick-aircraft, tick-running}
use esp32_rid.Runtime.Applied.{apply-Carried, apply-running}
use esp32_rid.App.{Radios, radio_sink}
use esp32_rid.App.Rounds.{
  Context, Event, round_at, completes, running_round, step, steps, max_wifi_polls,
}
use esp32_rid.App.Polls.{Polled, wifi_polls-Polled}

-- `RadioSink` over several payloads, one after the other.
unfoldable pub hand : List ScheduledPayload → Radios → Radios
hand [] s = s
hand (p ∷ ps) s = hand ps (radio_sink p s).1

hand-snoc :
    (ps : List ScheduledPayload) (p : ScheduledPayload) (s : Radios)
    → hand (ps ++ (p ∷ [])) s ≡ (radio_sink p (hand ps s)).1
unfolding hand
hand-snoc [] p s = refl
hand-snoc (q ∷ ps) p s = hand-snoc ps p (radio_sink q s).1

module _ {E W B : Type 0} (engine : Engine E) (core : Core)
    (gb : MessageKind → FlightState → List ℕ → Option GeoPoint → Option (List ℕ))
    (wifi : WifiBackend W) (ble : GapBackend B) where
  -- A round from one state of the application to another: the tick hands some payloads that their
  -- transport can send to the radios, then come the Wi-Fi polls, at most eight, and one BLE poll. If
  -- that poll reports no error, an advertisement is on the air or no payload waits for BLE.
  pub record Round (now_ms : ℕ) (x x' : Context E W B) : Type 0 where
    pub handed : List ScheduledPayload
    pub sendable : All Sendable handed
    pub ticked :
        (x'.runtime
          ≡ (tick engine (runtime_encoders core gb) radio_sink x.runtime now_ms x.radios).runtime)
        × ((tick engine (runtime_encoders core gb) radio_sink x.runtime now_ms x.radios).sink
            ≡ hand handed x.radios)
    pub wifi_polled :
        Polled wifi now_ms 8
          ((hand handed x.radios).wifi, x.wifi_device)
          (x'.radios.wifi, x'.wifi_device)
    pub ble_polled :
        (x'.radios.ble ≡ (ble_poll ble (hand handed x.radios).ble now_ms x.ble_device).1)
        × (x'.ble_device ≡ (ble_poll ble (hand handed x.radios).ble now_ms x.ble_device).2)
    pub advertised :
        (ble_poll ble (hand handed x.radios).ble now_ms x.ble_device).0 ≡ no_error
        → (x'.radios.ble.busy ≡ true) ⊎ (x'.radios.ble.pending_count ≡ 0)

  module _ (laws : Documented core) where
    -- What a tick makes of the radios.
    abbrev Handed : Radios → Radios → Type 0
    Handed s s' = (ps : List ScheduledPayload) × All Sendable ps × (s' ≡ hand ps s)

    radio_sink-Handed :
        (s : Radios) (p : ScheduledPayload) (s' : Radios)
        → Sendable p
        → Handed s s'
        → Handed s (radio_sink p s').1
    radio_sink-Handed s p s' sendable (ps, all, e) = (
      ps ++ (p ∷ []),
      All-append Sendable ps (p ∷ []) all (sendable, tt),
      ap (λ r. (radio_sink p r).1) e ∙ sym (hand-snoc ps p s),
    )

    -- The runtime runs, with a fleet that was applied.
    record Operated (x : Context E W B) : Type 0 where
      on : x.runtime.running ≡ true
      fleet : All Carried x.runtime.aircraft

    tick-Handed :
        (now_ms : ℕ) (x : Context E W B)
        → Operated x
        → Handed x.radios
            (tick engine (runtime_encoders core gb) radio_sink x.runtime now_ms x.radios).sink
    unfolding hand
    tick-Handed now_ms x h =
        tick-keeps engine (runtime_encoders core gb) (runtime_encoders-Single core gb laws)
          radio_sink (Handed x.radios) (radio_sink-Handed x.radios) x.runtime now_ms x.radios
          h.fleet ([], tt, refl)

    running_round-Round :
        (now_ms : ℕ) (x : Context E W B)
        → Operated x
        → Round now_ms x (running_round engine (runtime_encoders core gb) wifi ble now_ms x)
    unfolding running_round
    running_round-Round now_ms x h =
        let (ps, all, e) = tick-Handed now_ms x h in
        let t = tick engine (runtime_encoders core gb) radio_sink x.runtime now_ms x.radios in
        record {
          handed = ps;
          sendable = all;
          ticked = (refl, e);
          wifi_polled =
              subst
                (λ (s : Radios).
                  Polled wifi now_ms 8 (s.wifi, x.wifi_device)
                    (
                      (running_round engine (runtime_encoders core gb) wifi ble now_ms
                          x).radios.wifi,
                      (running_round engine (runtime_encoders core gb) wifi ble now_ms
                          x).wifi_device,
                    ))
                e (wifi_polls-Polled wifi now_ms max_wifi_polls t.sink.wifi x.wifi_device);
          ble_polled = (
            ap (λ (s : Radios). (ble_poll ble s.ble now_ms x.ble_device).1) e,
            ap (λ (s : Radios). (ble_poll ble s.ble now_ms x.ble_device).2) e,
          );
          advertised = λ k.
              poll-Advanced ble t.sink.ble now_ms x.ble_device
                (ap (λ (s : Radios). (ble_poll ble s.ble now_ms x.ble_device).0) e ∙ k);
        }

    step-Operated :
        (e : Event) (x : Context E W B)
        → Operated x
        → Operated (step engine (runtime_encoders core gb) wifi ble e x)
    unfolding step running_round
    step-Operated (completes event) x h = record { on = h.on; fleet = h.fleet }
    step-Operated (round_at now_ms) x h =
        let encoders = runtime_encoders core gb in
        if_cases Operated (x.runtime.running)
          (λ e. record {
            on = tick-running engine encoders radio_sink x.runtime x.radios now_ms ∙ h.on;
            fleet =
                subst (All Carried)
                  (sym (tick-aircraft engine encoders radio_sink x.runtime x.radios now_ms))
                  h.fleet;
          })
          (λ e. h)

    steps-Operated :
        (es : List Event) (x : Context E W B)
        → Operated x
        → Operated (steps engine (runtime_encoders core gb) wifi ble es x)
    unfolding steps
    steps-Operated [] x h = h
    steps-Operated (e ∷ es) x h =
        steps-Operated es (step engine (runtime_encoders core gb) wifi ble e x)
          (step-Operated e x h)

  -- The application when a configuration has been applied to its runtime and its radios are new.
  unfoldable pub new_context : Runtime E → ℕ → ℕ → W → B → Context E W B
  new_context r dwell_ms retry_ms wd bd = record {
    runtime = r;
    radios = record { wifi = init dwell_ms retry_ms; ble = (create ble bd).0 };
    wifi_device = wd;
    ble_device = (create ble bd).1;
  }

  -- The same after some rounds and completions.
  abbrev pub operated : Runtime E → ℕ → ℕ → W → B → List Event → Context E W B
  operated r dwell_ms retry_ms wd bd es =
      steps engine (runtime_encoders core gb) wifi ble es (new_context r dwell_ms retry_ms wd bd)

  -- Once a configuration has been applied, and whatever rounds and completions have followed, a round
  -- does the following, over any backends and an OpenDroneID library that does what it documents. The
  -- runtime ticks, and some payloads go one after the other to the radios, each of a size that its
  -- transport can send. The coordinator is then polled at most eight times: a payload waits for Wi-Fi
  -- before each poll, each poll but the last succeeds, and fewer than eight are made only if none
  -- waits any more or the last one fails. BLE is polled once, and if that poll reports no error,
  -- an advertisement is then on the air or no payload waits for BLE.
  pub step-Round :
      (sha256 : Digest) (device : List ℕ) (r : Runtime E) (config : SystemConfig)
      (start_ms dwell_ms retry_ms : ℕ) (wd : W) (bd : B) (es : List Event) (now_ms : ℕ)
      → Documented core
      → (apply engine sha256 device r config start_ms).0 ≡ no_failure
      → let r' = (apply engine sha256 device r config start_ms).1 in
        let x = operated r' dwell_ms retry_ms wd bd es in
        Round now_ms x (step engine (runtime_encoders core gb) wifi ble (round_at now_ms) x)
  unfolding new_context step
  step-Round sha256 device r config start_ms dwell_ms retry_ms wd bd es now_ms laws h =
      let r' = (apply engine sha256 device r config start_ms).1 in
      let x = operated r' dwell_ms retry_ms wd bd es in
      let o = steps-Operated laws es (new_context r' dwell_ms retry_ms wd bd) (record {
        on = apply-running engine sha256 device r config start_ms h;
        fleet = apply-Carried engine sha256 device r config start_ms h;
      }) in
      if_cases (Round now_ms x) (x.runtime.running) (λ e. running_round-Round laws now_ms x o)
        (λ e. cc)
