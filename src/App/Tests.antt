-- ===== src/App/Tests.antt =====
-- `RadioSink` on a payload for BLE 4.
use esp32_rid.Model.{valid_longitude, valid_latitude, MessageKind, FlightState, GeoPoint}
use esp32_rid.Prelude.{ℕ, ◌+◌, ◌≡◌, refl, inl, inr, true, Option, none, List, [], ◌∷◌, arith}
use esp32_rid.Model.{ble4}
use esp32_rid.Payload.{ScheduledPayload, blank}
use esp32_rid.Coordinator.{init}
use esp32_rid.Ble.{fresh, GapBackend}
use esp32_rid.Radio.{WifiBackend, esp_ok}
use esp32_rid.Model.Floats.{is_finite32, is_finite64, is_nan64, le64, le32, signed_le, is_nan32}
use esp32_rid.Trajectory.{default_trajectory, valid_trajectory, finite_nonnegative}
use esp32_rid.Config.{
  validate, valid_site, valid_period, validate_groups, check_group, contains, bytes_eq, supported,
  periods_ok,
}
use esp32_rid.Identity.{derive_test_id, hex_bytes}
use esp32_rid.Config.{new_group, expand_groups, expand_group, validate_and_expand}
use esp32_rid.Config.Tests.{system}
use esp32_rid.Runtime.{create}
use esp32_rid.Runtime.Schedule.{apply}
use esp32_rid.Runtime.Tests.{parked, digest}
use esp32_rid.App.Rounds.{Event, round_at, completes, step}
use esp32_rid.App.Operation.{operated, Round, step-Round}
use esp32_rid.Odid.Tests.{numbers, numbers-Documented}
use esp32_rid.Odid.Encoders.{runtime_encoders}
use esp32_rid.App.{Radios, radio_sink}
use esp32_rid.App.Acceptance.{radio_sink_accepts}

abbrev radios : Radios
radios = record { wifi = init 100 20; ble = fresh }

abbrev advert : ScheduledPayload
advert = record blank { transport = ble4; size = 31 }

radio_sink_accepts_example : (radio_sink advert radios).0 ≡ true
unfolding fresh
radio_sink_accepts_example =
    (radio_sink_accepts advert radios (inr (refl, omega arith, omega arith))).0.1
      (inl (refl, refl, refl, omega arith))

-- A Wi-Fi driver that counts the frames that it takes.
abbrev counting_wifi : WifiBackend ℕ
counting_wifi = record {
  set_country_cn = λ n. (esp_ok, n);
  set_channel = λ channel n. (esp_ok, n);
  transmit = λ bytes n. (esp_ok, n + 1);
}

-- A GAP backend that counts the advertisements that it starts.
abbrev counting_ble : GapBackend ℕ
counting_ble = record {
  configure = λ mode bytes n. (esp_ok, n);
  start = λ n. (esp_ok, n + 1);
  reset = λ n. (esp_ok, n);
  set_callback = λ on n. n;
}

-- An encoder of GB 46750 that encodes nothing.
abbrev no_gb : MessageKind → FlightState → List ℕ → Option GeoPoint → Option (List ℕ)
no_gb kind state id position = none

-- A round and a completion.
abbrev earlier : List Event
earlier = round_at 1000 ∷ completes (record { status = esp_ok; event_count = 1 }) ∷ []

step-Round_example :
    let r = (apply parked digest (1 ∷ []) (create 0) system 1000).1 in
    let x = operated parked numbers no_gb counting_wifi counting_ble r 100 20 0 0 earlier in
    Round parked numbers no_gb counting_wifi counting_ble 1500 x
      (step parked (runtime_encoders numbers no_gb) counting_wifi counting_ble (round_at 1500) x)
unfolding apply validate_and_expand expand_groups expand_group derive_test_id hex_bytes validate
    valid_site valid_period validate_groups check_group contains bytes_eq supported periods_ok
    new_group default_trajectory valid_trajectory valid_latitude valid_longitude is_finite64 le64
    signed_le is_nan64 finite_nonnegative is_finite32 le32 is_nan32
step-Round_example =
    step-Round parked numbers no_gb counting_wifi counting_ble digest (1 ∷ []) (create 0) system
      1000 100 20 0 0 earlier 1500 numbers-Documented refl
