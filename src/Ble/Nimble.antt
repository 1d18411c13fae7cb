-- ===== src/Ble/Nimble.antt =====
-- `NimbleBleGapBackend` of components/rid_radio/ble_transport.cpp, over the calls of NimBLE.
pub mod Memory
pub mod Released
pub mod Instances
use esp32_rid.Prelude.{
  le→leb, All-map, ℕ, zero, suc, ◌+◌, ◌-◌, ◌*◌, ◌/◌, ◌%◌, ◌^◌, ◌≤◌, ◌<◌, ◌≡◌, refl, sym, ap, ◌∙◌,
  ◌≢◌, ◌↔◌, ◌⊎◌, inl, inr, Bool, true, false, not, ◌&&◌, ◌||◌, Option, none, some, List, [], ◌∷◌,
  ◌++◌, map, append-nil, append_assoc, arith, ltb, leb, ◌==◌, if◌then◌else◌, ltb→lt, lt→ltb, leb→le,
  ==_iff, Bool-cases, Option-cases, if_cases, All, length, get_or, set, take, drop, replicate,
  erase_at, length-append, length-set, length-take, length-drop, length-replicate, length-erase_at,
  length-erase_at-le, take-append, drop-append, take-append-drop, All-append, All-erase_at,
  All-get_or,
}
use esp32_rid.Prelude.Arrays.{update}
use esp32_rid.Payload.{ByteView, null_view, view, view_size, view_bytes, is_null}
use esp32_rid.Radio.{
  EspErr, esp_ok, esp_fail, no_mem, invalid_arg, invalid_state, invalid_size, other, is_ok,
}
use esp32_rid.Ble.{
  BleMode, legacy, extended, legacy_max, extended_max, Completion, GapBackend, Ble,
  enqueue_completion,
}

-- The fields of `ble_gap_ext_adv_params` that `configure` sets; the PHYs are always 1M and the
-- interval is always the first fast one.
pub record AdvParameters : Type 0 where
  pub legacy_pdu : Bool
  pub own_addr_type : ℕ
  pub tx_power : ℕ
  pub sid : ℕ

-- The calls of NimBLE, over a state `H` of the host stack: `M` is the pointer to an `os_mbuf`, and a
-- return code is a number, 0 for success. `already` is `BLE_HS_EALREADY` and `timeout` is
-- `BLE_HS_ETIMEOUT`.
pub record Host (H M : Type 0) : Type 0 where
  pub already : ℕ
  pub timeout : ℕ
  pub adv_configure : ℕ → AdvParameters → H → ℕ × H
  pub get_pkthdr : ℕ → H → Option M × H
  pub append : M → List ℕ → H → ℕ × H
  pub free_chain : M → H → H
  pub set_data : ℕ → M → H → ℕ × H
  pub adv_start : ℕ → H → ℕ × H
  pub adv_stop : ℕ → H → ℕ × H
  pub adv_remove : ℕ → H → ℕ × H

pub record Nimble (H : Type 0) : Type 0 where
  pub own_address_type : ℕ
  pub instances : ℕ → ℕ
  pub configured : ℕ → Bool
  pub active_mode : BleMode
  pub callback : Bool
  pub host : H

-- The constructor.
unfoldable pub new_backend : {H : Type 0} → ℕ → ℕ → ℕ → H → Nimble H
new_backend own_address_type legacy_instance extended_instance host = record {
  own_address_type = own_address_type;
  instances = λ index. if index == 0 then legacy_instance else extended_instance;
  configured = λ index. false;
  active_mode = legacy;
  callback = false;
  host = host;
}

-- `static_cast<esp_err_t>`, with the values of ESP-IDF's codes.
abbrev pub cast : ℕ → EspErr
cast code =
    if code == 0
    then esp_ok
    else if code == 0x101
    then no_mem
    else if code == 0x102
    then invalid_arg
    else if code == 0x103
    then invalid_state
    else if code == 0x104
    then invalid_size
    else other code

abbrev pub mode_index : BleMode → ℕ
mode_index legacy = 0
mode_index extended = 1

abbrev pub mode_maximum : BleMode → ℕ
mode_maximum legacy = legacy_max
mode_maximum extended = extended_max

abbrev is_legacy : BleMode → Bool
is_legacy legacy = true
is_legacy extended = false

module _ {H M : Type 0} (api : Host H M) where
  -- The parameters of an instance, once.
  unfoldable pub ensure_configured : BleMode → Nimble H → ℕ × Nimble H
  ensure_configured mode n =
      let instance_id = n.instances (mode_index mode) in
      let parameters : AdvParameters = record {
        legacy_pdu = is_legacy mode;
        own_addr_type = n.own_address_type;
        tx_power = 127;
        sid = instance_id;
      } in
      let (code, h) = api.adv_configure instance_id parameters n.host in
      if n.configured (mode_index mode)
      then (0, n)
      else if not (code == 0)
      then (code, record n { host = h })
      else (0, record n { configured = update n.configured (mode_index mode) true; host = h })

  -- What `configure` does with the buffer that it has got.
  unfoldable pub fill : BleMode → List ℕ → M → Nimble H → EspErr × Nimble H
  fill mode bytes buffer n =
      let (appended, h1) = api.append buffer bytes n.host in
      let (placed, h2) = api.set_data (n.instances (mode_index mode)) buffer h1 in
      if not (appended == 0)
      then (cast appended, record n { host = api.free_chain buffer h1 })
      else if not (placed == 0)
      then (cast placed, record n { host = h2 })
      else (esp_ok, record n { active_mode = mode; host = h2 })

  unfoldable pub set_payload : BleMode → List ℕ → Nimble H → EspErr × Nimble H
  set_payload mode bytes n =
      let (buffer, h) = api.get_pkthdr (length bytes) n.host in
      elim buffer [
        | none ↦ (no_mem, record n { host = h })
        | some m ↦ fill mode bytes m (record n { host = h })
      ]

  unfoldable pub configure : BleMode → ByteView → Nimble H → EspErr × Nimble H
  unfolding ensure_configured
  configure mode payload n =
      let (code, n') = ensure_configured mode n in
      if is_null payload || view_size payload == 0
      then (invalid_arg, n)
      else if ltb (mode_maximum mode) (view_size payload)
      then (invalid_size, n)
      else if not (code == 0)
      then (cast code, n')
      else set_payload mode (view_bytes payload) n'

  unfoldable pub start : Nimble H → EspErr × Nimble H
  start n =
      let (code, h) = api.adv_start (n.instances (mode_index n.active_mode)) n.host in
      (cast code, record n { host = h })

  unfoldable pub stop : Nimble H → EspErr × Nimble H
  stop n =
      let (code, h) = api.adv_stop (n.instances (mode_index n.active_mode)) n.host in
      (if code == 0 || code == api.already then esp_ok else cast code, record n { host = h })

  -- One round of the loop of `reset`, with the first error so far.
  unfoldable pub reset_at : ℕ → EspErr × Nimble H → EspErr × Nimble H
  reset_at index (first, n) =
      let (stopped, h1) = api.adv_stop (n.instances index) n.host in
      let (removed, h2) = api.adv_remove (n.instances index) h1 in
      let first1 =
        if (not (stopped == 0) && not (stopped == api.already)) && is_ok first
        then cast stopped
        else first in
      let first2 = if not (removed == 0) && is_ok first1 then cast removed else first1 in
      if not (n.configured index) then (first, n) else (
        first2,
        record n {
          configured = if removed == 0 then update n.configured index false else n.configured;
          host = h2;
        },
      )

  unfoldable pub reset : Nimble H → EspErr × Nimble H
  reset n = reset_at 1 (reset_at 0 (esp_ok, n))

  -- `set_completion_callback`; the wait for callbacks that are running is not modelled.
  unfoldable pub set_callback : Bool → Nimble H → Nimble H
  set_callback on n = record n { callback = on }

  -- `gap_event` for a `BLE_GAP_EVENT_ADV_COMPLETE`: what it passes to the callback.
  unfoldable pub gap_event : Nimble H → ℕ → ℕ → ℕ → Option Completion
  gap_event n instance_id reason events =
      if not (instance_id == n.instances (mode_index n.active_mode))
      then none
      else if n.callback
      then some (record {
        status = if reason == api.timeout then esp_ok else cast reason;
        event_count = events;
      })
      else none

  -- It as the backend of `BleTransport`.
  unfoldable pub nimble_backend : GapBackend (Nimble H)
  nimble_backend = record {
    configure = λ mode bytes n. configure mode (view bytes) n;
    start = start;
    reset = reset;
    set_callback = set_callback;
  }
