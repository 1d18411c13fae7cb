-- ===== src/Radio.antt =====
-- What the radio components share: `esp_err_t` and the backend interface of
-- components/rid_radio/include/rid/wifi_transport.hpp.
pub mod Pending
use esp32_rid.Prelude.{
  ℕ, zero, suc, ◌+◌, ◌-◌, ◌*◌, ◌/◌, ◌%◌, ◌^◌, ◌≤◌, ◌<◌, ◌≡◌, refl, sym, ap, ◌∙◌, ◌≢◌, ◌↔◌, ◌⊎◌, inl,
  inr, Bool, true, false, not, ◌&&◌, ◌||◌, Option, none, some, List, [], ◌∷◌, ◌++◌, map, append-nil,
  append_assoc, arith, ltb, leb, ◌==◌, if◌then◌else◌, ltb→lt, lt→ltb, leb→le, ==_iff, Bool-cases,
  Option-cases, All, length, get_or, set, take, drop, replicate, erase_at, length-append,
  length-set, length-take, length-drop, length-replicate, length-erase_at, length-erase_at-le,
  take-append, drop-append, take-append-drop, All-append, All-erase_at, All-get_or,
}

-- The error codes that the code names; every other code is `other`.
pub data EspErr : Type 0 where
  esp_ok esp_fail no_mem invalid_arg invalid_state invalid_size : EspErr
  other : ℕ → EspErr

abbrev pub is_ok : EspErr → Bool
is_ok esp_ok = true
is_ok _ = false

-- `WifiBackend`, over the state `D` of whatever implements it.
pub record WifiBackend (D : Type 0) : Type 0 where
  pub set_country_cn : D → EspErr × D
  pub set_channel : ℕ → D → EspErr × D
  pub transmit : List ℕ → D → EspErr × D
