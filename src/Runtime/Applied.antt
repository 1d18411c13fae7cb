-- ===== src/Runtime/Applied.antt =====
-- The payloads that go to the sink once a configuration has been applied.
use mathlib.Core.Path.{subst}
use esp32_rid.Prelude.{
  ℕ, zero, suc, ◌+◌, ◌≡◌, sym, ap, ◌⊎◌, inl, inr, true, false, List, [], ◌∷◌, arith, All,
  All-append,
}
use esp32_rid.Model.{open_drone_id, gb46750, is_wifi, is_ble}
use esp32_rid.Identity.{Digest}
use esp32_rid.Config.{SystemConfig, GroupConfig, is_odid}
use esp32_rid.Config.Valid.{Supported, GroupValid, validate_iff}
use esp32_rid.Config.Expand.{members, fleet}
use esp32_rid.Payload.{ScheduledPayload}
use esp32_rid.Runtime.{Runtime, no_failure, Engine, Encoders, Sink}
use esp32_rid.Runtime.Schedule.{apply}
use esp32_rid.Runtime.Ticks.{tick}
use esp32_rid.Runtime.Due.{tick-aircraft}
use esp32_rid.Runtime.Accounting.{ticks, apply_cases}
use esp32_rid.Runtime.Frames.{Sendable, Single, Carried}
use esp32_rid.Runtime.Handed.{tick-keeps}

module _ (sha256 : Digest) (device : List ℕ) where
  group-Carried :
      (g : GroupConfig) (group_index n first : ℕ)
      → Supported g
      → All Carried (members sha256 device g group_index n first)
  group-Carried g group_index zero first h = tt
  group-Carried g group_index (suc n) first h =
      (carried (h.1), group-Carried g group_index n (first + 1) h)
    where
      carried :
          ((g.protocol ≡ open_drone_id)
              × ((is_wifi g.transport ≡ true) ⊎ (is_ble g.transport ≡ true)))
            ⊎ ((g.protocol ≡ gb46750) × (is_wifi g.transport ≡ true))
          → ((is_odid g.protocol ≡ true)
              × ((is_wifi g.transport ≡ true) ⊎ (is_ble g.transport ≡ true)))
            ⊎ ((is_odid g.protocol ≡ false) × (is_wifi g.transport ≡ true))
      carried (inl (p, t)) = inl (ap is_odid p, t)
      carried (inr (p, t)) = inr (ap is_odid p, t)

  fleet-Carried :
      (group_index : ℕ) (gs : List GroupConfig)
      → All GroupValid gs
      → All Carried (fleet sha256 device group_index gs)
  fleet-Carried group_index [] h = tt
  fleet-Carried group_index (g ∷ gs) h =
      All-append Carried (members sha256 device g group_index g.count 0)
        (fleet sha256 device (group_index + 1) gs)
        (group-Carried g group_index g.count 0 h.0.combination)
        (fleet-Carried (group_index + 1) gs h.1)

-- The aircraft of a configuration that was applied.
pub apply-Carried :
    {E : Type 0} (engine : Engine E) (sha256 : Digest) (device : List ℕ) (r : Runtime E)
    (config : SystemConfig) (now_ms : ℕ)
    → (apply engine sha256 device r config now_ms).0 ≡ no_failure
    → All Carried (apply engine sha256 device r config now_ms).1.aircraft
apply-Carried engine sha256 device r config now_ms h =
    elim (apply_cases engine sha256 device r config now_ms) [
      | inl k ↦ absurd (ground (arith, k.0, h))
      | inr k ↦
          subst (All Carried) (sym (k.4))
            (fleet-Carried sha256 device 0 config.groups ((validate_iff config).0 (k.3)).groups)
    ]

pub apply-running :
    {E : Type 0} (engine : Engine E) (sha256 : Digest) (device : List ℕ) (r : Runtime E)
    (config : SystemConfig) (now_ms : ℕ)
    → (apply engine sha256 device r config now_ms).0 ≡ no_failure
    → (apply engine sha256 device r config now_ms).1.running ≡ true
apply-running engine sha256 device r config now_ms h =
    elim (apply_cases engine sha256 device r config now_ms) [
      | inl k ↦ absurd (ground (arith, k.0, h))
      | inr k ↦ k.5
    ]

module _ {E S : Type 0} (engine : Engine E) (encoders : Encoders) (single : Single encoders)
    (sink : Sink S) (P : S → Type 0)
    (keeps : (p : ScheduledPayload) (s : S) → Sendable p → P s → P (sink p s).1) where
  ticks-keeps :
      (times : List ℕ) (r : Runtime E) (s : S)
      → All Carried r.aircraft
      → P s
      → P (ticks engine encoders sink times r s).1
  unfolding ticks
  ticks-keeps [] r s c h = h
  ticks-keeps (now_ms ∷ times) r s c h =
      let t = tick engine encoders sink r now_ms s in
      ticks-keeps times (t.runtime) (t.sink)
        (subst (All Carried) (sym (tick-aircraft engine encoders sink r s now_ms)) c)
        (tick-keeps engine encoders single sink P keeps r now_ms s c h)

  -- Once a configuration has been applied, the ticks hand to the sink only payloads that their
  -- transport can send: whatever property of the sink's state every such payload keeps is kept by any
  -- sequence of ticks. Sendable are, over Wi-Fi, 1 to 512 bytes, and over BLE at most the 31 or 158
  -- bytes of the mode of its transport. The encoder gives 25 bytes for a single OpenDroneID message.
  pub apply-keeps :
      (sha256 : Digest) (device : List ℕ) (r : Runtime E) (config : SystemConfig) (now_ms : ℕ)
      (times : List ℕ) (s : S)
      → (apply engine sha256 device r config now_ms).0 ≡ no_failure
      → P s
      → P (ticks engine encoders sink times (apply engine sha256 device r config now_ms).1 s).1
  apply-keeps sha256 device r config now_ms times s h p =
      ticks-keeps times (apply engine sha256 device r config now_ms).1 s
        (apply-Carried engine sha256 device r config now_ms h) p
