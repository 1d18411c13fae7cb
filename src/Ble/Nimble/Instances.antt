-- ===== src/Ble/Nimble/Instances.antt =====
-- The advertising instances that the NimBLE backend sets up and removes.
use esp32_rid.Ble.Nimble.{no_mem}
use esp32_rid.Prelude.{
  ℕ, ◌≡◌, refl, sym, ◌∙◌, ◌≢◌, Bool, true, false, not, ◌||◌, Option, none, some, List, [], ◌∷◌,
  arith, ltb, ◌==◌, if◌then◌else◌, if_cases, length,
}
use esp32_rid.Prelude.Arrays.{update}
use esp32_rid.Payload.{ByteView, view_size, view_bytes, is_null}
use esp32_rid.Radio.{EspErr, esp_ok, is_ok}
use esp32_rid.Ble.Nimble.Released.{reset-Unconfigured}
use esp32_rid.Ble.{BleMode, legacy, extended}
use esp32_rid.Ble.Nimble.{
  mode_maximum, Host, Nimble, new_backend, ensure_configured, fill, set_payload, configure, start,
  stop, set_callback, reset, reset_at,
}

-- A host that keeps the set of its instances: `ble_gap_ext_adv_configure` adds one if it succeeds and
-- `ble_gap_ext_adv_remove` takes one away if it succeeds.
unfoldable pub tracked : {H M : Type 0} → Host H M → Host (H × (ℕ → Bool)) M
tracked api = record {
  already = api.already;
  timeout = api.timeout;
  adv_configure = λ i p h.
      let r = api.adv_configure i p h.0 in
      (r.0, (r.1, if r.0 == 0 then update h.1 i true else h.1));
  get_pkthdr = λ size h. let r = api.get_pkthdr size h.0 in (r.0, (r.1, h.1));
  append = λ m bytes h. let r = api.append m bytes h.0 in (r.0, (r.1, h.1));
  free_chain = λ m h. (api.free_chain m h.0, h.1);
  set_data = λ i m h. let r = api.set_data i m h.0 in (r.0, (r.1, h.1));
  adv_start = λ i h. let r = api.adv_start i h.0 in (r.0, (r.1, h.1));
  adv_stop = λ i h. let r = api.adv_stop i h.0 in (r.0, (r.1, h.1));
  adv_remove = λ i h.
      let r = api.adv_remove i h.0 in (r.0, (r.1, if r.0 == 0 then update h.1 i false else h.1));
}

-- A call of the backend.
pub data BackendCall : Type 0 where
  configures : BleMode → ByteView → BackendCall
  starts stops resets : BackendCall
  calls_back : Bool → BackendCall

module _ {H M : Type 0} (api : Host H M) where
  unfoldable pub perform : BackendCall → Nimble H → Nimble H
  perform (configures mode payload) n = (configure api mode payload n).1
  perform starts n = (start api n).1
  perform stops n = (stop api n).1
  perform resets n = (reset api n).1
  perform (calls_back on) n = set_callback api on n

  unfoldable pub perform_all : List BackendCall → Nimble H → Nimble H
  perform_all [] n = n
  perform_all (c ∷ cs) n = perform_all cs (perform c n)

-- Each instance that the host has is marked as configured, and the two are different ones.
record Marked {H : Type 0} (n : Nimble (H × (ℕ → Bool))) : Type 0 where
  distinct : n.instances 0 ≢ n.instances 1
  first : n.host.1 (n.instances 0) ≡ true → n.configured 0 ≡ true
  second : n.host.1 (n.instances 1) ≡ true → n.configured 1 ≡ true

unmarked : (a b : Bool) → (a ≡ true → b ≡ true) → b ≡ false → a ≡ false
unmarked false b h e = refl
unmarked true b h e = sym (h refl) ∙ e

module _ {H M : Type 0} (api : Host H M) where
  ensure-Marked :
      (mode : BleMode) (n : Nimble (H × (ℕ → Bool)))
      → Marked n
      → Marked (ensure_configured (tracked api) mode n).1
  unfolding ensure_configured tracked
  ensure-Marked legacy n v = ground arith
  ensure-Marked extended n v = ground arith

  fill-Marked :
      (mode : BleMode) (bytes : List ℕ) (m : M) (n : Nimble (H × (ℕ → Bool)))
      → Marked n
      → Marked (fill (tracked api) mode bytes m n).1
  unfolding fill tracked
  fill-Marked mode bytes m n v = ground arith

  reset_at-Marked0 :
      (r : EspErr × Nimble (H × (ℕ → Bool))) → Marked r.1 → Marked (reset_at (tracked api) 0 r).1
  unfolding reset_at tracked
  reset_at-Marked0 (e, n) v = ground arith

  reset_at-Marked1 :
      (r : EspErr × Nimble (H × (ℕ → Bool))) → Marked r.1 → Marked (reset_at (tracked api) 1 r).1
  unfolding reset_at tracked
  reset_at-Marked1 (e, n) v = ground arith

  set_payload-Marked :
      (mode : BleMode) (bytes : List ℕ) (n : Nimble (H × (ℕ → Bool)))
      → Marked n
      → Marked (set_payload (tracked api) mode bytes n).1
  unfolding set_payload tracked
  set_payload-Marked mode bytes n v = go (api.get_pkthdr (length bytes) n.host.0).0
    where
      got : Nimble (H × (ℕ → Bool))
      got = record n { host = ((api.get_pkthdr (length bytes) n.host.0).1, n.host.1) }

      got-Marked : Marked got
      got-Marked = record { distinct = v.distinct; first = v.first; second = v.second }

      go :
          (o : Option M)
          → Marked
              (elim o as (λ y. EspErr × Nimble (H × (ℕ → Bool))) [
                | none ↦ (no_mem, got)
                | some m ↦ fill (tracked api) mode bytes m got
              ]).1
      go none = got-Marked
      go (some m) = fill-Marked mode bytes m got got-Marked

  configure-Marked :
      (mode : BleMode) (payload : ByteView) (n : Nimble (H × (ℕ → Bool)))
      → Marked n
      → Marked (configure (tracked api) mode payload n).1
  unfolding configure
  configure-Marked mode payload n v =
      let k = ensure-Marked mode n v in
      if_cases (λ (r : EspErr × Nimble (H × (ℕ → Bool))). Marked r.1)
        (is_null payload || (view_size payload == 0)) (λ e. v)
        (λ e.
          if_cases (λ (r : EspErr × Nimble (H × (ℕ → Bool))). Marked r.1)
            (ltb (mode_maximum mode) (view_size payload)) (λ e1. v)
            (λ e1.
              if_cases (λ (r : EspErr × Nimble (H × (ℕ → Bool))). Marked r.1)
                (not ((ensure_configured (tracked api) mode n).0 == 0)) (λ e2. k)
                (λ e2. set_payload-Marked mode (view_bytes payload) _ k)))

  reset-Marked : (n : Nimble (H × (ℕ → Bool))) → Marked n → Marked (reset (tracked api) n).1
  unfolding reset
  reset-Marked n v = reset_at-Marked1 _ (reset_at-Marked0 (esp_ok, n) v)

  perform-Marked :
      (c : BackendCall) (n : Nimble (H × (ℕ → Bool)))
      → Marked n
      → Marked (perform (tracked api) c n)
  unfolding perform start stop set_callback tracked
  perform-Marked (configures mode payload) n v = configure-Marked mode payload n v
  perform-Marked starts n v = record { distinct = v.distinct; first = v.first; second = v.second }
  perform-Marked stops n v = record { distinct = v.distinct; first = v.first; second = v.second }
  perform-Marked resets n v = reset-Marked n v
  perform-Marked (calls_back on) n v = record {
    distinct = v.distinct;
    first = v.first;
    second = v.second;
  }

  perform_all-Marked :
      (cs : List BackendCall) (n : Nimble (H × (ℕ → Bool)))
      → Marked n
      → Marked (perform_all (tracked api) cs n)
  unfolding perform_all
  perform_all-Marked [] n v = v
  perform_all-Marked (c ∷ cs) n v =
      perform_all-Marked cs (perform (tracked api) c n) (perform-Marked c n v)

  -- The host has none of the instances of the backend.
  abbrev pub NoInstance : Nimble (H × (ℕ → Bool)) → Type 0
  NoInstance n = (n.host.1 (n.instances 0) ≡ false) × (n.host.1 (n.instances 1) ≡ false)

  -- The backend after the calls, from its creation over a host that has no instance on.
  abbrev pub used : ℕ → ℕ → ℕ → H → List BackendCall → Nimble (H × (ℕ → Bool))
  used own_address_type legacy_instance extended_instance h cs =
      perform_all (tracked api) cs
        (new_backend own_address_type legacy_instance extended_instance (h, λ i. false))

  -- A backend for two different instances, created over a host that has none: after any calls of
  -- it, resets that fail included, whatever the host answers, a reset that succeeds leaves the host
  -- with neither instance. So a caller that repeats it until it succeeds has removed both.
  pub reset-NoInstance :
      (own_address_type legacy_instance extended_instance : ℕ) (h : H) (cs : List BackendCall)
      → legacy_instance ≢ extended_instance
      → is_ok (reset (tracked api) (used own_address_type legacy_instance extended_instance h cs)).0
        ≡ true
      → NoInstance
          (reset (tracked api) (used own_address_type legacy_instance extended_instance h cs)).1
  unfolding new_backend
  reset-NoInstance own_address_type legacy_instance extended_instance h cs d ok =
      let n = used own_address_type legacy_instance extended_instance h cs in
      let v = reset-Marked n (
        perform_all-Marked cs
          (new_backend own_address_type legacy_instance extended_instance (h, λ i. false))
          (record { distinct = d; first = λ e. cc; second = λ e. cc })) in
      let u = reset-Unconfigured (tracked api) n ok in
      (unmarked _ _ v.first (u.0), unmarked _ _ v.second (u.1))
