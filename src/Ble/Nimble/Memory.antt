-- ===== src/Ble/Nimble/Memory.antt =====
-- The buffers that the NimBLE backend takes, and the instances that it leaves configured.
use esp32_rid.Ble.Nimble.{no_mem}
use esp32_rid.Prelude.{
  ℕ, ◌+◌, ◌-◌, ◌≡◌, refl, ◌∙◌, not, ◌||◌, none, some, List, arith, ltb, ◌==◌, if_cases, length,
}
use esp32_rid.Payload.{ByteView, view_size, view_bytes, is_null}
use esp32_rid.Radio.{EspErr}
use esp32_rid.Ble.{BleMode}
use esp32_rid.Ble.Nimble.{
  mode_index, mode_maximum, Host, Nimble, ensure_configured, fill, set_payload, configure,
}

-- A host that counts the buffers that have been given out and neither freed nor handed back with
-- `ble_gap_ext_adv_set_data`, which takes them over whether it succeeds or not.
unfoldable pub metered : {H M : Type 0} → Host H M → Host (H × ℕ) M
metered api = record {
  already = api.already;
  timeout = api.timeout;
  adv_configure = λ i p h. let r = api.adv_configure i p h.0 in (r.0, (r.1, h.1));
  get_pkthdr = λ size h.
      let r = api.get_pkthdr size h.0 in (r.0, (r.1, elim r.0 [ none ↦ h.1 | some m ↦ h.1 + 1 ]));
  append = λ m bytes h. let r = api.append m bytes h.0 in (r.0, (r.1, h.1));
  free_chain = λ m h. (api.free_chain m h.0, h.1 - 1);
  set_data = λ i m h. let r = api.set_data i m h.0 in (r.0, (r.1, h.1 - 1));
  adv_start = λ i h. let r = api.adv_start i h.0 in (r.0, (r.1, h.1));
  adv_stop = λ i h. let r = api.adv_stop i h.0 in (r.0, (r.1, h.1));
  adv_remove = λ i h. let r = api.adv_remove i h.0 in (r.0, (r.1, h.1));
}

module _ {H M : Type 0} (api : Host H M) where
  abbrev pub held : Nimble (H × ℕ) → ℕ
  held n = n.host.1

  Holds : ℕ → EspErr × Nimble (H × ℕ) → Type 0
  Holds k r = held r.1 ≡ k

  fill-held :
      (mode : BleMode) (bytes : List ℕ) (m : M) (n : Nimble (H × ℕ))
      → held (fill (metered api) mode bytes m n).1 ≡ held n - 1
  unfolding fill metered Holds
  fill-held mode bytes m n =
      if_cases (Holds (held n - 1)) (not ((api.append m bytes n.host.0).0 == 0)) (λ e. refl)
        (λ e.
          if_cases (Holds (held n - 1))
            (not (
              (api.set_data (n.instances (mode_index mode)) m (api.append m bytes n.host.0).1).0
              == 0))
            (λ k. refl) (λ k. refl))

  set_payload-held :
      (mode : BleMode) (bytes : List ℕ) (n : Nimble (H × ℕ))
      → held (set_payload (metered api) mode bytes n).1 ≡ held n
  unfolding set_payload metered
  set_payload-held mode bytes n =
      let h = (api.get_pkthdr (length bytes) n.host.0).1 in
      elim (api.get_pkthdr (length bytes) n.host.0).0
        as (λ x.
          held
            (elim x as (λ y. EspErr × Nimble (H × ℕ)) [
              | none ↦ (
                no_mem,
                record n { host = (h, elim x [ none ↦ n.host.1 | some m ↦ n.host.1 + 1 ]) },
              )
              | some m ↦
                  fill (metered api) mode bytes m
                    (record n { host = (h, elim x [ none ↦ n.host.1 | some m ↦ n.host.1 + 1 ]) })
            ]).1
          ≡ held n) [ none ↦ refl | some m ↦ fill-held mode bytes m _ ∙ omega arith ]

  ensure-held :
      (mode : BleMode) (n : Nimble (H × ℕ))
      → held (ensure_configured (metered api) mode n).1 ≡ held n
  unfolding ensure_configured metered
  ensure-held mode n =
      if_cases {A = ℕ × Nimble (H × ℕ)} (λ r. held r.1 ≡ held n) (n.configured (mode_index mode))
        (λ e. refl)
        (λ e. if_cases {A = ℕ × Nimble (H × ℕ)} (λ r. held r.1 ≡ held n) _ (λ k. refl) (λ k. refl))

  -- Whatever the host answers, `configure` keeps no buffer: each that it gets is freed or handed to
  -- the host's controller before it returns, on success and on every error.
  pub configure-held :
      (mode : BleMode) (payload : ByteView) (n : Nimble (H × ℕ))
      → held (configure (metered api) mode payload n).1 ≡ held n
  unfolding configure Holds
  configure-held mode payload n =
      if_cases (Holds (held n)) (is_null payload || (view_size payload == 0)) (λ e. refl)
        (λ e.
          if_cases (Holds (held n)) (ltb (mode_maximum mode) (view_size payload)) (λ e1. refl)
            (λ e1.
              if_cases (Holds (held n)) (not ((ensure_configured (metered api) mode n).0 == 0))
                (λ e2. ensure-held mode n)
                (λ e2. set_payload-held mode (view_bytes payload) _ ∙ ensure-held mode n)))
