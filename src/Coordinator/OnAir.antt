-- ===== src/Coordinator/OnAir.antt =====
-- What goes on the air, seen by a backend that also records the channel it is tuned to and the
-- frames that it is given.
use mathlib.Core.Path.{subst₃}
use esp32_rid.Prelude.{
  ℕ, ◌≤◌, ◌<◌, ◌≡◌, refl, sym, ap, ◌∙◌, ◌≢◌, ◌⊎◌, inl, inr, true, false, not, ◌&&◌, List, ◌∷◌,
  arith, ltb, ◌==◌, if◌then◌else◌, if_cases, length, length-take, All-get_or,
}
use esp32_rid.Model.{Transport, ble4, ble5, wifi24, wifi58, unknown_transport}
use esp32_rid.Payload.{blank, ScheduledPayload, payload_view, is_expired}
use esp32_rid.Slots.{earliest, slot}
use esp32_rid.Slots.Erase.{slot-take, NoneOlderThan}
use esp32_rid.Radio.{EspErr, esp_ok, invalid_state, is_ok, WifiBackend}
use esp32_rid.Radio.Pending.{live, earliest-live}
use esp32_rid.Coordinator.{
  Coordinator, band_index, band_channel, plan, earliest_index, select_band, send_next, after_switch,
  switch_and_send, poll,
}
use esp32_rid.Coordinator.Band.{Fits, Inv}
use esp32_rid.Coordinator.Invariant.{select_band-Inv}

pub record Air (D : Type 0) : Type 0 where
  pub device : D
  pub tuned : ℕ
  pub sent : List (ℕ × List ℕ)

-- A backend with the record: the channel that it last accepted, and each frame with the channel
-- at which it was handed over.
abbrev pub traced : {D : Type 0} → WifiBackend D → WifiBackend (Air D)
traced b = record {
  set_country_cn = λ a. let (r, d) = b.set_country_cn a.device in (r, record a { device = d });
  set_channel = λ channel a.
      let (r, d) = b.set_channel channel a.device in
      (r, record a { device = d; tuned = if is_ok r then channel else a.tuned });
  transmit = λ frame a.
      let (r, d) = b.transmit frame a.device in
      (r, record a { device = d; sent = (a.tuned, frame) ∷ a.sent });
}

-- The coordinator has not tuned the radio yet, or knows its channel, which is that of the active
-- band.
abbrev pub Tuned : {D : Type 0} → Coordinator → Air D → Type 0
Tuned c a =
    (c.current_channel ≡ 0)
    ⊎ ((c.current_channel ≡ a.tuned) × (c.current_channel ≡ band_channel c.active_band))

-- The channel on which the receivers of a transport listen.
abbrev pub transport_channel : Transport → ℕ
transport_channel wifi58 = 149
transport_channel t = 6

band_channel-band_index : (t : Transport) → band_channel (band_index t) ≡ transport_channel t
band_channel-band_index ble4 = refl
band_channel-band_index ble5 = refl
band_channel-band_index wifi24 = refl
band_channel-band_index wifi58 = refl
band_channel-band_index (unknown_transport n) = refl

-- From queues `pending` with their counts at most one frame was handed over: that of an unexpired
-- payload of a band's queue than which no entry of that queue is older, at the channel of the
-- payload's own transport.
abbrev pub Transmits :
    (ℕ → List ScheduledPayload) → (ℕ → ℕ) → ℕ → List (ℕ × List ℕ) → List (ℕ × List ℕ) → Type 0
Transmits pending count now_ms before after =
    (after ≡ before)
    ⊎ ((band : ℕ) × (index : ℕ) × (index < count band)
        × (is_expired now_ms (slot (pending band) index) ≡ false)
        × NoneOlderThan (slot (pending band) index) (live (count band) (pending band))
        × (after
            ≡ (
              transport_channel (slot (pending band) index).transport,
              payload_view (slot (pending band) index),
            )
              ∷ before))

abbrev Outcome : {D : Type 0} → Coordinator → ℕ → Air D → EspErr × Coordinator × Air D → Type 0
Outcome c now_ms a r = Tuned r.1 r.2 × Transmits c.pending c.pending_count now_ms a.sent r.2.sent

-- The entry that `poll` selects in a band that is not empty.
selected_entry :
    {limit : ℕ} (c : Coordinator) (band : ℕ)
    → Inv limit c
    → 0 < c.pending_count band
    → let index = earliest_index c band in
      let p = slot (c.pending band) index in
      (index < c.pending_count band)
      × NoneOlderThan p (live (c.pending_count band) (c.pending band))
      × Fits band p
unfolding earliest_index
selected_entry c band v h =
    let count = c.pending_count band in
    let slots = c.pending band in
    let long : count ≤ length slots = omega (arith, (v band).room, (v band).bounded) in
    let found = earliest-live count slots h long in
    (
      found.0,
      found.1,
      rw (slot-take count (earliest count slots) slots found.0) at (
          All-get_or (Fits band) (earliest count slots) (live count slots) blank
            (omega (arith, found.0, length-take count slots long)) (v band).fitting),
    )

refused :
    (r : EspErr) (x y : ℕ) → not (is_ok r) ≡ true → (r ≢ esp_ok) × ((if is_ok r then x else y) ≡ y)
refused r x y h = (λ e. cc (ap is_ok e), ground arith)

accepted : (r : EspErr) (x y : ℕ) → not (is_ok r) ≡ false → (if is_ok r then x else y) ≡ x
accepted r x y h = ground arith

module _ {D : Type 0} (backend : WifiBackend D) where
  send_next-Outcome :
      {limit : ℕ} (c : Coordinator) (now_ms : ℕ) (a : Air D)
      → Inv limit c
      → c.current_channel ≡ a.tuned
      → c.current_channel ≡ band_channel c.active_band
      → Outcome c now_ms a (send_next (traced backend) c now_ms a)
  unfolding send_next
  send_next-Outcome c now_ms a v e f =
      let band = c.active_band in
      let index = earliest_index c band in
      let payload = slot (c.pending band) index in
      let frame = payload_view payload in
      if_cases (Outcome c now_ms a) (c.pending_count band == 0) (λ _. (inr (e, f), inl refl))
        λ waiting.
          if_cases (Outcome c now_ms a) (is_expired now_ms payload) (λ _. (inr (e, f), inl refl))
            λ fresh.
              let some_left : 0 < c.pending_count band = ground arith in
              let entry = selected_entry c band v some_left in
              let channel : a.tuned ≡ transport_channel payload.transport =
                sym e
                ∙ f
                ∙ ap band_channel (sym entry.2.1)
                ∙ band_channel-band_index payload.transport in
              let handed : (a.tuned, frame) ∷ a.sent
                  ≡ (transport_channel payload.transport, frame) ∷ a.sent =
                ap (λ (ch : ℕ). (ch, frame) ∷ a.sent) channel in
              let moved = inr (band, index, entry.0, fresh, entry.1, handed) in
              if_cases (Outcome c now_ms a) (not (is_ok (backend.transmit frame a.device).0))
                (λ _. (inr (e, f), moved)) (λ _. (inr (e, f), moved))

  -- What a switch leaves: the queues and the record of frames as they were, and after a success
  -- the radio on the channel of the active band.
  abbrev Switched : Coordinator → Air D → EspErr × Coordinator × Air D → Type 0
  Switched c a r =
      (r.0 ≡ esp_ok
        → (r.1.current_channel ≡ r.2.tuned) × (r.1.current_channel ≡ band_channel r.1.active_band))
      × Tuned r.1 r.2
      × (r.2.sent ≡ a.sent)
      × (r.1.pending ≡ c.pending)
      × (r.1.pending_count ≡ c.pending_count)

  select_band-Switched :
      (c : Coordinator) (band now_ms : ℕ) (a : Air D)
      → Tuned c a
      → Switched c a (select_band (traced backend) c band now_ms a)
  unfolding select_band
  select_band-Switched c band now_ms a t =
      if_cases (Switched c a) (ltb now_ms c.retry_at_ms) (λ _. ((λ e. cc), t, refl, refl, refl))
        λ _.
          if_cases (Switched c a) (not (is_ok (backend.set_channel (band_channel band) a.device).0))
            (λ bad.
              let no =
                refused (backend.set_channel (band_channel band) a.device).0 (band_channel band)
                  a.tuned bad in
              (λ e. absurd (no.0 e), rw no.1 t, refl, refl, refl))
            (λ good.
              let ok =
                accepted (backend.set_channel (band_channel band) a.device).0 (band_channel band)
                  a.tuned good in
              (λ e. (sym ok, refl), inr (sym ok, refl), refl, refl, refl))

  after_switch-Outcome :
      {limit : ℕ} (c : Coordinator) (now_ms : ℕ) (a : Air D) (r : EspErr) (c' : Coordinator)
      (a' : Air D)
      → Inv limit c'
      → Switched c a (r, c', a')
      → Outcome c now_ms a (after_switch (traced backend) r c' now_ms a')
  unfolding after_switch
  after_switch-Outcome c now_ms a esp_ok c' a' v s =
      let sent = send_next-Outcome c' now_ms a' v (s.0 refl).0 (s.0 refl).1 in
      (
        sent.0,
        subst₃ (λ q n b. Transmits q n now_ms b (send_next (traced backend) c' now_ms a').2.sent)
            s.3 s.4 s.2 sent.1,
      )
  after_switch-Outcome c now_ms a invalid_state c' a' v s = (s.1, inl s.2)
  after_switch-Outcome c now_ms a _ c' a' v s = (s.1, inl s.2)

  -- A plan that needs no switch finds the radio tuned.
  stays_tuned : (c : Coordinator) (now_ms : ℕ) → (plan c now_ms).1 ≡ false → c.current_channel ≢ 0
  unfolding plan
  stays_tuned c now_ms h = ground arith

  switch_and_send-Outcome :
      {limit : ℕ} (c : Coordinator) (now_ms : ℕ) (a : Air D)
      → Inv limit c
      → Tuned c a
      → Outcome c now_ms a (switch_and_send (traced backend) c now_ms a)
  unfolding switch_and_send
  switch_and_send-Outcome c now_ms a v t =
      let target = (plan c now_ms).0 in
      let switched = select_band (traced backend) c target now_ms a in
      if_cases (Outcome c now_ms a) (plan c now_ms).1
        (λ _.
          after_switch-Outcome c now_ms a switched.0 switched.1 switched.2
            (select_band-Inv (traced backend) c target now_ms a v)
            (select_band-Switched c target now_ms a t))
        (λ stay. elim t [
          | inl untuned ↦ absurd (stays_tuned c now_ms stay untuned)
          | inr (e, f) ↦ send_next-Outcome c now_ms a v e f
        ])

  pub poll-Outcome :
      {limit : ℕ} (c : Coordinator) (now_ms : ℕ) (a : Air D)
      → Inv limit c
      → Tuned c a
      → Outcome c now_ms a (poll (traced backend) c now_ms a)
  unfolding poll
  poll-Outcome c now_ms a v t =
      if_cases (Outcome c now_ms a) (c.pending_count 0 == 0 && c.pending_count 1 == 0)
        (λ _. (t, inl refl))
        λ _.
          if_cases (Outcome c now_ms a) c.configured (λ _. switch_and_send-Outcome c now_ms a v t)
            λ _.
              if_cases (Outcome c now_ms a) (not (is_ok (backend.set_country_cn a.device).0))
                (λ _. (t, inl refl))
                λ _. switch_and_send-Outcome (record c { configured = true }) now_ms _ v t
