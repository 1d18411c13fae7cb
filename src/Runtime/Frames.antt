-- ===== src/Runtime/Frames.antt =====
-- The frames that the runtime builds, and which payloads a transport can send.
use esp32_rid.Prelude.{
  ℕ, ◌+◌, ◌≤◌, ◌<◌, ◌≡◌, refl, ap, ◌∙◌, ◌⊎◌, inl, inr, true, false, not, ◌&&◌, ◌||◌, Option, none,
  some, List, arith, ltb, ◌==◌, if◌then◌else◌, if_cases, length,
}
use esp32_rid.Model.{
  MessageKind, FlightState, GeoPoint, Transport, ble4, ble5, wifi24, wifi58, unknown_transport,
  is_wifi, is_ble,
}
use esp32_rid.Config.{AircraftConfig, is_odid}
use esp32_rid.Payload.{ScheduleError, ScheduledPayload, view, try_copy_from, max_payload_size}
use esp32_rid.Wifi.{
  FrameError, build_gb_beacon, build_opendroneid_beacon, beacon_header, is_message_pack,
}
use esp32_rid.Ble.{maximum}
use esp32_rid.Ble.Invariant.{Fits}
use esp32_rid.Ble.ServiceData.{AdError, is_encoded, build_service_data}
use esp32_rid.Runtime.{Encoders, is_ble5, framed, advertised, address_for, is_copied}
use esp32_rid.Runtime.Ticks.{load_frame, frame_pack, frame_message}

-- A payload that the radio coordinator or the BLE transport has no objection to.
abbrev pub Sendable : ScheduledPayload → Type 0
Sendable p = ((is_wifi p.transport ≡ true) × (0 < p.size) × (p.size ≤ max_payload_size)) ⊎ Fits p

abbrev pub AllOption {ℓ κ} : {A : Type ℓ} → (A → Type κ) → Option A → Type κ
AllOption P none = Unit
AllOption P (some a) = P a

-- A frame of some bytes: at most `n`, where a payload may be longer than that.
abbrev pub Between : ℕ → List ℕ → Type 0
Between n bytes = (0 < length bytes) × ((length bytes ≤ n) ⊎ (max_payload_size ≤ n))

pub map-AllOption {ℓ κ κ'} :
    {A : Type ℓ} {P : A → Type κ} {Q : A → Type κ'}
    → ((a : A) → P a → Q a)
    → (o : Option A) → AllOption P o
    → AllOption Q o
map-AllOption f none h = tt
map-AllOption f (some a) h = f a h

framed-Between :
    (bytes : List ℕ) (identity : List ℕ) (index counter : ℕ)
    → AllOption
        (λ f. 0 < length f)
        (framed (
          build_gb_beacon (some (address_for identity index)) (view identity) counter (view bytes)))
unfolding build_gb_beacon beacon_header
framed-Between bytes identity index counter =
    let P = λ (r : FrameError × List ℕ). AllOption (λ f. 0 < length f) (framed r) in
    if_cases P ((not (length identity == 0) && false) || (length bytes == 0) || false) (λ h. tt)
      (λ h.
        if_cases P (ltb 32 (length identity) || ltb 249 (length bytes)) (λ k. tt)
          (λ k.
            if_cases P (ltb 512 (38 + length identity + 3 + 2 + 5 + length bytes)) (λ m. tt)
              (λ m. omega arith)))

framed_pack-Between :
    (bytes : List ℕ) (identity : List ℕ) (index counter : ℕ)
    → AllOption
        (λ f. 0 < length f)
        (framed (
          build_opendroneid_beacon
            (some (address_for identity index))
            (view identity)
            counter
            (view bytes)))
unfolding build_opendroneid_beacon
framed_pack-Between bytes identity index counter =
    if_cases (λ (r : FrameError × List ℕ). AllOption (λ f. 0 < length f) (framed r))
      (not (is_message_pack (view bytes))) (λ h. tt)
      (λ h. framed-Between bytes identity index counter)

service-Between :
    (bytes : List ℕ) (counter : ℕ)
    → AllOption
        (λ f. (length f ≡ length bytes + 5) × (length f ≤ 158))
        (advertised (build_service_data (view bytes) counter))
unfolding build_service_data
service-Between bytes counter =
    let P = λ (r : AdError × List ℕ).
      AllOption (λ f. (length f ≡ length bytes + 5) × (length f ≤ 158)) (advertised r) in
    if_cases P (ltb 153 (length bytes)) (λ h. tt)
      (λ h.
        if_cases P (not (is_encoded (view bytes))) (λ k. tt)
          (λ k. let few : length bytes ≤ 153 = ground (arith, h) in (omega arith, omega arith)))

pub load_frame-sized :
    (p : ScheduledPayload) (frame : Option (List ℕ)) (n : ℕ)
    → AllOption (Between n) frame
    → AllOption
        (λ q.
          (q.transport ≡ p.transport) × (0 < q.size) × (q.size ≤ n) × (q.size ≤ max_payload_size))
        (load_frame p frame)
unfolding load_frame try_copy_from
load_frame-sized p none n h = tt
load_frame-sized p (some bytes) n h =
    let P = λ (r : ScheduleError × ScheduledPayload).
      AllOption
        (λ q.
          (q.transport ≡ p.transport) × (0 < q.size) × (q.size ≤ n) × (q.size ≤ max_payload_size))
        (if is_copied r.0 then some r.1 else none) in
    if_cases P (ltb 512 (length bytes)) (λ k. tt)
      (λ k.
        if_cases P (ltb 0 (length bytes) && false) (λ m. tt)
          (λ m.
            let few : length bytes ≤ 512 = ground (arith, k) in
            (refl, omega (arith, h.0), omega (arith, h.1), omega arith)))

-- What the encoders promise: a single message of OpenDroneID has 25 bytes.
abbrev pub Single : Encoders → Type 0
Single encoders =
    (kind : MessageKind) (state : FlightState) (identity : List ℕ) (position : Option GeoPoint)
    → AllOption (λ bytes. length bytes ≡ 25) (encoders.odid kind state identity position)

-- The combinations of protocol and transport of a valid configuration.
abbrev pub Carried : AircraftConfig → Type 0
Carried a =
    ((is_odid a.protocol ≡ true) × ((is_wifi a.transport ≡ true) ⊎ (is_ble a.transport ≡ true)))
    ⊎ ((is_odid a.protocol ≡ false) × (is_wifi a.transport ≡ true))

-- The longest frame that a transport takes.
abbrev pub room : Transport → ℕ
room t = if is_wifi t then max_payload_size else maximum t

pub fits_transport :
    (t : Transport) (q : ScheduledPayload)
    → (is_wifi t ≡ true) ⊎ (is_ble t ≡ true)
    → (q.transport ≡ t) × (0 < q.size) × (q.size ≤ room t) × (q.size ≤ max_payload_size)
    → Sendable q
fits_transport t q (inl w) (e, pos, le, few) = inl (ap is_wifi e ∙ w, pos, few)
fits_transport t q (inr b) (e, pos, le, few) =
    inr (ap is_ble e ∙ b, pos, omega (arith, le, not_wifi t b, ap maximum e))
  where
    not_wifi : (t : Transport) → is_ble t ≡ true → room t ≡ maximum t
    not_wifi ble4 b = refl
    not_wifi ble5 b = refl
    not_wifi wifi24 b = absurd (ground (arith, b))
    not_wifi wifi58 b = absurd (ground (arith, b))
    not_wifi (unknown_transport n) b = absurd (ground (arith, b))

room_least : (t : Transport) → 30 ≤ room t
room_least ble4 = omega arith
room_least ble5 = omega arith
room_least wifi24 = omega arith
room_least wifi58 = omega arith
room_least (unknown_transport n) = omega arith

room_ble5 : (t : Transport) → is_ble5 t ≡ true → room t ≡ 158
room_ble5 ble4 b = absurd (ground (arith, b))
room_ble5 ble5 b = refl
room_ble5 wifi24 b = absurd (ground (arith, b))
room_ble5 wifi58 b = absurd (ground (arith, b))
room_ble5 (unknown_transport n) b = absurd (ground (arith, b))

room_wifi : (t : Transport) → is_wifi t ≡ true → max_payload_size ≤ room t
room_wifi t w = rw w (omega arith)

pub frame_pack-fits :
    (a : AircraftConfig) (counter : ℕ) (bytes : List ℕ)
    → (is_wifi a.transport || is_ble5 a.transport) ≡ true
    → AllOption (Between (room a.transport)) (frame_pack a counter bytes)
frame_pack-fits a counter bytes h =
    if_cases (AllOption (Between (room a.transport))) (is_wifi a.transport)
      (λ w.
        map-AllOption {Q = Between (room a.transport)}
          (λ f pos. (pos, inr (room_wifi a.transport w))) _
          (framed_pack-Between bytes a.identity a.instance_index counter))
      (λ w.
        let b : is_ble5 a.transport ≡ true = ground (arith, h, w) in
        map-AllOption {Q = Between (room a.transport)}
          (λ f k. (omega (arith, k.0), inl (omega (arith, k.1, room_ble5 a.transport b)))) _
          (service-Between bytes counter))

pub frame_message-fits :
    (a : AircraftConfig) (counter : ℕ) (bytes : List ℕ)
    → Carried a
    → (is_odid a.protocol ≡ true → length bytes ≡ 25)
    → AllOption (Between (room a.transport)) (frame_message a counter bytes)
frame_message-fits a counter bytes c h =
    if_cases (AllOption (Between (room a.transport))) (is_odid a.protocol)
      (λ e.
        map-AllOption {Q = Between (room a.transport)}
          (λ f k. (omega (arith, k.0), inl (omega (arith, k.0, h e, room_least a.transport)))) _
          (service-Between bytes counter))
      (λ e.
        map-AllOption {Q = Between (room a.transport)}
          (λ f pos. (pos, inr (room_wifi a.transport (gb_wifi c e)))) _
          (framed-Between bytes a.identity a.instance_index counter))
  where
    gb_wifi : Carried a → is_odid a.protocol ≡ false → is_wifi a.transport ≡ true
    gb_wifi (inl k) e = absurd (ground (arith, k.0, e))
    gb_wifi (inr k) e = k.1
