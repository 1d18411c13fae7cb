-- ===== src/Nvs/Store/Saved.antt =====
-- What a save leaves in flash, and what a load gives after it.
use mathlib.Core.Path.{subst}
use esp32_rid.Prelude.{
  ℕ, ◌+◌, ◌^◌, ◌≤◌, ◌<◌, ◌≡◌, refl, sym, ap, ◌∙◌, ◌≢◌, ◌⊎◌, inl, inr, true, false, ◌||◌, Option,
  none, some, List, arith, ltb, length,
}
use esp32_rid.Config.{SystemConfig}
use esp32_rid.Nvs.Errors.{NvsStoreError, success}
use esp32_rid.Nvs.Codec.{
  encode_config, decode_config, encoded, refused, max_payload_size, EncodeResult,
}
use esp32_rid.Nvs.Codec.Typed.{Typed}
use esp32_rid.Nvs.Codec.RoundTrip.{decode-encode, encode_config_cases}
use esp32_rid.Nvs.Store.{
  Crc, NvsApi, SlotResult, LoadedConfig, header_size, load, save, save_over, newer, slot_blob,
  other_slot, has_value, stale, loaded,
}
use esp32_rid.Nvs.Store.Parse.{parse_slot-slot_blob, length-slot_blob}
use esp32_rid.Nvs.Store.Choice.{choose_cases, choose_left, choose_right}
use esp32_rid.Nvs.Store.Flash.{NvsLaws, Readable, held}
use esp32_rid.Nvs.Store.Write.{target_of, save_over_keeps, save_over_stores}
use esp32_rid.Nvs.Store.InForce.{
  in_force, handle, read_right, left_held, right_held, read_keeps, held-Numbered,
}

encode_cases :
    (r : EncodeResult)
    → ((error : NvsStoreError) × (r ≡ refused error)) ⊎ ((payload : List ℕ) × (r ≡ encoded payload))
encode_cases (refused error) = inl (error, refl)
encode_cases (encoded payload) = inr (payload, refl)

encode_refused :
    (c : SystemConfig) (error : NvsStoreError) → encode_config c ≡ refused error → error ≢ success
unfolding encode_config
encode_refused c error e h = ground arith

none-some : {o : Option LoadedConfig} {v : LoadedConfig} → o ≡ none → o ≡ some v → ⊥
none-some e f = cc

target_chosen :
    (r current : SlotResult) (v : LoadedConfig) (slot : ℕ)
    → current ≡ r
    → r.value ≡ some v
    → r.slot ≡ slot
    → target_of current ≡ other_slot slot
target_chosen r current v slot q e s =
    let h : has_value r.value ≡ true = ap has_value e in ap target_of q ∙ rw h (ap other_slot s)

other_slot_ne : (slot : ℕ) → slot ≢ other_slot slot
other_slot_ne slot = ground arith

module _ (crc32 : Crc) {D : Type 0} (api : NvsApi D) (blob : D → ℕ → Option (List ℕ))
    (laws : NvsLaws api blob) (reads : Readable api blob) (d : D) where
  -- `save` of a payload, by what the two slots hold.
  abbrev saved_over : List ℕ → ℕ → NvsStoreError × D
  saved_over payload generation =
      save_over crc32 api (held crc32 0 (blob d 0)) (held crc32 1 (blob d 1))
        (handle crc32 api blob laws reads true d) payload generation
        (read_right crc32 api blob laws reads true d)

  save-saved_over :
      (c : SystemConfig) (generation : ℕ) (payload : List ℕ)
      → encode_config c ≡ encoded payload
      → save crc32 api c generation d ≡ saved_over payload generation
  unfolding save
  save-saved_over c generation payload e =
      rw
        (
          e,
          save,
          reads.opens true d,
          left_held crc32 api blob laws reads true d,
          right_held crc32 api blob laws reads true d,
        )
        refl

  save-refused :
      (c : SystemConfig) (generation : ℕ) (error : NvsStoreError)
      → encode_config c ≡ refused error
      → save crc32 api c generation d ≡ (error, d)
  unfolding save
  save-refused c generation error e = rw (e, save) refl

  saved_over_keeps :
      (payload : List ℕ) (generation key : ℕ)
      → key ≢ target_of (in_force crc32 blob d)
      → blob (saved_over payload generation).1 key ≡ blob d key
  saved_over_keeps payload generation key ne =
      save_over_keeps crc32 api blob laws (held crc32 0 (blob d 0)) (held crc32 1 (blob d 1))
        (handle crc32 api blob laws reads true d) payload generation
        (read_right crc32 api blob laws reads true d) key ne
      ∙ read_keeps crc32 api blob laws reads true d key

  -- Over a driver that keeps its documented contract and whose reads do not fail, a save leaves the
  -- slot that holds the configuration in force, if there is one, as it was, whether the save
  -- succeeds, is refused or fails half-way.
  pub save_keeps_in_force :
      (c : SystemConfig) (generation : ℕ)
      → has_value (in_force crc32 blob d).value ≡ true
      → let slot = (in_force crc32 blob d).slot in
        blob (save crc32 api c generation d).1 slot ≡ blob d slot
  save_keeps_in_force c generation h =
      let slot = (in_force crc32 blob d).slot in
      elim (encode_cases (encode_config c)) [
        | inl (error, e) ↦
            ap (λ (r : NvsStoreError × D). blob r.1 slot) (save-refused c generation error e)
        | inr (payload, e) ↦
            ap (λ (r : NvsStoreError × D). blob r.1 slot) (save-saved_over c generation payload e)
            ∙ saved_over_keeps payload generation slot (rw h (other_slot_ne slot))
      ]

  load-in_force :
      (load crc32 api d).0 ≡ ((in_force crc32 blob d).error, (in_force crc32 blob d).value)
  unfolding load
  load-in_force =
      rw
        (
          load,
          reads.opens false d,
          left_held crc32 api blob laws reads false d,
          right_held crc32 api blob laws reads false d,
        )
        refl

  module _ (c : SystemConfig) (payload : List ℕ) (generation : ℕ) where
    -- What a slot with the payload holds.
    abbrev new_slot : ℕ → SlotResult
    new_slot slot = loaded slot generation (some c)

    abbrev NewerThan : SlotResult → Type 0
    NewerThan r =
        (v : LoadedConfig)
        → r.value ≡ some v
        → (v.generation < 2 ^ 32) × (newer generation v.generation ≡ true)

    in_force_left :
        (d' : D)
        → held crc32 0 (blob d' 0) ≡ new_slot 0
        → generation < 2 ^ 32
        → NewerThan (held crc32 1 (blob d' 1))
        → in_force crc32 blob d' ≡ new_slot 0
    in_force_left d' e g n =
        choose_left (held crc32 0 (blob d' 0)) (held crc32 1 (blob d' 1)) _
          (ap (λ (r : SlotResult). r.value) e) g n
        ∙ e

    in_force_right :
        (d' : D)
        → held crc32 1 (blob d' 1) ≡ new_slot 1
        → generation < 2 ^ 32
        → NewerThan (held crc32 0 (blob d' 0))
        → in_force crc32 blob d' ≡ new_slot 1
    in_force_right d' e g n =
        choose_right (held crc32 0 (blob d' 0)) (held crc32 1 (blob d' 1)) _
          (ap (λ (r : SlotResult). r.value) e) g n
        ∙ e

    held-slot_blob :
        (slot : ℕ)
        → decode_config payload ≡ some c
        → length payload ≤ max_payload_size
        → generation < 2 ^ 32
        → ((seed : ℕ) (bytes : List ℕ) → crc32 seed bytes < 2 ^ 32)
        → held crc32 slot (some (slot_blob crc32 payload generation)) ≡ new_slot slot
    held-slot_blob slot dec few g w =
        let n = length-slot_blob crc32 payload generation in
        let short : (ltb (length (slot_blob crc32 payload generation)) header_size
              || ltb (header_size + max_payload_size) (length (slot_blob crc32 payload generation)))
            ≡ false =
          ground (arith, n) in
        rw short (parse_slot-slot_blob crc32 payload c generation slot dec few g w)

    -- A slot that was not written and that the save found older is still older.
    still_older :
        (d' : D) (slot key : ℕ)
        → blob d' key ≡ blob d key
        → ((v : LoadedConfig)
            → (held crc32 slot (blob d key)).value ≡ some v
            → newer generation v.generation ≡ true)
        → NewerThan (held crc32 slot (blob d' key))
    still_older d' slot key k n v e = (
      (held-Numbered crc32 slot (blob d' key)).1 v e,
      n v (ap (λ o. (held crc32 slot o).value) (sym k) ∙ e),
    )

    stale-newer :
        (o : Option LoadedConfig) (v : LoadedConfig)
        → stale crc32 api generation o ≡ false
        → o ≡ some v
        → newer generation v.generation ≡ true
    stale-newer o v s e =
        let fresh : stale crc32 api generation (some v) ≡ false =
          subst (λ x. stale crc32 api generation x ≡ false) e s in
        ground arith

    abbrev left : SlotResult
    left = held crc32 0 (blob d 0)

    abbrev right : SlotResult
    right = held crc32 1 (blob d 1)

    abbrev after : D
    after = (saved_over payload generation).1

    saved_in_force :
        decode_config payload ≡ some c
        → length payload ≤ max_payload_size
        → generation < 2 ^ 32
        → ((seed : ℕ) (bytes : List ℕ) → crc32 seed bytes < 2 ^ 32)
        → (saved_over payload generation).0 ≡ success
        → (slot : ℕ) × (in_force crc32 blob after ≡ new_slot slot)
    saved_in_force dec few g w ok =
        let s =
          save_over_stores crc32 api blob laws left right (handle crc32 api blob laws reads true d)
            payload generation (read_right crc32 api blob laws reads true d) ok in
        let keeps = saved_over_keeps payload generation in
        let current = in_force crc32 blob d in
        let put : (slot : ℕ)
            → target_of current ≡ slot
            → held crc32 slot (blob after slot) ≡ new_slot slot =
          λ slot e.
            ap (held crc32 slot)
              (subst (λ k. blob after k ≡ some (slot_blob crc32 payload generation)) e s.2)
            ∙ held-slot_blob slot dec few g w in
        elim (choose_cases left right) [
          | inl (e, f, n) ↦
              (let t : target_of current ≡ 0 = rw n refl in
                (
                  0,
                  in_force_left after (put 0 t) g (
                      still_older after 1 1 (keeps 1 (rw t (λ h. omega arith)))
                        (λ v h. absurd (none-some f h))),
                ))
          | inr (inl (l, e, q)) ↦
              (let t : target_of current ≡ 1 =
                  target_chosen left current l 0 q e (held-Numbered crc32 0 (blob d 0)).0 in
                (
                  1,
                  in_force_right after (put 1 t) g (
                      still_older after 0 0 (keeps 0 (rw t (λ h. omega arith))) (λ v h.
                        stale-newer current.value v s.1 (ap (λ (r : SlotResult). r.value) q ∙ h))),
                ))
          | inr (inr (inl (r, e, q))) ↦
              (let t : target_of current ≡ 0 =
                  target_chosen right current r 1 q e (held-Numbered crc32 1 (blob d 1)).0 in
                (
                  0,
                  in_force_left after (put 0 t) g (
                      still_older after 1 1 (keeps 1 (rw t (λ h. omega arith))) (λ v h.
                        stale-newer current.value v s.1 (ap (λ (r : SlotResult). r.value) q ∙ h))),
                ))
          | inr (inr (inr (e, f, n))) ↦
              (let h : has_value current.value ≡ false = ap has_value n in absurd (ground arith))
        ]

-- Over a driver that keeps its documented contract and whose reads do not fail, with a 32-bit CRC:
-- after a save that succeeds, of a configuration whose numbers fit the source's types and of a
-- 32-bit generation, a load gives that configuration and generation, whatever the slots held before.
pub load-save :
    (crc32 : Crc) {D : Type 0} (api : NvsApi D) (blob : D → ℕ → Option (List ℕ)) (d : D)
    (c : SystemConfig) (generation : ℕ)
    → NvsLaws api blob
    → Readable api blob
    → ((seed : ℕ) (bytes : List ℕ) → crc32 seed bytes < 2 ^ 32)
    → Typed c
    → generation < 2 ^ 32
    → (save crc32 api c generation d).0 ≡ success
    → (load crc32 api (save crc32 api c generation d).1).0
      ≡ (success, some (record { config = c; generation = generation }))
load-save crc32 {D} api blob d c generation laws reads w h g ok =
    elim (encode_cases (encode_config c)) [
      | inl (error, e) ↦ absurd (
          encode_refused c error e (
            ap (λ (r : NvsStoreError × D). r.0)
              (sym (save-refused crc32 api blob laws reads d c generation error e))
            ∙ ok))
      | inr (payload, e) ↦
          let (v, f, p, few) = encode_config_cases c payload e in
          let q = save-saved_over crc32 api blob laws reads d c generation payload e in
          let (slot, n) =
            saved_in_force crc32 api blob laws reads d c payload generation
              (decode-encode c payload h e) few g w
              (ap (λ (r : NvsStoreError × D). r.0) (sym q) ∙ ok) in
          load-in_force crc32 api blob laws reads (save crc32 api c generation d).1
          ∙ ap (λ (r : SlotResult). (r.error, r.value))
              (ap (λ (r : NvsStoreError × D). in_force crc32 blob r.1) q ∙ n)
    ]
