-- ===== src/Nvs/Store/InForce.antt =====
-- The slot that the store selects, and the reading of the two slots.
use mathlib.Core.Path.{subst}
use mathlib.Core.Option.{some-injective}
use esp32_rid.Prelude.{
  ℕ, ◌+◌, ◌-◌, ◌%◌, ◌^◌, ◌<◌, ◌≡◌, refl, ap, ◌∙◌, Bool, not, ◌||◌, Option, none, some, List, arith,
  ltb, ◌==◌, if_cases, length, take, drop,
}
use esp32_rid.Config.{SystemConfig}
use esp32_rid.Nvs.Errors.{NvsStoreError, not_found, corrupt, incompatible_version}
use esp32_rid.Nvs.Codec.{decode_config, max_payload_size}
use esp32_rid.Nvs.Store.{
  Crc, NvsApi, SlotResult, LoadedConfig, no_value, header_size, parse_slot, read_slot, choose_slot,
  read_u32_le, loaded, calculate_crc, stored_config_magic, schema_version, read_u16_le,
}
use esp32_rid.Nvs.Store.Flash.{NvsLaws, Readable, held, read_slot_keeps, read_slot-held}

-- The slot's number and a 32-bit generation.
abbrev pub Numbered : ℕ → SlotResult → Type 0
Numbered slot r = (r.slot ≡ slot) × ((v : LoadedConfig) → r.value ≡ some v → v.generation < 2 ^ 32)

no_value-Numbered : (e : NvsStoreError) (slot : ℕ) → Numbered slot (no_value e slot)
no_value-Numbered e slot = (refl, λ v h. cc)

loaded-Numbered :
    (slot generation : ℕ) (o : Option SystemConfig)
    → generation < 2 ^ 32
    → Numbered slot (loaded slot generation o)
loaded-Numbered slot generation none h = (refl, λ v e. cc)
loaded-Numbered slot generation (some c) h =
    (refl, λ v e. subst (λ (w : LoadedConfig). w.generation < 2 ^ 32) (some-injective _ _ e) h)

parse_slot-Numbered :
    (crc32 : Crc) (slot : ℕ) (bytes : List ℕ) (size : ℕ)
    → Numbered slot (parse_slot crc32 slot bytes size)
unfolding parse_slot
parse_slot-Numbered crc32 slot bytes size =
    let payload_size = read_u16_le (drop 6 bytes) in
    let fits : read_u32_le (drop 8 bytes) < 2 ^ 32 = unfold read_u32_le in omega arith in
    if_cases (Numbered slot)
      (not (read_u32_le bytes == stored_config_magic)
        || not (payload_size == (size + 2 ^ 64 - header_size) % 2 ^ 64))
      (λ h. no_value-Numbered corrupt slot)
      (λ h.
        if_cases (Numbered slot)
          (not (
            read_u32_le (drop 12 bytes)
            == calculate_crc crc32 bytes (take payload_size (drop header_size bytes))))
          (λ i. no_value-Numbered corrupt slot)
          (λ i.
            if_cases (Numbered slot) (not (read_u16_le (drop 4 bytes) == schema_version))
              (λ j. no_value-Numbered incompatible_version slot)
              (λ j.
                loaded-Numbered slot (read_u32_le (drop 8 bytes))
                  (decode_config (drop header_size bytes)) fits)))

pub held-Numbered :
    (crc32 : Crc) (slot : ℕ) (o : Option (List ℕ)) → Numbered slot (held crc32 slot o)
held-Numbered crc32 slot none = no_value-Numbered not_found slot
held-Numbered crc32 slot (some bytes) =
    if_cases (Numbered slot)
      (ltb (length bytes) header_size || ltb (header_size + max_payload_size) (length bytes))
      (λ h. no_value-Numbered corrupt slot)
      (λ h. parse_slot-Numbered crc32 slot bytes (length bytes))

module _ (crc32 : Crc) {D : Type 0} (blob : D → ℕ → Option (List ℕ)) where
  -- The slot that the store selects in a state of the flash.
  abbrev pub in_force : D → SlotResult
  in_force d = choose_slot (held crc32 0 (blob d 0)) (held crc32 1 (blob d 1))

module _ (crc32 : Crc) {D : Type 0} (api : NvsApi D) (blob : D → ℕ → Option (List ℕ))
    (laws : NvsLaws api blob) (reads : Readable api blob) (write : Bool) (d : D) where
  abbrev pub handle : ℕ
  handle = (api.open_store write d).1

  abbrev pub opened : D
  opened = (api.open_store write d).2

  abbrev pub read_left : D
  read_left = (read_slot crc32 api handle 0 opened).1

  abbrev pub read_right : D
  read_right = (read_slot crc32 api handle 1 read_left).1

  pub left_held : (read_slot crc32 api handle 0 opened).0 ≡ held crc32 0 (blob d 0)
  left_held =
      read_slot-held crc32 api blob laws reads handle 0 opened
      ∙ ap (held crc32 0) (laws.open_keeps write d 0)

  pub right_held : (read_slot crc32 api handle 1 read_left).0 ≡ held crc32 1 (blob d 1)
  right_held =
      read_slot-held crc32 api blob laws reads handle 1 read_left
      ∙ ap (held crc32 1)
          (read_slot_keeps crc32 api blob laws handle 0 opened 1 ∙ laws.open_keeps write d 1)

  pub read_keeps : (key : ℕ) → blob read_right key ≡ blob d key
  read_keeps key =
      read_slot_keeps crc32 api blob laws handle 1 read_left key
      ∙ read_slot_keeps crc32 api blob laws handle 0 opened key
      ∙ laws.open_keeps write d key
