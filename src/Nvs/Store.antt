-- ===== src/Nvs/Store.antt =====
-- `NvsConfigStore` of components/rid_config/nvs_store.cpp. The flash driver and the CRC of ESP-IDF
-- are parameters; the driver's state is passed along and returned.
pub mod Parse
pub mod Choice
pub mod Flash
pub mod Write
pub mod InForce
pub mod Saved
pub mod Tests
use esp32_rid.Prelude.{
  le→leb, All-map, ℕ, zero, suc, ◌+◌, ◌-◌, ◌*◌, ◌/◌, ◌%◌, ◌^◌, ◌≤◌, ◌<◌, ◌≡◌, refl, sym, ap, ◌∙◌,
  ◌≢◌, ◌↔◌, ◌⊎◌, inl, inr, Bool, true, false, not, ◌&&◌, ◌||◌, Option, none, some, List, [], ◌∷◌,
  ◌++◌, map, append-nil, append_assoc, arith, ltb, leb, ◌==◌, if◌then◌else◌, ltb→lt, lt→ltb, leb→le,
  ==_iff, Bool-cases, Option-cases, if_cases, All, length, get_or, set, take, drop, replicate,
  erase_at, length-append, length-set, length-take, length-drop, length-replicate, length-erase_at,
  length-erase_at-le, take-append, drop-append, take-append-drop, All-append, All-erase_at,
  All-get_or,
}
use esp32_rid.Config.{SystemConfig}
use esp32_rid.Nvs.Errors.{
  NvsStoreError, success, not_found, invalid_generation, storage_error, corrupt,
  incompatible_version,
}
use esp32_rid.Nvs.Bytes.{write_scalar}
use esp32_rid.Nvs.Codec.{encode_config, decode_config, refused, encoded, max_payload_size}

-- What the code tells apart of the driver's results.
pub data NvsErr : Type 0 where
  nvs_ok nvs_not_found : NvsErr
  nvs_failed : ℕ → NvsErr

abbrev pub is_nvs_ok : NvsErr → Bool
is_nvs_ok nvs_ok = true
is_nvs_ok _ = false

-- The calls of the driver over its state `D`, with a slot's number for its key. `open_store` takes whether
-- to write and gives a handle; `get_blob` takes the size of the buffer and gives the buffer and the
-- size that the driver reports.
pub record NvsApi (D : Type 0) : Type 0 where
  pub open_store : Bool → D → NvsErr × ℕ × D
  pub get_size : ℕ → ℕ → D → NvsErr × ℕ × D
  pub get_blob : ℕ → ℕ → ℕ → D → NvsErr × List ℕ × ℕ × D
  pub set_blob : ℕ → ℕ → List ℕ → D → NvsErr × D
  pub commit : ℕ → D → NvsErr × D
  pub close : ℕ → D → D

-- `esp_crc32_le`: the next CRC from the last one and a block of bytes.
abbrev pub Crc : Type 0
Crc = ℕ → List ℕ → ℕ

abbrev pub stored_config_magic : ℕ
stored_config_magic = 0x52494443

abbrev pub schema_version : ℕ
schema_version = 1

abbrev pub header_size : ℕ
header_size = 16

pub record LoadedConfig : Type 0 where
  pub config : SystemConfig
  pub generation : ℕ

pub record SlotResult : Type 0 where
  pub error : NvsStoreError
  pub value : Option LoadedConfig
  pub slot : ℕ

abbrev pub no_value : NvsStoreError → ℕ → SlotResult
no_value error slot = record { error = error; value = none; slot = slot }

abbrev pub byte_at : List ℕ → ℕ → ℕ
byte_at bytes i = get_or bytes i 0

unfoldable pub read_u16_le : List ℕ → ℕ
read_u16_le bytes = (byte_at bytes 0 + 2 ^ 8 * byte_at bytes 1) % 2 ^ 16

unfoldable pub read_u32_le : List ℕ → ℕ
read_u32_le bytes =
    (byte_at bytes 0
      + 2 ^ 8 * byte_at bytes 1
      + 2 ^ 16 * byte_at bytes 2
      + 2 ^ 24 * byte_at bytes 3)
    % 2 ^ 32

-- `left - right` of 32-bit numbers.
abbrev pub distance : ℕ → ℕ → ℕ
distance left right = (left + 2 ^ 32 - right) % 2 ^ 32

unfoldable pub newer : ℕ → ℕ → Bool
newer left right = not (distance left right == 0) && ltb (distance left right) (2 ^ 31)

abbrev pub is_storage : NvsStoreError → Bool
is_storage storage_error = true
is_storage _ = false

abbrev pub is_incompatible : NvsStoreError → Bool
is_incompatible incompatible_version = true
is_incompatible _ = false

abbrev is_corrupt : NvsStoreError → Bool
is_corrupt corrupt = true
is_corrupt _ = false

abbrev pub has_value : {A : Type 0} → Option A → Bool
has_value none = false
has_value (some a) = true

-- The result for two slots without a value.
unfoldable pub worst : NvsStoreError → NvsStoreError → NvsStoreError
worst left right =
    if is_storage left || is_storage right
    then storage_error
    else if is_incompatible left || is_incompatible right
    then incompatible_version
    else if is_corrupt left || is_corrupt right
    then corrupt
    else not_found

-- The choice between two slots with values.
unfoldable pub choose_newer : SlotResult → LoadedConfig → SlotResult → LoadedConfig → SlotResult
choose_newer left l right r =
    if distance r.generation l.generation == 0 || distance r.generation l.generation == 0x80000000
    then no_value corrupt 0
    else if newer r.generation l.generation
    then right
    else left

-- The choice by which of the two slots have values.
unfoldable pub choose_from :
    SlotResult → Option LoadedConfig → SlotResult → Option LoadedConfig → SlotResult
choose_from left none right none = no_value (worst left.error right.error) 0
choose_from left none right (some r) = right
choose_from left (some l) right none = left
choose_from left (some l) right (some r) = choose_newer left l right r

unfoldable pub choose_slot : SlotResult → SlotResult → SlotResult
choose_slot left right = choose_from left left.value right right.value

-- `current.slot ^ 1U`.
abbrev pub other_slot : ℕ → ℕ
other_slot slot = if slot % 2 == 0 then slot + 1 else slot - 1

abbrev pub loaded : ℕ → ℕ → Option SystemConfig → SlotResult
loaded slot generation none = no_value corrupt slot
loaded slot generation (some c) = record {
  error = success;
  value = some (record { config = c; generation = generation });
  slot = slot;
}

module _ (crc32 : Crc) where
  unfoldable pub calculate_crc : List ℕ → List ℕ → ℕ
  calculate_crc header payload = crc32 (crc32 0 (take 12 header)) payload

  -- What `read_slot` makes of the bytes it has read and of the size that came with them.
  unfoldable pub parse_slot : ℕ → List ℕ → ℕ → SlotResult
  parse_slot slot blob size =
      let version = read_u16_le (drop 4 blob) in
      let payload_size = read_u16_le (drop 6 blob) in
      let generation = read_u32_le (drop 8 blob) in
      let stored_crc = read_u32_le (drop 12 blob) in
      let payload = drop header_size blob in
      if not (read_u32_le blob == stored_config_magic)
        || not (payload_size == (size + 2 ^ 64 - header_size) % 2 ^ 64)
      then no_value corrupt slot
      else if not (stored_crc == calculate_crc blob (take payload_size payload))
      then no_value corrupt slot
      else if not (version == schema_version)
      then no_value incompatible_version slot
      else loaded slot generation (decode_config payload)

  -- The first twelve bytes of a slot.
  unfoldable pub header_without_crc : ℕ → ℕ → List ℕ
  header_without_crc payload_size generation =
      write_scalar 4 stored_config_magic
      ++ (write_scalar 2 schema_version
          ++ (write_scalar 2 payload_size ++ write_scalar 4 generation))

  -- The bytes of a slot.
  unfoldable pub slot_blob : List ℕ → ℕ → List ℕ
  unfolding header_without_crc
  slot_blob payload generation =
      let header = header_without_crc (length payload) generation in
      header ++ (write_scalar 4 (calculate_crc header payload) ++ payload)

  module _ {D : Type 0} (api : NvsApi D) where
    unfoldable pub read_slot : ℕ → ℕ → D → SlotResult × D
    read_slot handle slot d =
        let (result, size, d') = api.get_size handle slot d in
        elim result [
          | nvs_not_found ↦ (no_value not_found slot, d')
          | nvs_failed code ↦ (no_value storage_error slot, d')
          | nvs_ok ↦
              if ltb size header_size || ltb (header_size + max_payload_size) size
              then (no_value corrupt slot, d')
              else (let (read, blob, size', d'') = api.get_blob handle slot size d' in
                  if not (is_nvs_ok read)
                  then (no_value storage_error slot, d'')
                  else (parse_slot slot blob size', d''))
        ]

    unfoldable pub load : D → (NvsStoreError × Option LoadedConfig) × D
    load d =
        let (result, handle, d1) = api.open_store false d in
        elim result [
          | nvs_not_found ↦ ((not_found, none), d1)
          | nvs_failed code ↦ ((storage_error, none), d1)
          | nvs_ok ↦
              let (left, d2) = read_slot handle 0 d1 in
              let (right, d3) = read_slot handle 1 d2 in
              let selected = choose_slot left right in
              ((selected.error, selected.value), api.close handle d3)
        ]

    -- Whether the slot that was read back holds the generation just written.
    abbrev pub verifies : ℕ → Option LoadedConfig → Bool
    verifies generation none = false
    verifies generation (some v) = v.generation == generation

    -- The end of `save`: the write, the commit and the verification of the slot `target`.
    unfoldable pub write_slot : ℕ → ℕ → List ℕ → ℕ → D → NvsStoreError × D
    write_slot handle target payload generation d =
        let (written, d1) = api.set_blob handle target (slot_blob payload generation) d in
        let (committed, d2) = api.commit handle d1 in
        let (verified, d3) = read_slot handle target d2 in
        if not (is_nvs_ok written)
        then (storage_error, api.close handle d1)
        else if not (is_nvs_ok committed)
        then (storage_error, api.close handle d2)
        else if not (verifies generation verified.value)
        then (storage_error, api.close handle d3)
        else (success, api.close handle d3)

    -- Whether the selected slot forbids the generation.
    abbrev pub stale : ℕ → Option LoadedConfig → Bool
    stale generation none = false
    stale generation (some v) = not (newer generation v.generation)

    -- `save` after both slots have been read.
    unfoldable pub save_over : SlotResult → SlotResult → ℕ → List ℕ → ℕ → D → NvsStoreError × D
    save_over left right handle payload generation d =
        let current = choose_slot left right in
        if is_storage left.error || is_storage right.error
        then (storage_error, api.close handle d)
        else if is_incompatible left.error || is_incompatible right.error
        then (incompatible_version, api.close handle d)
        else if has_value left.value && has_value right.value && not (has_value current.value)
        then (invalid_generation, api.close handle d)
        else if stale generation current.value
        then (invalid_generation, api.close handle d)
        else write_slot handle (if has_value current.value then other_slot current.slot else 0)
            payload generation d

    unfoldable pub save : SystemConfig → ℕ → D → NvsStoreError × D
    save c generation d = elim (encode_config c) [
      | refused error ↦ (error, d)
      | encoded payload ↦
          let (opened, handle, d1) = api.open_store true d in
          if not (is_nvs_ok opened)
          then (storage_error, d1)
          else (let (left, d2) = read_slot handle 0 d1 in
              let (right, d3) = read_slot handle 1 d2 in
              save_over left right handle payload generation d3)
    ]
