-- ===== src/Nvs/Store/Parse.antt =====
-- The bytes of a slot are read back as the generation and the configuration written.
use mathlib.Core.Path.{subst}
use esp32_rid.Nvs.Store.{max_payload_size, success}
use esp32_rid.Nvs.Store.{decode_config}
use esp32_rid.Nvs.Store.{SystemConfig, parse_slot}
use esp32_rid.Prelude.{
  ℕ, ◌+◌, ◌-◌, ◌%◌, ◌^◌, ◌≤◌, ◌<◌, ◌≡◌, refl, sym, ap, true, some, List, [], ◌∷◌, arith, ◌==◌,
  ==_iff, length, take, drop,
}
use esp32_rid.Nvs.Bytes.{write_scalar}
use esp32_rid.Nvs.Store.{
  Crc, stored_config_magic, schema_version, header_size, read_u16_le, read_u32_le, calculate_crc,
  header_without_crc, slot_blob,
}

take-all : (xs : List ℕ) → take (length xs) xs ≡ xs
take-all [] = refl
take-all (x ∷ xs) = ap (◌∷◌ x) (take-all xs)

module _ (crc32 : Crc) where
  module _ (payload : List ℕ) (generation : ℕ) where
    abbrev header : List ℕ
    header = header_without_crc crc32 (length payload) generation

    abbrev blob : List ℕ
    blob = slot_blob crc32 payload generation

    abbrev crc : ℕ
    crc = calculate_crc crc32 header payload

    length-blob : length blob ≡ 16 + length payload
    unfolding slot_blob header_without_crc write_scalar
    length-blob = omega arith

    blob_magic : read_u32_le blob ≡ stored_config_magic
    unfolding slot_blob header_without_crc write_scalar read_u32_le
    blob_magic = omega arith

    blob_version : read_u16_le (drop 4 blob) ≡ schema_version
    unfolding slot_blob header_without_crc write_scalar read_u16_le
    blob_version = omega arith

    blob_size : length payload < 2 ^ 16 → read_u16_le (drop 6 blob) ≡ length payload
    unfolding slot_blob header_without_crc write_scalar read_u16_le
    blob_size h = omega arith

    blob_generation : generation < 2 ^ 32 → read_u32_le (drop 8 blob) ≡ generation
    unfolding slot_blob header_without_crc write_scalar read_u32_le
    blob_generation h = omega arith

    blob-crc : crc < 2 ^ 32 → read_u32_le (drop 12 blob) ≡ crc
    unfolding slot_blob header_without_crc write_scalar read_u32_le
    blob-crc h = omega arith

    blob-payload : drop header_size blob ≡ payload
    unfolding slot_blob header_without_crc write_scalar
    blob-payload = refl

    crc_again : calculate_crc crc32 blob payload ≡ crc
    unfolding slot_blob header_without_crc write_scalar calculate_crc
    crc_again = refl

    parse_tests :
        (slot : ℕ) (c : SystemConfig)
        → (read_u32_le blob == stored_config_magic) ≡ true
        → (read_u16_le (drop 6 blob) == (length blob + 2 ^ 64 - header_size) % 2 ^ 64) ≡ true
        → (read_u32_le (drop 12 blob)
            == calculate_crc crc32 blob (take (read_u16_le (drop 6 blob)) (drop header_size blob)))
          ≡ true
        → (read_u16_le (drop 4 blob) == schema_version) ≡ true
        → decode_config (drop header_size blob) ≡ some c
        → parse_slot crc32 slot blob (length blob) ≡ record {
          error = success;
          value = some (record { config = c; generation = read_u32_le (drop 8 blob) });
          slot = slot;
        }
    unfolding parse_slot
    parse_tests slot c m s k v d = rw (m, parse_slot, s, k, v, d)

    blob_check :
        length payload < 2 ^ 16
        → crc < 2 ^ 32
        → read_u32_le (drop 12 blob)
          ≡ calculate_crc crc32 blob (take (read_u16_le (drop 6 blob)) (drop header_size blob))
    blob_check h w = rw (blob_size h, blob-payload, take-all payload, crc_again) (blob-crc w)

  pub length-slot_blob :
      (payload : List ℕ) (generation : ℕ)
      → length (slot_blob crc32 payload generation) ≡ 16 + length payload
  length-slot_blob payload generation = length-blob payload generation

  pub parse_slot-slot_blob :
      (payload : List ℕ) (c : SystemConfig) (generation slot : ℕ)
      → decode_config payload ≡ some c
      → length payload ≤ max_payload_size
      → generation < 2 ^ 32
      → ((seed : ℕ) (bytes : List ℕ) → crc32 seed bytes < 2 ^ 32)
      → parse_slot crc32 slot
          (slot_blob crc32 payload generation)
          (length (slot_blob crc32 payload generation))
        ≡ record {
          error = success;
          value = some (record { config = c; generation = generation });
          slot = slot;
        }
  parse_slot-slot_blob payload c generation slot d few g w =
      let crc_fits : crc payload generation < 2 ^ 32 = unfold calculate_crc in w _ _ in
      subst
        (λ n.
          parse_slot crc32 slot (blob payload generation) (length (blob payload generation))
          ≡ record {
            error = success;
            value = some (record { config = c; generation = n });
            slot = slot;
          })
        (blob_generation payload generation g)
        (parse_tests payload generation slot c ((==_iff _ _).1 (blob_magic payload generation))
          ((==_iff _ _).1 (
            omega
              (arith, blob_size payload generation (omega arith), length-blob payload generation)))
          ((==_iff _ _).1 (blob_check payload generation (omega arith) crc_fits))
          ((==_iff _ _).1 (blob_version payload generation))
          (subst (λ xs. decode_config xs ≡ some c) (sym (blob-payload payload generation)) d))
