-- ===== src/Nvs/Store/Tests.antt =====
-- The store over a flash that is two blobs.
use esp32_rid.Prelude.{
  ℕ, ◌+◌, ◌%◌, ◌^◌, ◌<◌, ◌≡◌, refl, sym, true, Option, none, some, List, [], ◌∷◌, arith, length,
}
use esp32_rid.Prelude.Arrays.{update, update_self, update_ne}
use esp32_rid.Config.{
  validate, valid_site, valid_period, validate_groups, check_group, contains, bytes_eq, supported,
  periods_ok, new_group,
}
use esp32_rid.Model.{valid_latitude, valid_longitude}
use esp32_rid.Model.Floats.{is_finite32, is_finite64, is_nan64, le64, le32, signed_le, is_nan32}
use esp32_rid.Trajectory.{default_trajectory, valid_trajectory, finite_nonnegative}
use esp32_rid.Nvs.Bytes.{
  ◌>>=◌, check, done, read_scalar, write_scalar, read_string, read_many, write_many,
}
use esp32_rid.Nvs.Codec.{
  encode_config, decode_config, groups_fit, write_config, write_site, write_group, write_trajectory,
  write_point, write_optional_period, read_config, read_site, read_group, read_trajectory,
  read_point, read_optional_period,
}
use esp32_rid.Nvs.Store.{
  worst, parse_slot, slot_blob, header_without_crc, calculate_crc, read_u16_le, read_u32_le,
}
use esp32_rid.Config.Tests.{system}
use esp32_rid.Nvs.Tests.{system-Typed}
use esp32_rid.Nvs.Errors.{success}
use esp32_rid.Nvs.Store.{
  Crc, NvsErr, nvs_ok, nvs_not_found, NvsApi, save, load, has_value, read_slot, write_slot,
  save_over, choose_slot, choose_from,
}
use esp32_rid.Nvs.Store.Flash.{NvsLaws, Readable}
use esp32_rid.Nvs.Store.InForce.{in_force}
use esp32_rid.Nvs.Store.Saved.{load-save, save_keeps_in_force}

abbrev Flash : Type 0
Flash = ℕ → Option (List ℕ)

abbrev size_of : Option (List ℕ) → Flash → NvsErr × ℕ × Flash
size_of none d = (nvs_not_found, 0, d)
size_of (some bytes) d = (nvs_ok, length bytes, d)

abbrev bytes_of : Option (List ℕ) → Flash → NvsErr × List ℕ × ℕ × Flash
bytes_of none d = (nvs_not_found, [], 0, d)
bytes_of (some bytes) d = (nvs_ok, bytes, length bytes, d)

abbrev flash_api : NvsApi Flash
flash_api = record {
  open_store = λ write d. (nvs_ok, 1, d);
  get_size = λ handle slot d. size_of (d slot) d;
  get_blob = λ handle slot size d. bytes_of (d slot) d;
  set_blob = λ handle slot bytes d. (nvs_ok, update d slot (some bytes));
  commit = λ handle d. (nvs_ok, d);
  close = λ handle d. d;
}

abbrev view : Flash → ℕ → Option (List ℕ)
view d slot = d slot

size_keeps : (o : Option (List ℕ)) (d : Flash) (key : ℕ) → view (size_of o d).2 key ≡ view d key
size_keeps none d key = refl
size_keeps (some bytes) d key = refl

bytes_keep : (o : Option (List ℕ)) (d : Flash) (key : ℕ) → view (bytes_of o d).3 key ≡ view d key
bytes_keep none d key = refl
bytes_keep (some bytes) d key = refl

flash_laws : NvsLaws flash_api view
flash_laws = record {
  open_keeps = λ write d key. refl;
  size_keeps = λ handle slot d key. size_keeps (d slot) d key;
  get_keeps = λ handle slot size d key. bytes_keep (d slot) d key;
  set_keeps = λ handle slot bytes d key ne. update_ne d slot key (some bytes) (λ h. ne (sym h));
  set_stores = λ handle slot bytes d e. update_self d slot (some bytes);
  commit_keeps = λ handle d key. refl;
  close_keeps = λ handle d key. refl;
}

flash-Readable : Readable flash_api view
flash-Readable = record {
  opens = λ write d. refl;
  missing = λ handle slot d e. rw e refl;
  sized = λ handle slot d bytes e. rw e (refl, refl);
  given = λ handle slot d bytes e. rw e (refl, refl, refl);
}

-- A sum of the bytes in place of the CRC.
abbrev sum : List ℕ → ℕ
sum [] = 0
sum (x ∷ xs) = x + sum xs

abbrev checksum : Crc
checksum seed bytes = (seed + sum bytes) % 2 ^ 32

checksum_fits : (seed : ℕ) (bytes : List ℕ) → checksum seed bytes < 2 ^ 32
checksum_fits seed bytes = omega arith

abbrev empty : Flash
empty slot = none

-- The configuration and its generation after a save into an empty flash.
save_into_empty : (save checksum flash_api system 7 empty).0 ≡ success
unfolding save save_over choose_slot choose_from worst write_slot read_slot parse_slot slot_blob
    header_without_crc write_scalar calculate_crc read_u16_le read_u32_le encode_config
    decode_config groups_fit write_config write_site write_group write_trajectory write_point
    write_optional_period write_many read_config read_site read_group read_trajectory read_point
    read_optional_period read_many read_scalar read_string ◌>>=◌ check done validate valid_site
    valid_period validate_groups check_group contains bytes_eq supported periods_ok new_group
    default_trajectory valid_trajectory valid_latitude valid_longitude is_finite64 le64 signed_le
    is_nan64 finite_nonnegative is_finite32 le32 is_nan32
save_into_empty = refl

load-save_example :
    (load checksum flash_api (save checksum flash_api system 7 empty).1).0
    ≡ (success, some (record { config = system; generation = 7 }))
load-save_example =
    load-save checksum flash_api view empty system 7 flash_laws flash-Readable checksum_fits
      system-Typed (omega arith) save_into_empty

abbrev saved : Flash
saved = (save checksum flash_api system 7 empty).1

saved-has_value : has_value (in_force checksum view saved).value ≡ true
unfolding save save_over choose_slot choose_from worst write_slot read_slot parse_slot slot_blob
    header_without_crc write_scalar calculate_crc read_u16_le read_u32_le encode_config
    decode_config groups_fit write_config write_site write_group write_trajectory write_point
    write_optional_period write_many read_config read_site read_group read_trajectory read_point
    read_optional_period read_many read_scalar read_string ◌>>=◌ check done validate valid_site
    valid_period validate_groups check_group contains bytes_eq supported periods_ok new_group
    default_trajectory valid_trajectory valid_latitude valid_longitude is_finite64 le64 signed_le
    is_nan64 finite_nonnegative is_finite32 le32 is_nan32
saved-has_value = refl

save_keeps_in_force_example :
    let slot = (in_force checksum view saved).slot in
    view (save checksum flash_api system 8 saved).1 slot ≡ view saved slot
save_keeps_in_force_example =
    save_keeps_in_force checksum flash_api view flash_laws flash-Readable saved system 8
      saved-has_value
