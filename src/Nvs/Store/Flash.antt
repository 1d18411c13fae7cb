-- ===== src/Nvs/Store/Flash.antt =====
-- What the store relies on of the flash driver, and what follows for the reading of a slot.
use esp32_rid.Prelude.{
  ℕ, ◌+◌, ◌≡◌, refl, ◌∙◌, ◌≢◌, inl, inr, Bool, true, false, ◌||◌, Option, none, some, List, arith,
  ltb, if◌then◌else◌, Option-cases, length,
}
use esp32_rid.Nvs.Codec.{max_payload_size}
use esp32_rid.Nvs.Store.{
  Crc, nvs_ok, nvs_not_found, NvsApi, SlotResult, no_value, header_size, parse_slot, read_slot,
}
use esp32_rid.Nvs.Errors.{not_found, corrupt}

-- The documented effect of the driver's calls on the blobs: none changes the blob of a key but
-- `set_blob` that of its own, and a `set_blob` that succeeds stores its bytes. A failed one may
-- leave anything under its key.
pub record NvsLaws {D : Type 0} (api : NvsApi D) (blob : D → ℕ → Option (List ℕ)) : Type 0 where
  pub open_keeps :
      (write : Bool) (d : D) (key : ℕ) → blob (api.open_store write d).2 key ≡ blob d key
  pub size_keeps :
      (handle slot : ℕ) (d : D) (key : ℕ) → blob (api.get_size handle slot d).2 key ≡ blob d key
  pub get_keeps :
      (handle slot size : ℕ) (d : D) (key : ℕ)
      → blob (api.get_blob handle slot size d).3 key ≡ blob d key
  pub set_keeps :
      (handle slot : ℕ) (bytes : List ℕ) (d : D) (key : ℕ)
      → key ≢ slot
      → blob (api.set_blob handle slot bytes d).1 key ≡ blob d key
  pub set_stores :
      (handle slot : ℕ) (bytes : List ℕ) (d : D)
      → (api.set_blob handle slot bytes d).0 ≡ nvs_ok
      → blob (api.set_blob handle slot bytes d).1 slot ≡ some bytes
  pub commit_keeps : (handle : ℕ) (d : D) (key : ℕ) → blob (api.commit handle d).1 key ≡ blob d key
  pub close_keeps : (handle : ℕ) (d : D) (key : ℕ) → blob (api.close handle d) key ≡ blob d key

-- A driver whose reads do not fail: they give what the key holds.
pub record Readable {D : Type 0} (api : NvsApi D) (blob : D → ℕ → Option (List ℕ)) : Type 0 where
  pub opens : (write : Bool) (d : D) → (api.open_store write d).0 ≡ nvs_ok
  pub missing :
      (handle slot : ℕ) (d : D)
      → blob d slot ≡ none
      → (api.get_size handle slot d).0 ≡ nvs_not_found
  pub sized :
      (handle slot : ℕ) (d : D) (bytes : List ℕ)
      → blob d slot ≡ some bytes
      → ((api.get_size handle slot d).0 ≡ nvs_ok) × ((api.get_size handle slot d).1 ≡ length bytes)
  pub given :
      (handle slot : ℕ) (d : D) (bytes : List ℕ)
      → blob d slot ≡ some bytes
      → ((api.get_blob handle slot (length bytes) d).0 ≡ nvs_ok)
        × ((api.get_blob handle slot (length bytes) d).1 ≡ bytes)
        × ((api.get_blob handle slot (length bytes) d).2 ≡ length bytes)

-- What a slot holds.
abbrev pub held : Crc → ℕ → Option (List ℕ) → SlotResult
held crc32 slot none = no_value not_found slot
held crc32 slot (some bytes) =
    if ltb (length bytes) header_size || ltb (header_size + max_payload_size) (length bytes)
    then no_value corrupt slot
    else parse_slot crc32 slot bytes (length bytes)

if_fst :
    {A B : Type 0} (b : Bool) (x y : A) (u v : B)
    → (let r : A × B = if b then (x, u) else (y, v) in r.0) ≡ (if b then x else y)
if_fst true x y u v = refl
if_fst false x y u v = refl

module _ (crc32 : Crc) {D : Type 0} (api : NvsApi D) (blob : D → ℕ → Option (List ℕ)) where
  pub read_slot_keeps :
      NvsLaws api blob
      → (handle slot : ℕ) (d : D) (key : ℕ)
      → blob (read_slot crc32 api handle slot d).1 key ≡ blob d key
  unfolding read_slot
  read_slot_keeps laws handle slot d key =
      let d1 = (api.get_size handle slot d).2 in
      let size = (api.get_size handle slot d).1 in
      ground (arith, laws.size_keeps handle slot d key, laws.get_keeps handle slot size d1 key)

  pub read_slot-held :
      NvsLaws api blob
      → Readable api blob
      → (handle slot : ℕ) (d : D)
      → (read_slot crc32 api handle slot d).0 ≡ held crc32 slot (blob d slot)
  unfolding read_slot
  read_slot-held laws reads handle slot d = elim (Option-cases (blob d slot)) [
    | inl e ↦ rw (e, reads.missing handle slot d e, read_slot) refl
    | inr (bytes, e) ↦
        let s = reads.sized handle slot d bytes e in
        let d1 = (api.get_size handle slot d).2 in
        let g = reads.given handle slot d1 bytes (laws.size_keeps handle slot d slot ∙ e) in
        rw (e, read_slot, s.0, s.1, g.0, g.1, g.2)
          (if_fst {B = D}
            (ltb (length bytes) header_size || ltb (header_size + max_payload_size) (length bytes))
            (no_value corrupt slot) (parse_slot crc32 slot bytes (length bytes)) d1
            (api.get_blob handle slot (length bytes) d1).3)
  ]
