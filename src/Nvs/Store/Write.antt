-- ===== src/Nvs/Store/Write.antt =====
-- What the two halves of `save` do to the blobs.
use esp32_rid.Prelude.{
  ℕ, ◌≡◌, ◌∙◌, ◌≢◌, ◌↔◌, true, false, not, ◌&&◌, ◌||◌, Option, some, List, arith, if◌then◌else◌,
  if_cases,
}
use esp32_rid.Nvs.Errors.{NvsStoreError, success}
use esp32_rid.Nvs.Store.{
  Crc, NvsErr, nvs_ok, NvsApi, SlotResult, read_slot, write_slot, save_over, is_nvs_ok, choose_slot,
  slot_blob, verifies, other_slot, is_storage, is_incompatible, has_value, stale,
}
use esp32_rid.Nvs.Store.Flash.{NvsLaws, read_slot_keeps}

is_nvs_ok_iff : (e : NvsErr) → (is_nvs_ok e ≡ true) ↔ (e ≡ nvs_ok)
is_nvs_ok_iff e = ground arith

-- The slot that `save` writes.
abbrev pub target_of : SlotResult → ℕ
target_of current = if has_value current.value then other_slot current.slot else 0

module _ (crc32 : Crc) {D : Type 0} (api : NvsApi D) (blob : D → ℕ → Option (List ℕ))
    (laws : NvsLaws api blob) where
  module _ (handle target : ℕ) (payload : List ℕ) (generation : ℕ) (d : D) where
    abbrev bytes : List ℕ
    bytes = slot_blob crc32 payload generation

    abbrev d1 : D
    d1 = (api.set_blob handle target bytes d).1

    abbrev d2 : D
    d2 = (api.commit handle d1).1

    abbrev d3 : D
    d3 = (read_slot crc32 api handle target d2).1

    later_keeps : (key : ℕ) → blob (api.close handle d3) key ≡ blob d1 key
    later_keeps key =
        laws.close_keeps handle d3 key
        ∙ read_slot_keeps crc32 api blob laws handle target d2 key
        ∙ laws.commit_keeps handle d1 key

    pub write_slot_keeps :
        (key : ℕ)
        → key ≢ target
        → blob (write_slot crc32 api handle target payload generation d).1 key ≡ blob d key
    unfolding write_slot
    write_slot_keeps key ne =
        let k = laws.set_keeps handle target bytes d key ne in
        let P = λ (r : NvsStoreError × D). blob r.1 key ≡ blob d key in
        if_cases P (not (is_nvs_ok (api.set_blob handle target bytes d).0))
          (λ h. laws.close_keeps handle d1 key ∙ k)
          (λ h.
            if_cases P (not (is_nvs_ok (api.commit handle d1).0))
              (λ i. laws.close_keeps handle d2 key ∙ laws.commit_keeps handle d1 key ∙ k)
              (λ i.
                if_cases P
                  (not
                    (verifies crc32 api generation (read_slot crc32 api handle target d2).0.value))
                  (λ j. later_keeps key ∙ k) (λ j. later_keeps key ∙ k)))

    pub write_slot_stores :
        (write_slot crc32 api handle target payload generation d).0 ≡ success
        → blob (write_slot crc32 api handle target payload generation d).1 target ≡ some bytes
    unfolding write_slot
    write_slot_stores =
        let P = λ (r : NvsStoreError × D). r.0 ≡ success → blob r.1 target ≡ some bytes in
        if_cases P (not (is_nvs_ok (api.set_blob handle target bytes d).0)) (λ h e. cc)
          (λ h.
            if_cases P (not (is_nvs_ok (api.commit handle d1).0)) (λ i e. cc)
              (λ i.
                if_cases P
                  (not
                    (verifies crc32 api generation (read_slot crc32 api handle target d2).0.value))
                  (λ j e. cc)
                  (λ j e.
                    later_keeps target
                    ∙ laws.set_stores handle target bytes d
                        ((is_nvs_ok_iff (api.set_blob handle target bytes d).0).0 (ground arith)))))

  module _ (left right : SlotResult) (handle : ℕ) (payload : List ℕ) (generation : ℕ) (d : D) where
    abbrev current : SlotResult
    current = choose_slot left right

    pub save_over_keeps :
        (key : ℕ)
        → key ≢ target_of current
        → blob (save_over crc32 api left right handle payload generation d).1 key ≡ blob d key
    unfolding save_over
    save_over_keeps key ne =
        let P = λ (r : NvsStoreError × D). blob r.1 key ≡ blob d key in
        let closed = laws.close_keeps handle d key in
        if_cases P (is_storage left.error || is_storage right.error) (λ h. closed)
          (λ h.
            if_cases P (is_incompatible left.error || is_incompatible right.error) (λ i. closed)
              (λ i.
                if_cases P
                  (has_value left.value && has_value right.value && not (has_value current.value))
                  (λ j. closed)
                  (λ j.
                    if_cases P (stale crc32 api generation current.value) (λ k. closed)
                      (λ k.
                        write_slot_keeps handle (target_of current) payload generation d key ne))))

    -- What a save that succeeds has checked, and what it has written.
    abbrev pub Written : NvsStoreError × D → Type 0
    Written r =
        (has_value left.value && has_value right.value && not (has_value current.value) ≡ false)
        × (stale crc32 api generation current.value ≡ false)
        × (blob r.1 (target_of current) ≡ some (slot_blob crc32 payload generation))

    pub save_over_stores :
        (save_over crc32 api left right handle payload generation d).0 ≡ success
        → Written (save_over crc32 api left right handle payload generation d)
    unfolding save_over
    save_over_stores =
        let P = λ (r : NvsStoreError × D). r.0 ≡ success → Written r in
        if_cases P (is_storage left.error || is_storage right.error) (λ h e. cc)
          (λ h.
            if_cases P (is_incompatible left.error || is_incompatible right.error) (λ i e. cc)
              (λ i.
                if_cases P
                  (has_value left.value && has_value right.value && not (has_value current.value))
                  (λ j e. cc)
                  (λ j.
                    if_cases P (stale crc32 api generation current.value) (λ k e. cc)
                      (λ k e. (
                        j,
                        k,
                        write_slot_stores handle (target_of current) payload generation d e,
                      )))))
