-- ===== src/Wifi/Tests.antt =====
-- Beacon frames for a concrete address.
use esp32_rid.Prelude.{ℕ, ◌≡◌, refl, some, List, [], ◌∷◌}
use esp32_rid.Payload.{view}
use esp32_rid.Wifi.{
  build_gb_beacon, build_opendroneid_beacon, is_message_pack, validate_opendroneid_beacon, frame_ok,
  invalid_argument, invalid_frame,
}
use esp32_rid.Wifi.Valid.{validate-build}

abbrev address : List ℕ
address = 2 ∷ 0 ∷ 0 ∷ 0 ∷ 0 ∷ 1 ∷ []

no_pack :
    (build_opendroneid_beacon (some address) (view []) 0 (view (0xf1 ∷ 25 ∷ 1 ∷ []))).0
    ≡ invalid_argument
unfolding build_opendroneid_beacon is_message_pack
no_pack = refl

too_short : validate_opendroneid_beacon (view address) ≡ invalid_frame
unfolding validate_opendroneid_beacon
too_short = refl

built :
    (build_gb_beacon (some address) (view (82 ∷ 73 ∷ 68 ∷ [])) 9 (view (1 ∷ 2 ∷ []))).0 ≡ frame_ok
unfolding build_gb_beacon
built = refl

validate-build_example :
    validate_opendroneid_beacon
      (view (build_gb_beacon (some address) (view (82 ∷ 73 ∷ 68 ∷ [])) 9 (view (1 ∷ 2 ∷ []))).1)
    ≡ frame_ok
validate-build_example =
    validate-build (some address) (view (82 ∷ 73 ∷ 68 ∷ [])) 9 (view (1 ∷ 2 ∷ [])) refl built
