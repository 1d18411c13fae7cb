-- ===== src/Wifi/Valid.antt =====
-- Every frame that is built passes the validation.
use esp32_rid.Prelude.{
  ℕ, zero, suc, ◌+◌, ◌%◌, ◌≤◌, ◌≡◌, refl, sym, ap, ◌∙◌, Bool, true, false, ◌&&◌, ◌||◌, Option, List,
  [], ◌∷◌, ◌++◌, append-nil, arith, ltb, leb, ◌==◌, if◌then◌else◌, length, take, drop,
  length-append, length-take, length-drop, drop-append,
}
use esp32_rid.Payload.{ByteView, null_view, view, view_size, view_bytes}
use esp32_rid.Wifi.{
  frame_ok, max_frame_size, fixed_size, beacon_header, beacon_elements, build_gb_beacon,
  valid_elements, validate_opendroneid_beacon, max_vendor_payload, address_bytes, byte_at,
}

-- As many rounds as there are bytes are enough: more change nothing.
pub valid_elements_enough :
    (m n : ℕ) (rest : List ℕ) (s r v : Bool)
    → length rest ≤ m
    → length rest ≤ n
    → valid_elements m rest s r v ≡ valid_elements n rest s r v
unfolding valid_elements
valid_elements_enough zero zero rest s r v h k = refl
valid_elements_enough zero (suc n) [] s r v h k = refl
valid_elements_enough (suc m) zero [] s r v h k = refl
valid_elements_enough zero (suc n) (x ∷ rest) s r v h k = absurd (omega arith)
valid_elements_enough (suc m) zero (x ∷ rest) s r v h k = absurd (omega arith)
valid_elements_enough (suc m) (suc n) [] s r v h k = refl
valid_elements_enough (suc m) (suc n) (x ∷ []) s r v h k = refl
valid_elements_enough (suc m) (suc n) (id ∷ size ∷ rest) s r v h k =
    ap (λ b. if ltb (length rest) size then false else b)
      (valid_elements_enough m n (drop size rest) _ _ _ (omega (arith, length-drop size rest))
        (omega (arith, length-drop size rest)))

module _ (ssid : List ℕ) (counter : ℕ) (payload : List ℕ) where
  length-beacon_elements :
      length (beacon_elements ssid counter payload) ≡ 12 + length ssid + length payload
  unfolding beacon_elements
  length-beacon_elements = omega (
    arith,
    length-append ssid (
        1
        ∷ 1
        ∷ 0x8c
        ∷ 0xdd
        ∷ ((5 + length payload) % 256)
        ∷ 0xfa
        ∷ 0x0b
        ∷ 0xbc
        ∷ 0x0d
        ∷ counter
        ∷ payload),
  )

length-beacon_header : (address : List ℕ) → length address ≡ 6 → length (beacon_header address) ≡ 36
unfolding beacon_header
length-beacon_header address h =
    let fixed : List ℕ = 0 ∷ 0 ∷ 0 ∷ 0 ∷ 0 ∷ 0 ∷ 0 ∷ 0 ∷ 0 ∷ 0 ∷ 0x64 ∷ 0 ∷ 1 ∷ 4 ∷ [] in
    omega (
      arith,
      length-append (take 6 address) (take 6 address ++ fixed),
      length-append (take 6 address) fixed,
      length-take 6 address (omega arith),
    )

-- One round of the loop over an element and what follows it.
element_step :
    (m id size : ℕ) (xs ys : List ℕ) (s r v : Bool)
    → size ≡ length xs
    → valid_elements (suc m) (id ∷ size ∷ (xs ++ ys)) s r v
      ≡ valid_elements m ys
          (s || ((id == 0) && leb size 32))
          (r || ((id == 1) && ltb 0 size && leb size 8))
          (v || ((id == 0xdd) && leb 4 size))
unfolding valid_elements
element_step m id size xs ys s r v e =
    let fits : ltb (length (xs ++ ys)) size ≡ false = ground (arith, length-append xs ys) in
    let rest : drop size (xs ++ ys) ≡ ys = ap (λ n. drop n (xs ++ ys)) e ∙ drop-append xs ys in
    rw (fits, rest) refl

elements_valid :
    (m counter : ℕ) (ssid payload : List ℕ)
    → length ssid ≤ 32
    → length payload ≤ max_vendor_payload
    → valid_elements
        (suc (suc (suc (suc m))))
        (beacon_elements ssid counter payload)
        false
        false
        false
      ≡ true
unfolding beacon_elements
elements_valid m counter ssid payload h k =
    let vendor = 0xfa ∷ 0x0b ∷ 0xbc ∷ 0x0d ∷ counter ∷ payload in
    let size = (5 + length payload) % 256 in
    let last = 0xdd ∷ size ∷ (vendor ++ []) in
    let short : leb (length ssid % 256) 32 ≡ true = ground arith in
    let long : leb 4 size ≡ true = ground arith in
    let third : valid_elements (suc (suc m)) last true true false ≡ true =
      element_step (suc m) 0xdd size vendor [] true true false (omega arith)
      ∙ (unfold valid_elements in rw long refl) in
    let tail = 1 ∷ 1 ∷ 0x8c ∷ 0xdd ∷ size ∷ vendor in
    element_step (suc (suc (suc m))) 0 (length ssid % 256) ssid tail false false false (omega arith)
    ∙ rw short (
        element_step (suc (suc m)) 1 1 (0x8c ∷ []) (0xdd ∷ size ∷ vendor) true false false
          (omega arith)
        ∙ ap (λ xs. valid_elements (suc (suc m)) (0xdd ∷ size ∷ xs) true true false)
            (sym (append-nil vendor))
        ∙ third)

length-view_bytes-le : (v : ByteView) → length (view_bytes v) ≤ view_size v
length-view_bytes-le (null_view n) = omega arith
length-view_bytes-le (view xs) = omega arith

-- What a construction that succeeds has checked, and what it has built.
build_cases :
    (address : Option (List ℕ)) (ssid : ByteView) (counter : ℕ) (payload : ByteView)
    → (build_gb_beacon address ssid counter payload).0 ≡ frame_ok
    → ((build_gb_beacon address ssid counter payload).1
        ≡ beacon_header (address_bytes address)
          ++ beacon_elements (view_bytes ssid) counter (view_bytes payload))
      × (view_size ssid ≤ 32)
      × (view_size payload ≤ max_vendor_payload)
unfolding build_gb_beacon
build_cases address ssid counter payload h = (ground arith, ground arith, ground arith)

first_byte : (address xs : List ℕ) → byte_at (view (beacon_header address ++ xs)) 0 ≡ 0x80
unfolding beacon_header
first_byte address xs = refl

frame_valid :
    (address ssid payload : List ℕ) (counter : ℕ)
    → length address ≡ 6
    → length ssid ≤ 32
    → length payload ≤ max_vendor_payload
    → validate_opendroneid_beacon
        (view (beacon_header address ++ beacon_elements ssid counter payload))
      ≡ frame_ok
unfolding validate_opendroneid_beacon
frame_valid address ssid payload counter a h k =
    let header = beacon_header address in
    let elements = beacon_elements ssid counter payload in
    let n : length (header ++ elements) ≡ 48 + length ssid + length payload = omega (
      arith,
      length-append header elements,
      length-beacon_header address a,
      length-beacon_elements ssid counter payload,
    ) in
    let n' : length (header ++ elements)
        ≡ suc (suc (suc (suc (44 + length ssid + length payload)))) =
      omega arith in
    let body : drop fixed_size (header ++ elements) ≡ elements =
      ap (λ i. drop i (header ++ elements)) (sym (length-beacon_header address a))
      ∙ drop-append header elements in
    let parsed : valid_elements (length (header ++ elements)) (drop fixed_size (header ++ elements))
          false false false
        ≡ true =
      ap (λ xs. valid_elements (length (header ++ elements)) xs false false false) body
      ∙ ap (λ i. valid_elements i elements false false false) n'
      ∙ elements_valid (44 + length ssid + length payload) counter ssid payload h k in
    let large : ltb (length (header ++ elements)) (fixed_size + 2) ≡ false = ground arith in
    let small : ltb max_frame_size (length (header ++ elements)) ≡ false = ground arith in
    rw (large, small, first_byte address elements, parsed) refl

-- Every Beacon frame that is built for a six-byte address, whatever the SSID, the counter and the
-- payload, passes the validation of Beacon frames.
pub validate-build :
    (address : Option (List ℕ)) (ssid : ByteView) (counter : ℕ) (payload : ByteView)
    → length (address_bytes address) ≡ 6
    → (build_gb_beacon address ssid counter payload).0 ≡ frame_ok
    → validate_opendroneid_beacon (view (build_gb_beacon address ssid counter payload).1) ≡ frame_ok
validate-build address ssid counter payload a h =
    let (e, s, p) = build_cases address ssid counter payload h in
    ap (λ xs. validate_opendroneid_beacon (view xs)) e
    ∙ frame_valid (address_bytes address) (view_bytes ssid) (view_bytes payload) counter a
        (omega (arith, length-view_bytes-le ssid)) (omega (arith, length-view_bytes-le payload))
