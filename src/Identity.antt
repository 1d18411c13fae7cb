-- ===== src/Identity.antt =====
-- components/rid_identity/identity.cpp: the identity of a test aircraft, from a SHA-256 digest. The
-- digest is that of the mbedTLS library and so a parameter; `none` stands for a call that failed.
use esp32_rid.Prelude.{
  ℕ, zero, suc, ◌+◌, ◌-◌, ◌*◌, ◌/◌, ◌%◌, ◌^◌, ◌≤◌, ◌<◌, ◌≡◌, refl, ◌⊎◌, inl, inr, Option, none,
  some, List, [], ◌∷◌, ◌++◌, arith, ltb, if◌then◌else◌, Option-cases, All, length, take,
  length-take,
}
use esp32_rid.Model.{Protocol, gb46750}

abbrev pub Digest : Type 0
Digest = List ℕ → Option (List ℕ)

abbrev protocol_tag : Protocol → ℕ
protocol_tag gb46750 = 0
protocol_tag _ = 1

-- kHex[n]
abbrev hex_digit : ℕ → ℕ
hex_digit n = if ltb n 10 then b'0' + n else b'A' + n - 10

-- The two digits of each byte.
unfoldable pub hex_bytes : List ℕ → List ℕ
hex_bytes [] = []
hex_bytes (b ∷ bs) = hex_digit (b / 16) ∷ hex_digit (b % 16) ∷ hex_bytes bs

-- "TEST"
abbrev pub test_prefix : List ℕ
test_prefix = b'T' ∷ b'E' ∷ b'S' ∷ b'T' ∷ []

-- What is hashed: the device, the group's name, the index in big-endian order, and the protocol.
abbrev pub hashed : List ℕ → List ℕ → ℕ → Protocol → List ℕ
hashed device name index protocol =
    device
    ++ (name
        ++ ((index / 2 ^ 24 % 256)
            ∷ (index / 2 ^ 16 % 256)
            ∷ (index / 2 ^ 8 % 256)
            ∷ (index % 256)
            ∷ protocol_tag protocol
            ∷ []))

unfoldable pub derive_test_id : Digest → List ℕ → List ℕ → ℕ → Protocol → List ℕ
unfolding hex_bytes
derive_test_id sha256 device name index protocol =
    elim (sha256 (hashed device name index protocol)) [
      | none ↦ []
      | some digest ↦ test_prefix ++ hex_bytes (take 8 digest)
    ]

-- An upper-case hexadecimal digit.
abbrev pub IsHex : ℕ → Type 0
IsHex c = ((b'0' ≤ c) × (c ≤ b'9')) ⊎ ((b'A' ≤ c) × (c ≤ b'F'))

hex_digit-IsHex : (n : ℕ) → n < 16 → IsHex (hex_digit n)
hex_digit-IsHex n h = ground arith

hex_bytes-IsHex :
    (bs : List ℕ)
    → All (λ b. b < 256) bs
    → All IsHex (hex_bytes bs) × (length (hex_bytes bs) ≡ 2 * length bs)
unfolding hex_bytes
hex_bytes-IsHex [] h = (tt, omega arith)
hex_bytes-IsHex (b ∷ bs) h =
    let rest = hex_bytes-IsHex bs h.1 in
    (
      (hex_digit-IsHex (b / 16) (omega arith), (hex_digit-IsHex (b % 16) (omega arith), rest.0)),
      omega (arith, rest.1),
    )

All-take : (P : ℕ → Type 0) (n : ℕ) (xs : List ℕ) → All P xs → All P (take n xs)
All-take P zero xs h = tt
All-take P (suc n) [] h = tt
All-take P (suc n) (x ∷ xs) h = (h.0, All-take P n xs h.1)

-- The value of an upper-case hexadecimal digit, and the bytes that a text of such digits writes.
abbrev pub hex_value : ℕ → ℕ
hex_value c = if ltb c b'A' then c - b'0' else c - b'A' + 10

unfoldable pub unhex : List ℕ → List ℕ
unhex (high ∷ low ∷ cs) = (16 * hex_value high + hex_value low) ∷ unhex cs
unhex _ = []

hex_value-hex_digit : (n : ℕ) → n < 16 → hex_value (hex_digit n) ≡ n
hex_value-hex_digit n h = ground arith

unhex-hex_bytes : (bs : List ℕ) → All (λ b. b < 256) bs → unhex (hex_bytes bs) ≡ bs
unfolding unhex hex_bytes
unhex-hex_bytes [] h = refl
unhex-hex_bytes (b ∷ bs) h =
    let high = hex_value-hex_digit (b / 16) (omega arith) in
    let low = hex_value-hex_digit (b % 16) (omega arith) in
    let whole : 16 * hex_value (hex_digit (b / 16)) + hex_value (hex_digit (b % 16)) ≡ b =
      omega (arith, high, low) in
    rw (whole, unhex-hex_bytes bs h.1)

-- With a hash that gives 32 bytes: the identity is empty if the hash fails. Otherwise it is "TEST" and
-- 16 upper-case hexadecimal digits, which write the first 8 bytes of the hash of the device, the
-- group's name, the index and the protocol; so it is not empty.
pub derive_test_id_lem :
    (sha256 : Digest) (device name : List ℕ) (index : ℕ) (protocol : Protocol)
    → ((xs ys : List ℕ) → sha256 xs ≡ some ys → (length ys ≡ 32) × All (λ b. b < 256) ys)
    → let id = derive_test_id sha256 device name index protocol in
      ((sha256 (hashed device name index protocol) ≡ none) × (id ≡ []))
      ⊎ ((digest digits : List ℕ) × (sha256 (hashed device name index protocol) ≡ some digest)
          × (id ≡ test_prefix ++ digits)
          × (unhex digits ≡ take 8 digest)
          × (length digits ≡ 16)
          × All IsHex digits)
unfolding derive_test_id
derive_test_id_lem sha256 device name index protocol h =
    elim (Option-cases (sha256 (hashed device name index protocol))) [
      | inl e ↦ rw (e, derive_test_id) (inl (refl, refl))
      | inr (digest, e) ↦
          let full = h (hashed device name index protocol) digest e in
          let bytes = All-take (λ b. b < 256) 8 digest full.1 in
          let hex = hex_bytes-IsHex (take 8 digest) bytes in
          rw (e, derive_test_id)
            (inr (
              digest,
              hex_bytes (take 8 digest),
              refl,
              refl,
              unhex-hex_bytes (take 8 digest) bytes,
              omega (arith, hex.1, full.0, length-take 8 digest),
              hex.0,
            ))
    ]
