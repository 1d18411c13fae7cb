-- ===== src/Nvs/Bytes.antt =====
-- `Writer` and `Reader` of components/rid_config/nvs_store.cpp. A writer is the bytes that it has
-- appended, a reader the bytes that it has not read.
pub mod Reads
use esp32_rid.Prelude.{
  le→leb, All-map, ℕ, zero, suc, ◌+◌, ◌-◌, ◌*◌, ◌/◌, ◌%◌, ◌^◌, ◌≤◌, ◌<◌, ◌≡◌, refl, sym, ap, ◌∙◌,
  ◌≢◌, ◌↔◌, ◌⊎◌, inl, inr, Bool, true, false, not, ◌&&◌, ◌||◌, Option, none, some, List, [], ◌∷◌,
  ◌++◌, map, append-nil, append_assoc, arith, ltb, leb, ◌==◌, if◌then◌else◌, ltb→lt, lt→ltb, leb→le,
  ==_iff, Bool-cases, Option-cases, if_cases, All, length, get_or, set, take, drop, replicate,
  erase_at, length-append, length-set, length-take, length-drop, length-replicate, length-erase_at,
  length-erase_at-le, take-append, drop-append, take-append-drop, All-append, All-erase_at,
  All-get_or,
}

-- `Writer::scalar` of `width` bytes, lowest byte first.
unfoldable pub write_scalar : ℕ → ℕ → List ℕ
write_scalar zero bits = []
write_scalar (suc width) bits = (bits % 256) ∷ write_scalar width (bits / 256)

-- A step of decoding: `none` is a `false` of the reader, or a check that fails.
abbrev pub Reader : Type 0 → Type 0
Reader A = List ℕ → Option (A × List ℕ)

infixr 5 ◌>>=◌
unfoldable pub ◌>>=◌ : {A B : Type 0} → Reader A → (A → Reader B) → Reader B
◌>>=◌ m f xs = elim (m xs) [ none ↦ none | some (a, rest) ↦ f a rest ]

unfoldable pub done : {A : Type 0} → A → Reader A
done a xs = some (a, xs)

unfoldable pub check : Bool → Reader (Unit {0})
check true xs = some (tt, xs)
check false xs = none

-- `Reader::scalar` of `width` bytes. The shifted bytes do not overlap, so `|=` adds.
unfoldable pub read_scalar : ℕ → Reader ℕ
read_scalar zero xs = some (0, xs)
read_scalar (suc width) [] = none
read_scalar (suc width) (b ∷ xs) = elim (read_scalar width xs) [
  | none ↦ none
  | some (v, rest) ↦ some (b + 256 * v, rest)
]

-- `Reader::string`.
unfoldable pub read_string : ℕ → Reader (List ℕ)
read_string zero xs = some ([], xs)
read_string (suc size) [] = none
read_string (suc size) (b ∷ xs) = elim (read_string size xs) [
  | none ↦ none
  | some (text, rest) ↦ some (b ∷ text, rest)
]

-- A loop that reads `n` items.
unfoldable pub read_many : {A : Type 0} → ℕ → Reader A → Reader (List A)
read_many zero item xs = some ([], xs)
read_many (suc n) item xs = elim (item xs) [
  | none ↦ none
  | some (a, rest) ↦ elim (read_many n item rest) [
    | none ↦ none
    | some (others, left) ↦ some (a ∷ others, left)
  ]
]

-- The items' bytes, one after the other.
unfoldable pub write_many : {A : Type 0} → (A → List ℕ) → List A → List ℕ
write_many write [] = []
write_many write (a ∷ as_) = write a ++ write_many write as_
