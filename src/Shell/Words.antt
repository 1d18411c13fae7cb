-- ===== src/Shell/Words.antt =====
-- The helpers of components/rid_shell/shell.cpp that take a command apart. Text is a list of bytes.
use Prim.Native.Char.{code}
use Prim.Native.String.{String, [] as end_of_text, ◌∷◌ as ◌then◌}
use esp32_rid.Prelude.{
  ℕ, zero, suc, ◌+◌, ◌-◌, ◌*◌, ◌/◌, ◌%◌, ◌^◌, Bool, not, ◌&&◌, ◌||◌, Option, none, some, List, [],
  ◌∷◌, ◌++◌, ltb, leb, ◌==◌, if◌then◌else◌, length,
}
use esp32_rid.Model.{Protocol, gb46750, open_drone_id, Transport, ble4, ble5, wifi24, wifi58}
use esp32_rid.Model.Floats.{Double}
use esp32_rid.Config.{bytes_eq, GroupConfig}

-- The bytes of a literal of ASCII characters.
unfoldable pub text : String → List ℕ
text end_of_text = []
text (c then s) = code c ∷ text s

abbrev pub is_text : List ℕ → String → Bool
is_text token s = bytes_eq token (text s)

-- `std::isspace` in the "C" locale.
abbrev pub is_space : ℕ → Bool
is_space c = (c == 32) || (leb 9 c && leb c 13)

-- The words of a line, with the word that is being read, in reverse order of its characters.
unfoldable pub split : List ℕ → List ℕ → List (List ℕ)
split word [] = if length word == 0 then [] else word ∷ []
split word (c ∷ cs) =
    let rest = split (if is_space c then [] else word ++ (c ∷ [])) cs in
    if is_space c && not (length word == 0) then word ∷ rest else rest

-- `words`.
unfoldable pub words : List ℕ → List (List ℕ)
words line = split [] line

-- `std::from_chars` for an unsigned number, without its bound: digits up to the end, at least one.
unfoldable pub digits_value : ℕ → List ℕ → Option ℕ
digits_value value [] = some value
digits_value value (c ∷ cs) =
    let rest = digits_value (value * 10 + (c - 48)) cs in
    if leb 48 c && leb c 57 then rest else none

abbrev at_most_u16 : Option ℕ → Option ℕ
at_most_u16 none = none
at_most_u16 (some value) = if ltb 65535 value then none else some value

-- `number`.
unfoldable pub number : List ℕ → Option ℕ
unfolding digits_value
number token = if length token == 0 then none else at_most_u16 (digits_value 0 token)

-- `protocol` and `transport`.
unfoldable pub parse_protocol : List ℕ → Option Protocol
parse_protocol token =
    if is_text token "gb"
    then some gb46750
    else if is_text token "odid"
    then some open_drone_id
    else none

unfoldable pub parse_transport : List ℕ → Option Transport
parse_transport token =
    if is_text token "ble4"
    then some ble4
    else if is_text token "ble5"
    then some ble5
    else if is_text token "wifi24"
    then some wifi24
    else if is_text token "wifi58" || is_text token "wifi5"
    then some wifi58
    else none

-- `decimal`, over `std::strtod`, which tells the number and how many characters it has read.
unfoldable pub decimal : (List ℕ → Double × ℕ) → List ℕ → Option Double
decimal strtod token =
    let (value, used) = strtod token in
    if not (used == 0) && (used == length token) then some value else none

-- `aircraft_count`.
unfoldable pub aircraft_count : List GroupConfig → ℕ
aircraft_count [] = 0
aircraft_count (g ∷ gs) = (g.count + aircraft_count gs) % 2 ^ 32

-- `std::to_string`, on the number of digits that are left.
unfoldable pub show_digits : ℕ → ℕ → List ℕ
show_digits zero n = []
show_digits (suc fuel) n =
    let before = show_digits fuel (n / 10) in
    (if ltb n 10 then [] else before) ++ ((48 + n % 10) ∷ [])

-- A 32-bit number has at most 10 digits; a `size_t` has 32 bits.
unfoldable pub show : ℕ → List ℕ
unfolding show_digits
show n = show_digits 10 n
