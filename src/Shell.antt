-- ===== src/Shell.antt =====
-- `ShellLineBuffer` of components/rid_shell/shell.cpp: the editing of a line of console input. A
-- character is the byte that it is cast to.
pub mod Lines
pub mod Words
pub mod Commands
pub mod Handle
pub mod Outcome
pub mod Handling
pub mod Sessions
pub mod Tests
use esp32_rid.Prelude.{
  le→leb, All-map, ℕ, zero, suc, ◌+◌, ◌-◌, ◌*◌, ◌/◌, ◌%◌, ◌^◌, ◌≤◌, ◌<◌, ◌≡◌, refl, sym, ap, ◌∙◌,
  ◌≢◌, ◌↔◌, ◌⊎◌, inl, inr, Bool, true, false, not, ◌&&◌, ◌||◌, Option, none, some, List, [], ◌∷◌,
  ◌++◌, map, append-nil, append_assoc, arith, ltb, leb, ◌==◌, if◌then◌else◌, ltb→lt, lt→ltb, leb→le,
  ==_iff, Bool-cases, Option-cases, if_cases, All, length, get_or, set, take, drop, replicate,
  erase_at, length-append, length-set, length-take, length-drop, length-replicate, length-erase_at,
  length-erase_at-le, take-append, drop-append, take-append-drop, All-append, All-erase_at,
  All-get_or,
}

abbrev pub max_line_size : ℕ
max_line_size = 255

pub data LineEvent : Type 0 where
  no_event ready too_long : LineEvent

pub data Echo : Type 0 where
  no_echo character newline erased : Echo

pub record LineResult : Type 0 where
  pub event : LineEvent
  pub echo : Echo
  pub echoed : ℕ
  pub erase_count : ℕ

-- `ShellLineResult{}`.
abbrev pub nothing : LineResult
nothing = record { event = no_event; echo = no_echo; echoed = 0; erase_count = 0 }

pub record LineBuffer : Type 0 where
  pub bytes : List ℕ
  pub size : ℕ
  pub overflow : Bool
  pub last_was_cr : Bool
  pub escape_state : ℕ

unfoldable pub fresh : LineBuffer
fresh = record {
  bytes = replicate max_line_size 0;
  size = 0;
  overflow = false;
  last_was_cr = false;
  escape_state = 0;
}

-- '\n', '\r' and '['.
abbrev pub line_feed : ℕ
line_feed = 10

abbrev pub carriage_return : ℕ
carriage_return = 13

abbrev bracket : ℕ
bracket = 91

-- A '\r' or a '\n' that ends a line.
unfoldable pub end_line : LineBuffer → ℕ → LineResult × LineBuffer
end_line b c =
    let b' = record b { last_was_cr = c == carriage_return; escape_state = 0 } in
    if b.overflow
    then (
      record nothing { event = too_long; echo = newline },
      record b' { overflow = false; size = 0 },
    )
    else (record nothing { event = if b.size == 0 then no_event else ready; echo = newline }, b')

-- The other characters, outside an escape sequence.
unfoldable pub edit : LineBuffer → ℕ → LineResult × LineBuffer
edit b c =
    if c == 0x1b
    then (nothing, record b { escape_state = 1 })
    else if c == 0x15
    then (
      record nothing { echo = if b.size == 0 then no_echo else erased; erase_count = b.size },
      record b { size = 0; overflow = false },
    )
    else if c == 0x08 || c == 0x7f
    then (if b.overflow || b.size == 0
        then (nothing, b)
        else (record nothing { echo = erased; erase_count = 1 }, record b { size = b.size - 1 }))
    else if ltb c 0x20 || ltb 0x7e c || b.overflow
    then (nothing, b)
    else if b.size == max_line_size
    then (nothing, record b { overflow = true })
    else (
      record nothing { echo = character; echoed = c },
      record b { bytes = set b.bytes b.size c; size = b.size + 1 },
    )

unfoldable pub push : LineBuffer → ℕ → LineResult × LineBuffer
unfolding end_line edit
push b c =
    let b' = record b { last_was_cr = false } in
    if c == line_feed && b.last_was_cr
    then (nothing, b')
    else if c == carriage_return || c == line_feed
    then end_line b c
    else if b.escape_state == 1
    then (nothing, record b' { escape_state = if c == bracket then 2 else 0 })
    else if b.escape_state == 2
    then (nothing, if leb 0x40 c && leb c 0x7e then record b' { escape_state = 0 } else b')
    else edit b' c

unfoldable pub take_line : LineBuffer → List ℕ × LineBuffer
take_line b = (take b.size b.bytes, record b { size = 0 })

-- The characters of a list, one after the other.
unfoldable pub push_all : LineBuffer → List ℕ → LineBuffer
push_all b [] = b
push_all b (c ∷ cs) = push_all (push b c).1 cs
