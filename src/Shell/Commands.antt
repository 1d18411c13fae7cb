-- ===== src/Shell/Commands.antt =====
-- `Shell::handle` of components/rid_shell/shell.cpp. The callbacks work on a world `W`, which is passed
-- along and returned; `std::strtod` and the hash behind the identities are parameters.
use Prim.Native.String.{String}
use esp32_rid.Prelude.{
  ℕ, ◌+◌, ◌-◌, Bool, not, ◌&&◌, ◌||◌, Option, none, some, List, [], ◌∷◌, ◌++◌, leb, ◌==◌,
  if◌then◌else◌, length, get_or,
}
use esp32_rid.Model.Floats.{Double}
use esp32_rid.Config.{bytes_eq, SystemConfig, GroupConfig, new_group, AircraftConfig}
use esp32_rid.Shell.Words.{
  text, is_text, number, parse_protocol, parse_transport, decimal, aircraft_count, show,
}

-- A `ConfigCallback`.
abbrev pub Callback : Type 0 → Type 0
Callback W = SystemConfig → ℕ → W → Bool × W

pub record Shell (W : Type 0) : Type 0 where
  pub staged : SystemConfig
  pub applied : Option SystemConfig
  pub generation : ℕ
  pub apply_callback : Option (Callback W)
  pub save_callback : Option (Callback W)

-- The constructor.
unfoldable pub new_shell : {W : Type 0} → SystemConfig → Option SystemConfig → ℕ → Shell W
new_shell staged applied generation = record {
  staged = staged;
  applied = applied;
  generation = generation;
  apply_callback = none;
  save_callback = none;
}

-- The reply, the shell and the world after a command.
abbrev pub Handled : Type 0 → Type 0
Handled W = List ℕ × Shell W × W

abbrev pub new_line : List ℕ
new_line = 10 ∷ []

-- `error`.
abbrev pub error : List ℕ → List ℕ
error code = text "ERR " ++ (code ++ new_line)

-- `tokens[i]`, after the tests of the number of tokens.
abbrev pub token : List (List ℕ) → ℕ → List ℕ
token tokens i = get_or tokens i []

abbrev applied_count : Option SystemConfig → ℕ
applied_count none = 0
applied_count (some config) = aircraft_count config.groups

unfoldable pub help_reply : List ℕ
help_reply = text "OK help site|group|config|fleet|status" ++ new_line

unfoldable pub status_reply : {W : Type 0} → Shell W → List ℕ
status_reply s =
    text "OK status generation="
    ++ (show s.generation
        ++ (text " staged="
            ++ (show (aircraft_count s.staged.groups)
                ++ (text " applied=" ++ (show (applied_count s.applied) ++ new_line)))))

-- The groups in the reply of a list.
unfoldable pub list_groups : List GroupConfig → List ℕ
list_groups [] = new_line
list_groups (g ∷ gs) = text " " ++ (g.name ++ (text ":" ++ (show g.count ++ list_groups gs)))

unfoldable pub list_fleet : List AircraftConfig → List ℕ
list_fleet [] = new_line
list_fleet (a ∷ others) = text " " ++ (a.identity ++ list_fleet others)

-- The loop that erases the first group of a name, if there is one.
unfoldable pub delete_group : List ℕ → List GroupConfig → Option (List GroupConfig)
delete_group name [] = none
delete_group name (g ∷ gs) =
    let rest = delete_group name gs in
    if bytes_eq g.name name
    then some gs
    else elim rest [ none ↦ none | some left ↦ some (g ∷ left) ]

-- A group from the four words that describe it.
unfoldable pub parse_group : List ℕ → List ℕ → List ℕ → List ℕ → Option GroupConfig
parse_group name count_text protocol_text transport_text = elim (number count_text) [
  | none ↦ none
  | some count ↦
      if length name == 0 || count == 0 then none else elim (parse_protocol protocol_text) [
        | none ↦ none
        | some protocol ↦ elim (parse_transport transport_text) [
          | none ↦ none
          | some transport ↦ some (new_group name count protocol transport)
        ]
      ]
]

-- Where the offset of the words of a group command is; 0 for any other command.
unfoldable pub group_offset : List (List ℕ) → ℕ
group_offset tokens =
    if is_text (token tokens 0) "group"
    then 1
    else if leb 2 (length tokens)
        && is_text (token tokens 0) "config"
        && is_text (token tokens 1) "group"
    then 2
    else 0

-- The forms of `group add`.
unfoldable pub add_group : List (List ℕ) → ℕ → Option GroupConfig
add_group tokens offset =
    let remaining = length tokens - offset in
    if remaining == 5
    then parse_group (token tokens (offset + 1)) (token tokens (offset + 2))
        (token tokens (offset + 3)) (token tokens (offset + 4))
    else if (remaining == 8)
        && is_text (token tokens (offset + 2)) "count"
        && is_text (token tokens (offset + 4)) "protocol"
        && is_text (token tokens (offset + 6)) "transport"
    then parse_group (token tokens (offset + 1)) (token tokens (offset + 3))
        (token tokens (offset + 5)) (token tokens (offset + 7))
    else none

module _ {W : Type 0} where
  -- A command that changes the staged configuration only, or nothing.
  abbrev pub restage : Shell W → SystemConfig → W → List ℕ → Handled W
  restage s config w reply = (reply, record s { staged = config }, w)

  abbrev pub refuse : Shell W → W → String → Handled W
  refuse s w code = (error (text code), s, w)

  abbrev pub answer : Shell W → W → List ℕ → Handled W
  answer s w reply = (reply, s, w)

  unfoldable pub handle_site : (List ℕ → Double × ℕ) → List (List ℕ) → Shell W → W → Handled W
  handle_site strtod tokens s w =
      if not (length tokens == 6)
        || not (is_text (token tokens 1) "set")
        || not (is_text (token tokens 2) "latitude")
        || not (is_text (token tokens 4) "longitude")
      then refuse s w "INVALID_ARGUMENT"
      else elim (decimal strtod (token tokens 3)) [
        | none ↦ refuse s w "INVALID_ARGUMENT"
        | some latitude ↦ elim (decimal strtod (token tokens 5)) [
          | none ↦ refuse s w "INVALID_ARGUMENT"
          | some longitude ↦
              restage s
                (record (s.staged) {
                  site = some (record { latitude_deg = latitude; longitude_deg = longitude });
                })
                w (text "OK site staged" ++ new_line)
        ]
      ]

  unfoldable pub handle_group : List (List ℕ) → ℕ → Shell W → W → Handled W
  handle_group tokens offset s w =
      let action = token tokens offset in
      if leb (length tokens) offset
      then refuse s w "UNKNOWN_COMMAND"
      else if is_text action "list"
      then answer s w
          (text "OK groups=" ++ (show (length s.staged.groups) ++ list_groups s.staged.groups))
      else if is_text action "clear"
      then restage s (record (s.staged) { groups = [] }) w (text "OK group_clear" ++ new_line)
      else if is_text action "delete" && (length tokens == offset + 2)
      then elim (delete_group (token tokens (offset + 1)) s.staged.groups) [
        | none ↦ refuse s w "GROUP_NOT_FOUND"
        | some groups ↦
            restage s (record (s.staged) { groups = groups }) w (text "OK group_delete" ++ new_line)
      ]
      else if not (is_text action "add")
      then refuse s w "UNKNOWN_COMMAND"
      else elim (add_group tokens offset) [
        | none ↦ refuse s w "INVALID_ARGUMENT"
        | some g ↦
            restage s (record (s.staged) { groups = s.staged.groups ++ (g ∷ []) }) w
              (text "OK group " ++ (g.name ++ (text " staged" ++ new_line)))
      ]
