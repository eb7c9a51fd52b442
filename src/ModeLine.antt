-- ===== src/ModeLine.antt =====
-- frontend/src/lib/modeSentence.ts: what a MODE line changes. `chars` is the iteration over a
-- string's characters, as codes, and `lower` is `toLowerCase`.
pub mod Events
pub mod Change
pub mod Users
pub mod Flags
pub mod Merge
mod Tests
use Prim.Native.String.{String}
use text.Mathlib.Text.{◌==◌ as str_eq}
use ircfiber_site.Common.{
  ℕ, Bool, true, false, not, ◌&&◌, ◌||◌, Option, none, some, List, [], ◌∷◌, ◌++◌, ◌==◌,
  if◌then◌else◌, filter, is_empty,
}

-- `letters.includes(ch)`
unfoldable pub has : ℕ → List ℕ → Bool
has ch [] = false
has ch (l ∷ ls) = l == ch || has ch ls

-- `PREFIX_MODE_RANK`, which are the letters of `BY_LETTER` as well.
abbrev pub prefix_mode_rank : List ℕ
prefix_mode_rank = b'y' ∷ b'Y' ∷ b'q' ∷ b'a' ∷ b'o' ∷ b'h' ∷ b'v' ∷ []

-- The letters of `LIST_ACTIONS`.
abbrev pub list_actions : List ℕ
list_actions = b'b' ∷ b'e' ∷ b'I' ∷ []

-- The classes of ISUPPORT CHANMODES.
pub record ChanModes : Type 0 where
  pub list_modes : List ℕ
  pub arg_modes : List ℕ
  pub add_arg_modes : List ℕ

-- `value || fallback`
unfoldable pub or_else : List ℕ → List ℕ → List ℕ
or_else [] fallback = fallback
or_else (l ∷ ls) fallback = l ∷ ls

unfoldable pub set_chan_mode_types : List ℕ → List ℕ → List ℕ → ChanModes
set_chan_mode_types a b c = record {
  list_modes = or_else a (b'b' ∷ b'e' ∷ b'I' ∷ []);
  arg_modes = or_else b (b'k' ∷ []);
  add_arg_modes = or_else c (b'l' ∷ []);
}

-- What one letter of the mode string does.
pub data Event : Type 0 where
  user : ℕ → Bool → String → Event
  list : ℕ → Bool → String → Event
  flag : ℕ → Bool → Option String → Event

-- A letter of `BY_LETTER`, with the arguments left.
unfoldable pub user_event : ℕ → Bool → List String → Event × List String
user_event ch adding [] = (flag ch adding none, [])
user_event ch adding (nick ∷ args) = (user ch adding nick, args)

-- A letter of class A.
unfoldable pub list_event : ℕ → Bool → List String → Event × List String
list_event ch adding [] = (flag ch adding none, [])
list_event ch adding (mask ∷ args) =
    if has ch list_actions then (list ch adding mask, args) else (flag ch adding (some mask), args)

-- A letter that takes an argument otherwise.
unfoldable pub arg_event : ℕ → Bool → List String → Event × List String
arg_event ch adding [] = (flag ch adding none, [])
arg_event ch adding (arg ∷ args) = (flag ch adding (some arg), args)

unfoldable pub next_event : ChanModes → ℕ → Bool → List String → Event × List String
next_event modes ch adding args =
    if has ch prefix_mode_rank
    then user_event ch adding args
    else if has ch modes.list_modes
    then list_event ch adding args
    else if has ch modes.arg_modes || adding && has ch modes.add_arg_modes
    then arg_event ch adding args
    else (flag ch adding none, args)

-- The sets keep the order of insertion.
pub record UserModeChange : Type 0 where
  pub nick : String
  pub added : List ℕ
  pub removed : List ℕ

pub record ListModeChange : Type 0 where
  pub letter : ℕ
  pub adding : Bool
  pub mask : String

-- The variables of the loop: the users by their keys, the list changes, and the flags' run.
pub record Line : Type 0 where
  pub user_map : List (String × UserModeChange)
  pub lists : List ListModeChange
  pub flag_letters : List ℕ
  pub flag_sign : Option Bool
  pub flag_args : List String

abbrev pub empty_line : Line
empty_line = record {
  user_map = [];
  lists = [];
  flag_letters = [];
  flag_sign = none;
  flag_args = [];
}

-- `set.add(ch)`
unfoldable pub insert : ℕ → List ℕ → List ℕ
insert ch ls = if has ch ls then ls else ls ++ ch ∷ []

-- What `set.delete(ch)` leaves, and `letters.filter(x => x !== ch)`.
unfoldable pub delete : ℕ → List ℕ → List ℕ
delete ch ls = filter (λ l. not (l == ch)) ls

-- Opposite signs cancel.
unfoldable pub change_user : ℕ → Bool → UserModeChange → UserModeChange
change_user ch true u =
    if has ch u.removed
    then record u { removed = delete ch u.removed }
    else record u { added = insert ch u.added }
change_user ch false u =
    if has ch u.added
    then record u { added = delete ch u.added }
    else record u { removed = insert ch u.removed }

-- The entry under `key`, made for `nick` when there is none, is changed in place.
unfoldable pub change_entry :
    String
    → String
    → (UserModeChange → UserModeChange)
    → List (String × UserModeChange)
    → List (String × UserModeChange)
change_entry key nick f [] = (key, f (record { nick = nick; added = []; removed = [] })) ∷ []
change_entry key nick f (e ∷ es) =
    let rest = change_entry key nick f es in if str_eq e.0 key then (e.0, f e.1) ∷ es else e ∷ rest

abbrev pub sign : Bool → ℕ
sign adding = if adding then b'+' else b'-'

-- `sign !== flagSign`
unfoldable pub turns : Bool → Option Bool → Bool
turns adding none = true
turns adding (some last) = if adding then not last else last

unfoldable pub push_arg : Option String → List String → List String
push_arg none args = args
push_arg (some arg) args = args ++ arg ∷ []

unfoldable pub push_flag : ℕ → Bool → Option String → Line → Line
push_flag letter adding arg line = record line {
  flag_letters =
      (if turns adding line.flag_sign
        then line.flag_letters ++ sign adding ∷ []
        else line.flag_letters)
      ++ letter ∷ [];
  flag_sign = some adding;
  flag_args = push_arg arg line.flag_args;
}

module _ (lower : String → String) where
  unfoldable pub apply_event : Event → Line → Line
  apply_event (user ch adding nick) line = record line {
    user_map = change_entry (lower nick) nick (change_user ch adding) line.user_map;
  }
  apply_event (list ch adding mask) line = record line {
    lists = line.lists ++ record { letter = ch; adding = adding; mask = mask } ∷ [];
  }
  apply_event (flag ch adding arg) line = push_flag ch adding arg line

  -- The loop over the mode string.
  unfoldable pub read_modes : ChanModes → Bool → List ℕ → List String → Line → Line
  read_modes modes adding [] args line = line
  read_modes modes adding (ch ∷ chs) args line = elim (ch == b'+') [
    | true ↦ read_modes modes true chs args line
    | false ↦ elim (ch == b'-') [
      | true ↦ read_modes modes false chs args line
      | false ↦
          let e = next_event modes ch adding args in
          read_modes modes adding chs e.1 (apply_event e.0 line)
    ]
  ]

-- `e.added.size || e.removed.size`
unfoldable pub is_changed : UserModeChange → Bool
is_changed u = not (is_empty u.added && is_empty u.removed)

unfoldable pub users_of : List (String × UserModeChange) → List UserModeChange
users_of [] = []
users_of (e ∷ es) = let rest = users_of es in if is_changed e.1 then e.1 ∷ rest else rest

-- `flags` is the letters and, behind a space each, the arguments; the arguments without letters are
-- none.
pub record ParsedModeLine : Type 0 where
  pub is_channel : Bool
  pub users : List UserModeChange
  pub lists : List ListModeChange
  pub flags : List ℕ × List String

-- `/^[#&!+]/`
unfoldable pub is_channel_target : List ℕ → Bool
is_channel_target [] = false
is_channel_target (c ∷ _) = c == b'#' || c == b'&' || c == b'!' || c == b'+'

module _ (chars : String → List ℕ) (lower : String → String) where
  unfoldable pub parse_mode_line : ChanModes → List String → ParsedModeLine
  parse_mode_line modes (target ∷ mode_str ∷ args) =
      let line = read_modes lower modes true (chars mode_str) args empty_line in
      record {
        is_channel = is_channel_target (chars target);
        users = users_of line.user_map;
        lists = line.lists;
        flags = (line.flag_letters, line.flag_args);
      }
  parse_mode_line modes _ = record { is_channel = false; users = []; lists = []; flags = ([], []) }
