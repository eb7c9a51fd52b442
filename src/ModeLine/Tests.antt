-- ===== src/ModeLine/Tests.antt =====
-- A mode line read, and the theorems at it.
use Prim.Native.String.{String}
use text.Mathlib.Text.{◌==◌ as str_eq}
use ircfiber_site.Common.{ℕ, ◌≡◌, refl, true, List, [], ◌∷◌, if◌then◌else◌}
use ircfiber_site.ModeLine.{
  has, ChanModes, or_else, set_chan_mode_types, user_event, list_event, arg_event, next_event,
  UserModeChange, insert, delete, change_user, change_entry, turns, push_arg, push_flag,
  apply_event, read_modes, is_changed, users_of, is_channel_target, parse_mode_line,
}
use ircfiber_site.ModeLine.Events.{events}
use ircfiber_site.ModeLine.Users.{IsFresh, IsUserMap, parse_mode_line-net_change}
use ircfiber_site.ModeLine.Change.{
  unchanged, change_in, change_under, said_of, net_change, IsDisjoint,
}
use ircfiber_site.ModeLine.Merge.{
  merge_user_mode_change, rank_order, AreOnce, IsNetted, compose, merge_user_mode_change-compose,
}

abbrev defaults : ChanModes
defaults = record {
  list_modes = b'b' ∷ b'e' ∷ b'I' ∷ [];
  arg_modes = b'k' ∷ [];
  add_arg_modes = b'l' ∷ [];
}

classes_default : set_chan_mode_types [] [] [] ≡ defaults
unfolding set_chan_mode_types or_else
classes_default = refl

-- `+mo-k+b-o`
abbrev letters : List ℕ
letters = b'+' ∷ b'm' ∷ b'o' ∷ b'-' ∷ b'k' ∷ b'+' ∷ b'b' ∷ b'-' ∷ b'o' ∷ []

abbrev chars : String → List ℕ
chars s = if str_eq s "#chan" then b'#' ∷ [] else letters

abbrev same : String → String
same s = s

abbrev given : List String
given = "alice" ∷ "key" ∷ "*!*@host" ∷ "alice" ∷ []

-- the two changes of alice cancel, and a key is taken whichever the sign
mixed_line : parse_mode_line chars same defaults ("#chan" ∷ "+mo-k+b-o" ∷ given) ≡ record {
  is_channel = true;
  users = [];
  lists = record { letter = b'b'; adding = true; mask = "*!*@host" } ∷ [];
  flags = (b'+' ∷ b'm' ∷ b'-' ∷ b'k' ∷ [], "key" ∷ []);
}
unfolding parse_mode_line read_modes apply_event next_event user_event list_event arg_event has
    change_entry change_user insert delete push_flag push_arg turns users_of is_changed
    is_channel_target
mixed_line = refl

parse_mode_line-net_change_example :
    said_of same "alice" b'o'
      (parse_mode_line chars same defaults ("#chan" ∷ "+mo-k+b-o" ∷ given)).users
    ≡ net_change same "alice" b'o' unchanged (events defaults true letters given).0
parse_mode_line-net_change_example =
    parse_mode_line-net_change chars same defaults "#chan" "+mo-k+b-o" given "alice" b'o'

abbrev opped : UserModeChange
opped = record { nick = "alice"; added = b'o' ∷ b'v' ∷ []; removed = [] }

abbrev deopped : UserModeChange
deopped = record { nick = "alice"; added = []; removed = b'o' ∷ [] }

opped-IsUserMap : IsUserMap same (("alice", opped) ∷ [])
unfolding IsUserMap IsDisjoint IsFresh has
opped-IsUserMap = (refl, λ ch h. refl, tt, tt)

deopped-IsNetted : IsNetted deopped
unfolding IsNetted IsDisjoint AreOnce has
deopped-IsNetted = (λ ch h. absurd (cc h), tt, (refl, tt))

merge_user_mode_change-compose_example :
    change_under "alice" b'o' (merge_user_mode_change same deopped (("alice", opped) ∷ []))
    ≡ compose (change_in b'o' deopped) (change_under "alice" b'o' (("alice", opped) ∷ []))
merge_user_mode_change-compose_example =
    merge_user_mode_change-compose same "alice" b'o' deopped (("alice", opped) ∷ []) opped-IsUserMap
      deopped-IsNetted

by_rank : rank_order (b'v' ∷ b'o' ∷ b'y' ∷ []) ≡ b'y' ∷ b'o' ∷ b'v' ∷ []
unfolding rank_order has
by_rank = refl
