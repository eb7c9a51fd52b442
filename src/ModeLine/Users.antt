-- ===== src/ModeLine/Users.antt =====
-- modeSentence.ts: the users of a parsed line beside the events of its letters.
use mathlib.Core.Path.{subst}
use Prim.Native.String.{String}
use text.Mathlib.TextEquality.{eq_iff}
use text.Mathlib.Text.{◌==◌ as str_eq}
use ircfiber_site.Common.{
  ℕ, ◌≡◌, refl, ap, ◌∙◌, inl, inr, Bool, true, false, ◌&&◌, List, [], ◌∷◌, arith, ◌==◌,
  if◌then◌else◌, Bool-cases,
}
use ircfiber_site.ModeLine.Events.{events, apply_events, read_modes-apply_events}
use ircfiber_site.ModeLine.{
  has, ChanModes, Event, user, list, flag, UserModeChange, Line, empty_line, change_user,
  change_entry, push_flag, apply_event, is_changed, users_of, parse_mode_line,
}
use ircfiber_site.ModeLine.Change.{
  step_change, change_in, change_under, said_of, net_change, IsDisjoint, change_user-IsDisjoint,
  change_in-change_user, unchanged,
}

abbrev no_change : String → UserModeChange
no_change nick = record { nick = nick; added = []; removed = [] }

no_change-IsDisjoint : (nick : String) → IsDisjoint (no_change nick)
unfolding IsDisjoint has
no_change-IsDisjoint nick ch h = refl

change_in-fresh :
    (ch l : ℕ) (adding : Bool) (nick : String)
    → change_in ch (change_user l adding (no_change nick))
      ≡ (if l == ch then step_change adding unchanged else unchanged)
unfolding change_in has
change_in-fresh ch l adding nick =
    change_in-change_user ch l adding (no_change nick) (no_change-IsDisjoint nick)

-- No entry has the key.
unfoldable pub IsFresh : String → List (String × UserModeChange) → Type 0
IsFresh key [] = Unit
IsFresh key (e ∷ es) = (str_eq e.0 key ≡ false) × IsFresh key es

-- Each entry stands under its nick's key, with no letter both ways, and keys are distinct.
unfoldable pub IsUserMap : (String → String) → List (String × UserModeChange) → Type 0
IsUserMap lower [] = Unit
IsUserMap lower (e ∷ es) =
    (lower e.1.nick ≡ e.0) × IsDisjoint e.1 × IsFresh e.0 es × IsUserMap lower es

change_entry-IsFresh :
    (other key nick : String) (f : UserModeChange → UserModeChange)
    (es : List (String × UserModeChange))
    → str_eq key other ≡ false
    → IsFresh other es
    → IsFresh other (change_entry key nick f es)
unfolding change_entry IsFresh
change_entry-IsFresh other key nick f [] h g = (h, tt)
change_entry-IsFresh other key nick f (e ∷ es) h g =
    ground (arith, change_entry-IsFresh other key nick f es)

change_user-nick :
    (l : ℕ) (adding : Bool) (u : UserModeChange) → (change_user l adding u).nick ≡ u.nick
unfolding change_user
change_user-nick l true u = ground arith
change_user-nick l false u = ground arith

str_eq-false : (a b : String) → str_eq a b ≡ false → str_eq b a ≡ false
str_eq-false a b h = ground (arith, eq_iff a b, eq_iff b a, eq_iff a a)

change_entry-IsUserMap :
    (lower : String → String) (l : ℕ) (adding : Bool) (nick : String)
    (es : List (String × UserModeChange))
    → IsUserMap lower es
    → IsUserMap lower (change_entry (lower nick) nick (change_user l adding) es)
unfolding change_entry IsUserMap IsFresh
change_entry-IsUserMap lower l adding nick [] h = (
  ap lower (change_user-nick l adding (no_change nick)),
  change_user-IsDisjoint l adding (no_change nick) (no_change-IsDisjoint nick),
  tt,
  tt,
)
change_entry-IsUserMap lower l adding nick (e ∷ es) h =
    elim (Bool-cases (str_eq e.0 (lower nick))) [
      | inl same ↦ rw same (
        ap lower (change_user-nick l adding e.1) ∙ h.0,
        change_user-IsDisjoint l adding e.1 h.1,
        h.2,
        h.3,
      )
      | inr other ↦ rw other (
        h.0,
        h.1,
        change_entry-IsFresh e.0 (lower nick) nick (change_user l adding) es
            (str_eq-false e.0 (lower nick) other) h.2,
        change_entry-IsUserMap lower l adding nick es h.3,
      )
    ]

pub change_under-IsFresh :
    (key : String) (ch : ℕ) (es : List (String × UserModeChange))
    → IsFresh key es
    → change_under key ch es ≡ unchanged
unfolding change_under IsFresh
change_under-IsFresh key ch [] h = refl
change_under-IsFresh key ch (e ∷ es) h = ground (arith, change_under-IsFresh key ch es)

change_under-change_entry :
    (lower : String → String) (key : String) (ch l : ℕ) (adding : Bool) (nick : String)
    (es : List (String × UserModeChange))
    → IsUserMap lower es
    → change_under key ch (change_entry (lower nick) nick (change_user l adding) es) ≡ (
        if str_eq (lower nick) key && l == ch
        then step_change adding (change_under key ch es)
        else change_under key ch es)
unfolding change_entry change_under IsUserMap
change_under-change_entry lower key ch l adding nick [] h =
    ground (arith, change_in-fresh ch l adding nick)
change_under-change_entry lower key ch l adding nick (e ∷ es) h = ground (
  arith,
  change_under-change_entry lower key ch l adding nick es,
  change_in-change_user ch l adding e.1,
  eq_iff e.0 (lower nick),
  eq_iff e.0 key,
  eq_iff (lower nick) key,
)

apply_events-IsUserMap :
    (lower : String → String) (es : List Event) (line : Line)
    → IsUserMap lower line.user_map
    → IsUserMap lower (apply_events lower es line).user_map
unfolding apply_events apply_event push_flag
apply_events-IsUserMap lower [] line h = h
apply_events-IsUserMap lower (user l adding nick ∷ es) line h =
    apply_events-IsUserMap lower es (apply_event lower (user l adding nick) line)
      (change_entry-IsUserMap lower l adding nick line.user_map h)
apply_events-IsUserMap lower (list l adding mask ∷ es) line h =
    apply_events-IsUserMap lower es (apply_event lower (list l adding mask) line) h
apply_events-IsUserMap lower (flag l adding arg ∷ es) line h =
    apply_events-IsUserMap lower es (push_flag l adding arg line) h

apply_events-net_change :
    (lower : String → String) (key : String) (ch : ℕ) (es : List Event) (line : Line)
    → IsUserMap lower line.user_map
    → change_under key ch (apply_events lower es line).user_map
      ≡ net_change lower key ch (change_under key ch line.user_map) es
unfolding apply_events apply_event net_change push_flag
apply_events-net_change lower key ch [] line h = refl
apply_events-net_change lower key ch (user l adding nick ∷ es) line h =
    apply_events-net_change lower key ch es (apply_event lower (user l adding nick) line)
      (change_entry-IsUserMap lower l adding nick line.user_map h)
    ∙ ap (λ c. net_change lower key ch c es)
        (change_under-change_entry lower key ch l adding nick line.user_map h)
apply_events-net_change lower key ch (list l adding mask ∷ es) line h =
    apply_events-net_change lower key ch es (apply_event lower (list l adding mask) line) h
apply_events-net_change lower key ch (flag l adding arg ∷ es) line h =
    apply_events-net_change lower key ch es (push_flag l adding arg line) h

change_in-is_changed :
    (ch : ℕ) (u : UserModeChange) → is_changed u ≡ false → change_in ch u ≡ unchanged
unfolding change_in is_changed has
change_in-is_changed ch u h = ground arith

IsFresh-eq :
    (a b : String) (es : List (String × UserModeChange))
    → str_eq a b ≡ true
    → IsFresh a es
    → IsFresh b es
IsFresh-eq a b es h f = subst (λ k. IsFresh k es) ((eq_iff a b).0 h) f

-- Leaving out the users of whom nothing is left changes nothing that is said.
said_of-users_of :
    (lower : String → String) (key : String) (ch : ℕ) (es : List (String × UserModeChange))
    → IsUserMap lower es
    → said_of lower key ch (users_of es) ≡ change_under key ch es
unfolding said_of users_of change_under IsUserMap
said_of-users_of lower key ch [] h = refl
said_of-users_of lower key ch (e ∷ es) h =
    let rest = said_of-users_of lower key ch es h.3 in
    ground (
      arith,
      rest,
      h.0,
      change_in-is_changed ch e.1,
      IsFresh-eq e.0 key es,
      change_under-IsFresh key ch es,
    )

-- What a parsed line says of a user's letter is its net effect: each `+` of it that a `-` precedes
-- cancels that one, and the other way round; nicks with the same lower case are one user.
pub parse_mode_line-net_change :
    (chars : String → List ℕ) (lower : String → String) (modes : ChanModes)
    (target mode_str : String) (args : List String) (key : String) (ch : ℕ)
    → said_of lower key ch (parse_mode_line chars lower modes (target ∷ mode_str ∷ args)).users
      ≡ net_change lower key ch unchanged (events modes true (chars mode_str) args).0
unfolding parse_mode_line IsUserMap change_under
parse_mode_line-net_change chars lower modes target mode_str args key ch =
    let es = (events modes true (chars mode_str) args).0 in
    ap (λ l. said_of lower key ch (users_of l.user_map))
      (read_modes-apply_events lower modes true (chars mode_str) args empty_line)
    ∙ said_of-users_of lower key ch (apply_events lower es empty_line).user_map
        (apply_events-IsUserMap lower es empty_line tt)
    ∙ apply_events-net_change lower key ch es empty_line tt
