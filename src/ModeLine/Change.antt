-- ===== src/ModeLine/Change.antt =====
-- modeSentence.ts: one letter of one user, and a change of it.
use Prim.Native.String.{String}
use text.Mathlib.Text.{◌==◌ as str_eq}
use ircfiber_site.Common.{
  ℕ, ◌≡◌, refl, Bool, true, false, not, ◌&&◌, ◌||◌, List, [], ◌∷◌, ◌++◌, arith, ◌==◌, if◌then◌else◌,
}
use ircfiber_site.ModeLine.{has, Event, user, UserModeChange, insert, delete, change_user}

-- What is said of one letter of one user.
pub data Change : Type 0 where
  unchanged gained lost : Change

-- A letter once more: opposite signs cancel.
unfoldable pub step_change : Bool → Change → Change
step_change true lost = unchanged
step_change true _ = gained
step_change false gained = unchanged
step_change false _ = lost

unfoldable pub change_in : ℕ → UserModeChange → Change
change_in ch u = if has ch u.added then gained else if has ch u.removed then lost else unchanged

-- What the entries under a key say.
unfoldable pub change_under : String → ℕ → List (String × UserModeChange) → Change
change_under key ch [] = unchanged
change_under key ch (e ∷ es) =
    let rest = change_under key ch es in if str_eq e.0 key then change_in ch e.1 else rest

-- What the users of a parsed line say of the nick with this key.
unfoldable pub said_of : (String → String) → String → ℕ → List UserModeChange → Change
said_of lower key ch [] = unchanged
said_of lower key ch (u ∷ us) =
    let rest = said_of lower key ch us in if str_eq (lower u.nick) key then change_in ch u else rest

-- The net effect of the events, from an earlier one.
unfoldable pub net_change : (String → String) → String → ℕ → Change → List Event → Change
net_change lower key ch c [] = c
net_change lower key ch c (user l adding nick ∷ es) =
    net_change lower key ch (if str_eq (lower nick) key && l == ch then step_change adding c else c)
      es
net_change lower key ch c (_ ∷ es) = net_change lower key ch c es

has-append : (ch : ℕ) (ls ms : List ℕ) → has ch (ls ++ ms) ≡ (has ch ls || has ch ms)
unfolding has
has-append ch [] ms = refl
has-append ch (l ∷ ls) ms = ground (arith, has-append ch ls ms)

has-delete : (ch l : ℕ) (ls : List ℕ) → has ch (delete l ls) ≡ (has ch ls && not (l == ch))
unfolding has delete
has-delete ch l [] = refl
has-delete ch l (m ∷ ms) = ground (arith, has-delete ch l ms)

has-insert : (ch l : ℕ) (ls : List ℕ) → has ch (insert l ls) ≡ (has ch ls || l == ch)
unfolding insert has
has-insert ch l ls = ground (arith, has-append ch ls (l ∷ []))

-- No letter is both added and removed.
unfoldable pub IsDisjoint : UserModeChange → Type 0
IsDisjoint u = (ch : ℕ) → has ch u.added ≡ true → has ch u.removed ≡ false

pub change_user-IsDisjoint :
    (l : ℕ) (adding : Bool) (u : UserModeChange)
    → IsDisjoint u
    → IsDisjoint (change_user l adding u)
unfolding change_user IsDisjoint
change_user-IsDisjoint l true u h ch =
    ground (arith, h ch, has-delete ch l u.removed, has-insert ch l u.added)
change_user-IsDisjoint l false u h ch =
    ground (arith, h ch, has-delete ch l u.added, has-insert ch l u.removed)

pub change_in-change_user :
    (ch l : ℕ) (adding : Bool) (u : UserModeChange)
    → IsDisjoint u
    → change_in ch (change_user l adding u)
      ≡ (if l == ch then step_change adding (change_in ch u) else change_in ch u)
unfolding change_user IsDisjoint change_in step_change
change_in-change_user ch l true u h =
    ground (arith, h ch, has-delete ch l u.removed, has-insert ch l u.added)
change_in-change_user ch l false u h =
    ground (arith, h ch, has-delete ch l u.added, has-insert ch l u.removed)
