-- ===== src/ModeLine/Merge.antt =====
-- modeSentence.ts: `mergeUserModeChange` beside the change of one letter.
use mathlib.Core.Path.{subst}
use text.Mathlib.TextEquality.{eq_iff}
use text.Mathlib.Text.{◌==◌ as str_eq}
use Prim.Native.String.{String}
use ircfiber_site.Common.{
  ℕ, ◌≡◌, refl, Bool, true, false, List, [], ◌∷◌, arith, ◌==◌, if◌then◌else◌, ==_iff, filter,
}
use ircfiber_site.ModeLine.{has, prefix_mode_rank, UserModeChange, change_user}
use ircfiber_site.ModeLine.Users.{IsUserMap}
use ircfiber_site.ModeLine.Change.{
  Change, unchanged, gained, lost, step_change, change_in, change_under, IsDisjoint,
  change_user-IsDisjoint, change_in-change_user,
}

-- One of the two loops.
unfoldable pub merge_letters : Bool → List ℕ → UserModeChange → UserModeChange
merge_letters adding [] cur = cur
merge_letters adding (l ∷ ls) cur = merge_letters adding ls (change_user l adding cur)

unfoldable pub merge_change : UserModeChange → UserModeChange → UserModeChange
merge_change c cur = merge_letters false c.removed (merge_letters true c.added cur)

-- The entry under the change's key is changed in place, or the change is copied to the end.
unfoldable pub merge_entry :
    String → UserModeChange → List (String × UserModeChange) → List (String × UserModeChange)
merge_entry key c [] = (key, c) ∷ []
merge_entry key c (e ∷ es) =
    let rest = merge_entry key c es in
    if str_eq e.0 key then (e.0, merge_change c e.1) ∷ es else e ∷ rest

unfoldable pub merge_user_mode_change :
    (String → String)
    → UserModeChange
    → List (String × UserModeChange)
    → List (String × UserModeChange)
merge_user_mode_change lower c into = merge_entry (lower c.nick) c into

unfoldable pub rank_order : List ℕ → List ℕ
rank_order letters = filter (λ l. has l letters) prefix_mode_rank

-- No letter stands twice.
unfoldable pub AreOnce : List ℕ → Type 0
AreOnce [] = Unit
AreOnce (l ∷ ls) = (has l ls ≡ false) × AreOnce ls

-- A change as `parseModeLine` makes them.
unfoldable pub IsNetted : UserModeChange → Type 0
IsNetted c = IsDisjoint c × AreOnce c.added × AreOnce c.removed

-- The later change on the earlier one.
unfoldable pub compose : Change → Change → Change
compose gained earlier = step_change true earlier
compose lost earlier = step_change false earlier
compose unchanged earlier = earlier

merge_letters-IsDisjoint :
    (adding : Bool) (ls : List ℕ) (cur : UserModeChange)
    → IsDisjoint cur
    → IsDisjoint (merge_letters adding ls cur)
unfolding merge_letters
merge_letters-IsDisjoint adding [] cur h = h
merge_letters-IsDisjoint adding (l ∷ ls) cur h =
    merge_letters-IsDisjoint adding ls (change_user l adding cur)
      (change_user-IsDisjoint l adding cur h)

has-eq : (l ch : ℕ) (ls : List ℕ) → has l ls ≡ false → (l == ch) ≡ true → has ch ls ≡ false
has-eq l ch ls h e = subst (λ x. has x ls ≡ false) ((==_iff l ch).0 e) h

merge_letters-change_in :
    (ch : ℕ) (adding : Bool) (ls : List ℕ) (cur : UserModeChange)
    → IsDisjoint cur
    → AreOnce ls
    → change_in ch (merge_letters adding ls cur)
      ≡ (if has ch ls then step_change adding (change_in ch cur) else change_in ch cur)
unfolding merge_letters AreOnce has
merge_letters-change_in ch adding [] cur h o = refl
merge_letters-change_in ch adding (l ∷ ls) cur h o = ground (
  arith,
  merge_letters-change_in ch adding ls (change_user l adding cur)
      (change_user-IsDisjoint l adding cur h) o.1,
  change_in-change_user ch l adding cur h,
  has-eq l ch ls o.0,
)

compose-change_in :
    (ch : ℕ) (c : UserModeChange) (x : Change)
    → compose (change_in ch c) x ≡ (
        if has ch c.added
        then step_change true x
        else if has ch c.removed
        then step_change false x
        else x)
unfolding compose change_in
compose-change_in ch c x = ground arith

compose-unchanged : (x : Change) → compose x unchanged ≡ x
unfolding compose step_change
compose-unchanged unchanged = refl
compose-unchanged gained = refl
compose-unchanged lost = refl

merge_change-compose :
    (ch : ℕ) (c cur : UserModeChange)
    → IsDisjoint cur
    → IsNetted c
    → change_in ch (merge_change c cur) ≡ compose (change_in ch c) (change_in ch cur)
unfolding merge_change IsNetted IsDisjoint
merge_change-compose ch c cur h n =
    let mid = merge_letters true c.added cur in
    ground (
      arith,
      merge_letters-change_in ch false c.removed mid (merge_letters-IsDisjoint true c.added cur h)
          n.2,
      merge_letters-change_in ch true c.added cur h n.1,
      compose-change_in ch c (change_in ch cur),
      n.0 ch,
    )

-- Merging a change of one event into those of earlier events composes them: of the change's nick
-- each letter is what the later makes of the earlier, opposite signs cancelling, and of every
-- other nick nothing changes.
pub merge_user_mode_change-compose :
    (lower : String → String) (key : String) (ch : ℕ) (c : UserModeChange)
    (into : List (String × UserModeChange))
    → IsUserMap lower into
    → IsNetted c
    → change_under key ch (merge_user_mode_change lower c into) ≡ (
        if str_eq (lower c.nick) key
        then compose (change_in ch c) (change_under key ch into)
        else change_under key ch into)
unfolding merge_user_mode_change merge_entry change_under IsUserMap
merge_user_mode_change-compose lower key ch c [] h n =
    ground (arith, compose-unchanged (change_in ch c))
merge_user_mode_change-compose lower key ch c (e ∷ es) h n = ground (
  arith,
  merge_user_mode_change-compose lower key ch c es h.3 n,
  merge_change-compose ch c e.1,
  eq_iff e.0 (lower c.nick),
  eq_iff e.0 key,
  eq_iff (lower c.nick) key,
)
