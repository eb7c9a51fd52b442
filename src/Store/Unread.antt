-- ===== src/Store/Unread.antt =====
-- ircStore.svelte.ts: the read markers and the unseen state of one buffer that is there. The maps that mirror
-- this state for the views and the storage, and the notifications, are left out.
pub mod Markers
pub mod Arrive
mod Tests
use ircfiber_site.Common.{
  ℕ, ◌+◌, Bool, true, false, Option, none, some, List, [], ◌∷◌, ltb, leb, ◌==◌, if◌then◌else◌,
}

-- What the recounts read of a row: its time, and whether it is important and not ignored.
pub record Row : Type 0 where
  pub t : ℕ
  pub important : Bool

-- `source` is `unreadSource`, `newest` the time of the last loaded message; rows are listed newest
-- first. `dirty` is what `markSeenEidDirty` notes for the gateway.
pub record Unread : Type 0 where
  pub last_seen : Option ℕ
  pub bottom_seen : Option ℕ
  pub focus_seen : Option ℕ
  pub unseen : Bool
  pub unseen_count : ℕ
  pub unseen_highlights : List ℕ
  pub source : Option (List Row)
  pub newest : Option ℕ
  pub dirty : Option ℕ
  pub is_focused : Bool

-- `highlights.filter(h => h > t)`
unfoldable pub filter_above : ℕ → List ℕ → List ℕ
filter_above t [] = []
filter_above t (h ∷ hs) = let rest = filter_above t hs in if ltb t h then h ∷ rest else rest

-- The loop of `countImportantMessagesAfter`, which stops at the first row that is not after `t`.
unfoldable pub count_after : ℕ → List Row → ℕ
count_after t [] = 0
count_after t (m ∷ ms) =
    let rest = count_after t ms in if leb m.t t then 0 else (if m.important then 1 else 0) + rest

-- `setUnseen` with a count
abbrev pub set_unseen : ℕ → Unread → Unread
set_unseen count u = record u { unseen = ltb 0 count; unseen_count = count }

-- `clearUnseenHighlightsUntil`
abbrev pub clear_until : ℕ → Unread → Unread
clear_until t u = record u { unseen_highlights = filter_above t u.unseen_highlights }

abbrev pub or_else : Option ℕ → Option ℕ → Option ℕ
or_else none o = o
or_else (some t) o = some t

-- `clearUnseenHighlightsAfter`: what is at or under the lowest marker goes.
unfoldable pub clear_after : Unread → Unread
clear_after u = elim (or_else u.bottom_seen (or_else u.focus_seen u.newest)) [
  | none ↦ u
  | some lowest ↦ clear_until lowest u
]

-- `before !== null && t < before`
abbrev pub is_behind : ℕ → Option ℕ → Bool
is_behind t none = false
is_behind t (some before) = ltb t before

abbrev pub recount : ℕ → Unread → Unread
recount t u = elim u.source [ none ↦ u | some rows ↦ set_unseen (count_after t rows) u ]

-- The end of `setLastSeenMessage`.
unfoldable pub finish_seen : ℕ → Unread → Unread
finish_seen t u = let counted = recount t u in record counted { last_seen = some t; dirty = some t }

-- `setLastSeenMessage` as `updateBottomSeen` calls it: the bottom marker is at `t` already, so it
-- is not moved again.
unfoldable pub set_last_seen_at_bottom : ℕ → Unread → Unread
set_last_seen_at_bottom t u = if is_behind t u.last_seen then u else finish_seen t (clear_until t u)

abbrev pub is_at : Option ℕ → ℕ → Bool
is_at none t = false
is_at (some s) t = s == t

unfoldable pub move_bottom : ℕ → ℕ → Unread → Unread
move_bottom current t u =
    let moved = record u { bottom_seen = some t } in
    if is_at u.last_seen current then set_last_seen_at_bottom t moved else clear_after moved

-- `updateBottomSeen`: the state, and whether the marker moved
unfoldable pub update_bottom_seen : ℕ → Unread → Unread × Bool
update_bottom_seen t u =
    if u.is_focused
    then elim u.bottom_seen [
      | none ↦ (u, false)
      | some current ↦ if leb t current then (u, false) else (move_bottom current t u, true)
    ]
    else (u, false)

-- `setLastSeenMessage`
unfoldable pub set_last_seen_message : ℕ → Unread → Unread
set_last_seen_message t u =
    if is_behind t u.last_seen then u else finish_seen t (update_bottom_seen t (clear_until t u)).0

-- `readBuffer`
unfoldable pub read_buffer : Unread → Unread
read_buffer u = elim (or_else u.focus_seen (or_else u.bottom_seen u.newest)) [
  | none ↦ u
  | some t ↦ set_last_seen_message t u
]

-- `resetLastSeen`
unfoldable pub reset_last_seen : Unread → Unread
reset_last_seen u = elim u.last_seen [
  | none ↦ u
  | some t ↦
      set_unseen (elim u.source [ none ↦ 0 | some rows ↦ count_after t rows ]) (clear_until t u)
]
