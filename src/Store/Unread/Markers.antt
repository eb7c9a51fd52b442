-- ===== src/Store/Unread/Markers.antt =====
-- ircStore.svelte.ts: the read marker and the unseen state under the operations that move it.
use ircfiber_site.Common.{
  ℕ, ◌+◌, ◌≤◌, ◌<◌, ◌≡◌, refl, ◌∙◌, inl, inr, false, Option, none, some, List, [], ◌∷◌, arith, ltb,
  leb, if◌then◌else◌, leb→le, Bool-cases, Option-cases,
}
use ircfiber_site.Store.Unread.{
  Row, Unread, filter_above, count_after, clear_until, or_else, clear_after, is_behind, finish_seen,
  set_last_seen_at_bottom, move_bottom, update_bottom_seen, set_last_seen_message, read_buffer,
}

-- How many important rows are after `t`, wherever they stand.
unfoldable pub important_after : ℕ → List Row → ℕ
important_after t [] = 0
important_after t (m ∷ ms) =
    (if ltb t m.t then (if m.important then 1 else 0) else 0) + important_after t ms

-- Newest first, and none newer than `bound`.
abbrev pub IsDescending : ℕ → List Row → Type 0
IsDescending bound [] = Unit {0}
IsDescending bound (m ∷ ms) = (m.t ≤ bound) × IsDescending m.t ms

important_after-old :
    (t bound : ℕ) (rows : List Row)
    → bound ≤ t
    → IsDescending bound rows
    → important_after t rows ≡ 0
unfolding important_after
important_after-old t bound [] h d = refl
important_after-old t bound (m ∷ ms) h d =
    ground (arith, important_after-old t m.t ms (omega arith) d.1)

count_after_lem :
    (t bound : ℕ) (rows : List Row)
    → IsDescending bound rows
    → count_after t rows ≡ important_after t rows
unfolding count_after important_after
count_after_lem t bound [] d = refl
count_after_lem t bound (m ∷ ms) d = elim (Bool-cases (leb m.t t)) [
  | inl old ↦ ground (arith, old, important_after-old t m.t ms (leb→le m.t t old) d.1)
  | inr new ↦ ground (arith, new, count_after_lem t m.t ms d.1)
]

-- No highlight is at or under a time.
abbrev pub IsAbove : ℕ → List ℕ → Type 0
IsAbove t [] = Unit {0}
IsAbove t (h ∷ hs) = (t < h) × IsAbove t hs

pub filter_above-IsAbove : (t : ℕ) (hs : List ℕ) → IsAbove t (filter_above t hs)
unfolding filter_above
filter_above-IsAbove t [] = tt
filter_above-IsAbove t (h ∷ hs) = ground (arith, filter_above-IsAbove t hs)

pub filter_above-keeps : (s t : ℕ) (hs : List ℕ) → IsAbove t hs → IsAbove t (filter_above s hs)
unfolding filter_above
filter_above-keeps s t [] a = tt
filter_above-keeps s t (h ∷ hs) a = ground (arith, filter_above-keeps s t hs a.1)

-- The rows are the same, and no highlight is at or under `t`.
abbrev pub Keeps : ℕ → Unread → Unread → Type 0
Keeps t u v = (v.source ≡ u.source) × IsAbove t v.unseen_highlights

clear_after-Keeps : (t : ℕ) (u : Unread) → IsAbove t u.unseen_highlights → Keeps t u (clear_after u)
unfolding clear_after
clear_after-Keeps t u a =
    elim (Option-cases (or_else u.bottom_seen (or_else u.focus_seen u.newest))) [
      | inl unset ↦ ground (arith, unset)
      | inr (lowest, set) ↦ ground (arith, set, filter_above-keeps lowest t u.unseen_highlights a)
    ]

pub finish_seen-Keeps :
    (s t : ℕ) (u : Unread) → IsAbove t u.unseen_highlights → Keeps t u (finish_seen s u)
unfolding finish_seen
finish_seen-Keeps s t u a = ground arith

at_bottom-Keeps :
    (s t : ℕ) (u : Unread) → IsAbove t u.unseen_highlights → Keeps t u (set_last_seen_at_bottom s u)
unfolding set_last_seen_at_bottom
at_bottom-Keeps s t u a =
    ground (
      arith,
      finish_seen-Keeps s t (clear_until s u) (filter_above-keeps s t u.unseen_highlights a),
    )

move_bottom-Keeps :
    (current s t : ℕ) (u : Unread)
    → IsAbove t u.unseen_highlights
    → Keeps t u (move_bottom current s u)
unfolding move_bottom
move_bottom-Keeps current s t u a =
    let moved = record u { bottom_seen = some s } in
    ground (arith, at_bottom-Keeps s t moved a, clear_after-Keeps t moved a)

pub update_bottom_seen-Keeps :
    (s t : ℕ) (u : Unread) → IsAbove t u.unseen_highlights → Keeps t u (update_bottom_seen s u).0
unfolding update_bottom_seen
update_bottom_seen-Keeps s t u a = elim (Option-cases u.bottom_seen) [
  | inl unset ↦ ground (arith, unset)
  | inr (current, set) ↦ ground (arith, set, move_bottom-Keeps current s t u a)
]

-- What a buffer that is read up to `t` looks like.
abbrev pub IsReadTo : ℕ → List Row → Unread → Type 0
IsReadTo t rows u =
    (u.last_seen ≡ some t)
    × IsAbove t u.unseen_highlights
    × (u.unseen_count ≡ important_after t rows)
    × (u.unseen ≡ ltb 0 (important_after t rows))

finish_seen-IsReadTo :
    (t bound : ℕ) (rows : List Row) (u : Unread)
    → u.source ≡ some rows
    → IsAbove t u.unseen_highlights
    → IsDescending bound rows
    → IsReadTo t rows (finish_seen t u)
unfolding finish_seen
finish_seen-IsReadTo t bound rows u known above d =
    let counted = count_after_lem t bound rows d in
    (refl, ground (arith, above), ground (arith, known, counted), ground (arith, known, counted))

-- Once a buffer is read up to `t`, which is not behind its marker, the marker is `t`, no highlight
-- at or under `t` is left, and if the rows are known, newest first, the unread count is the number
-- of important rows after `t`.
pub set_last_seen_message-IsReadTo :
    (t bound : ℕ) (rows : List Row) (u : Unread)
    → is_behind t u.last_seen ≡ false
    → u.source ≡ some rows
    → IsDescending bound rows
    → IsReadTo t rows (set_last_seen_message t u)
unfolding set_last_seen_message
set_last_seen_message-IsReadTo t bound rows u ahead known d =
    let cleared = clear_until t u in
    let (same, above) =
      update_bottom_seen-Keeps t t cleared (filter_above-IsAbove t u.unseen_highlights) in
    simp ahead
      (finish_seen-IsReadTo t bound rows (update_bottom_seen t cleared).0 (same ∙ known) above d)

-- The marker did not move back.
abbrev pub IsAhead : Option ℕ → Option ℕ → Type 0
IsAhead none later = Unit {0}
IsAhead (some t) none = ⊥
IsAhead (some t) (some later) = t ≤ later

move_bottom-IsAhead :
    (current t : ℕ) (u : Unread) → IsAhead u.last_seen (move_bottom current t u).last_seen
unfolding move_bottom set_last_seen_at_bottom finish_seen clear_after
move_bottom-IsAhead current t u =
    elim (Option-cases (or_else (some t) (or_else u.focus_seen u.newest))) [
      | inl unset ↦ ground (arith, unset)
      | inr (lowest, set) ↦ ground (arith, set)
    ]

IsAhead-refl : (o : Option ℕ) → IsAhead o o
IsAhead-refl none = tt
IsAhead-refl (some t) = omega arith

update_bottom_seen-IsAhead :
    (t : ℕ) (u : Unread) → IsAhead u.last_seen (update_bottom_seen t u).0.last_seen
unfolding update_bottom_seen
update_bottom_seen-IsAhead t u = elim (Option-cases u.bottom_seen) [
  | inl unset ↦ ground (arith, unset, IsAhead-refl u.last_seen)
  | inr (current, set) ↦
      ground (arith, set, IsAhead-refl u.last_seen, move_bottom-IsAhead current t u)
]

set_last_seen_message-IsAhead :
    (t : ℕ) (u : Unread) → IsAhead u.last_seen (set_last_seen_message t u).last_seen
unfolding set_last_seen_message finish_seen
set_last_seen_message-IsAhead t u = elim (Option-cases u.last_seen) [
  | inl unset ↦ ground (arith, unset)
  | inr (before, set) ↦ ground (arith, set)
]

read_buffer-IsAhead : (u : Unread) → IsAhead u.last_seen (read_buffer u).last_seen
unfolding read_buffer
read_buffer-IsAhead u =
    elim (Option-cases (or_else u.focus_seen (or_else u.bottom_seen u.newest))) [
      | inl unset ↦ ground (arith, unset, IsAhead-refl u.last_seen)
      | inr (t, set) ↦ ground (arith, set, set_last_seen_message-IsAhead t u)
    ]

-- The read marker never moves back, whether a message is marked as seen, the bottom of the view
-- moves, or the buffer is read.
pub last_seen-IsAhead :
    (t : ℕ) (u : Unread)
    → IsAhead u.last_seen (set_last_seen_message t u).last_seen
      × IsAhead u.last_seen (update_bottom_seen t u).0.last_seen
      × IsAhead u.last_seen (read_buffer u).last_seen
last_seen-IsAhead t u =
    (set_last_seen_message-IsAhead t u, update_bottom_seen-IsAhead t u, read_buffer-IsAhead u)
