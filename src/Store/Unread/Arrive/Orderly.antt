-- ===== src/Store/Unread/Arrive/Orderly.antt =====
-- ircStore.svelte.ts: the unseen state of a buffer, and the read markers' effect on it.
use ircfiber_site.Common.{
  ℕ, ◌≡◌, refl, inl, inr, Option, none, some, List, [], ◌∷◌, arith, ltb, Bool-cases, Option-cases,
}
use ircfiber_site.Store.Unread.{
  Unread, filter_above, clear_until, or_else, clear_after, is_behind, finish_seen,
  set_last_seen_at_bottom, move_bottom, update_bottom_seen, set_last_seen_message,
}
use ircfiber_site.Store.Unread.Markers.{
  IsAbove, filter_above-IsAbove, filter_above-keeps, finish_seen-Keeps, update_bottom_seen-Keeps,
}
use ircfiber_site.Store.Unread.Arrive.Sorted.{IsAscending}

-- Later than the read marker, if there is one.
unfoldable pub AreUnseen : Option ℕ → List ℕ → Type 0
AreUnseen none hs = Unit
AreUnseen (some s) hs = IsAbove s hs

-- The flag says whether something is counted, and the highlights ascend.
pub record IsOrderly (u : Unread) : Type 0 where
  pub flag : u.unseen ≡ ltb 0 u.unseen_count
  pub ascending : IsAscending u.unseen_highlights

-- Besides, every highlight is later than the read marker.
pub record IsSettled (u : Unread) : Type 0 where
  pub orderly : IsOrderly u
  pub unread : AreUnseen u.last_seen u.unseen_highlights

filter_above-IsAscending : (t : ℕ) (hs : List ℕ) → IsAscending hs → IsAscending (filter_above t hs)
unfolding filter_above IsAscending
filter_above-IsAscending t [] a = tt
filter_above-IsAscending t (h ∷ hs) a =
    ground (arith, filter_above-IsAscending t hs, filter_above-keeps t h hs)

clear_until-IsOrderly : (t : ℕ) (u : Unread) → IsOrderly u → IsOrderly (clear_until t u)
clear_until-IsOrderly t u o = record {
  flag = o.flag;
  ascending = filter_above-IsAscending t u.unseen_highlights o.ascending;
}

clear_after-IsOrderly : (u : Unread) → IsOrderly u → IsOrderly (clear_after u)
unfolding clear_after
clear_after-IsOrderly u o =
    elim (Option-cases (or_else u.bottom_seen (or_else u.focus_seen u.newest))) [
      | inl e ↦ rw (clear_after, e) o
      | inr (lowest, e) ↦ rw (clear_after, e) (clear_until-IsOrderly lowest u o)
    ]

finish_seen-IsOrderly : (t : ℕ) (u : Unread) → IsOrderly u → IsOrderly (finish_seen t u)
unfolding finish_seen
finish_seen-IsOrderly t u o = elim (Option-cases u.source) [
  | inl e ↦ rw (finish_seen, e) (record { flag = o.flag; ascending = o.ascending })
  | inr (rows, e) ↦ rw (finish_seen, e) (record { flag = refl; ascending = o.ascending })
]

at_bottom-IsOrderly : (t : ℕ) (u : Unread) → IsOrderly u → IsOrderly (set_last_seen_at_bottom t u)
unfolding set_last_seen_at_bottom
at_bottom-IsOrderly t u o =
    ground (arith, finish_seen-IsOrderly t (clear_until t u) (clear_until-IsOrderly t u o))

move_bottom-IsOrderly :
    (current t : ℕ) (u : Unread) → IsOrderly u → IsOrderly (move_bottom current t u)
unfolding move_bottom
move_bottom-IsOrderly current t u o =
    let moved : Unread = record u { bottom_seen = some t } in
    let same : IsOrderly moved = record { flag = o.flag; ascending = o.ascending } in
    ground (arith, at_bottom-IsOrderly t moved same, clear_after-IsOrderly moved same)

update_bottom_seen-IsOrderly :
    (t : ℕ) (u : Unread) → IsOrderly u → IsOrderly (update_bottom_seen t u).0
unfolding update_bottom_seen
update_bottom_seen-IsOrderly t u o = elim (Option-cases u.bottom_seen) [
  | inl e ↦ ground (arith, e)
  | inr (current, e) ↦ ground (arith, e, move_bottom-IsOrderly current t u o)
]

finish_seen-AreUnseen :
    (t : ℕ) (u : Unread)
    → IsAbove t u.unseen_highlights
    → AreUnseen (finish_seen t u).last_seen (finish_seen t u).unseen_highlights
unfolding finish_seen AreUnseen
finish_seen-AreUnseen t u a = (finish_seen-Keeps t t u a).1

pub set_last_seen_message-IsSettled :
    (t : ℕ) (u : Unread) → IsSettled u → IsSettled (set_last_seen_message t u)
unfolding set_last_seen_message
set_last_seen_message-IsSettled t u s =
    let cleared = clear_until t u in
    let o = update_bottom_seen-IsOrderly t cleared (clear_until-IsOrderly t u s.orderly) in
    let (same, above) =
      update_bottom_seen-Keeps t t cleared (filter_above-IsAbove t u.unseen_highlights) in
    let moved = (update_bottom_seen t cleared).0 in
    elim (Bool-cases (is_behind t u.last_seen)) [
      | inl e ↦ rw (set_last_seen_message, e) s
      | inr e ↦
          rw (set_last_seen_message, e)
            (record {
              orderly = finish_seen-IsOrderly t moved o;
              unread = finish_seen-AreUnseen t moved above;
            })
    ]
