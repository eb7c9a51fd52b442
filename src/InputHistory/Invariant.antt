-- ===== src/InputHistory/Invariant.antt =====
-- inputHistory.ts: the history as a list of bounded, distinct neighbours, over its operations.
use Prim.Native.String.{String}
use text.Mathlib.TextEquality.{eq_iff}
use ircfiber_site.Common.{
  ℕ, ◌+◌, ◌-◌, ◌≤◌, ◌≡◌, ◌≢◌, Bool, false, Option, none, some, List, [], ◌∷◌, ◌++◌, arith, length,
  drop, length-append, length-drop,
}
use ircfiber_site.InputHistory.{
  History, max_size, last_is, shift_over, save, reset_index, push, get_from_end, step_back,
  remember_input, get_earlier, step_forth, get_later,
}

-- No entry is followed by the same text.
abbrev pub IsRepeatFree : List String → Type 0
IsRepeatFree [] = Unit {0}
IsRepeatFree (e ∷ []) = Unit {0}
IsRepeatFree (e ∷ f ∷ es) = (e ≢ f) × IsRepeatFree (f ∷ es)

pub record IsHistory (h : History) : Type 0 where
  pub bounded : length h.history ≤ max_size
  pub repeat_free : IsRepeatFree h.history
  pub within : h.back ≤ length h.history

snoc-IsRepeatFree :
    (text : String) (es : List String)
    → last_is text es ≡ false
    → IsRepeatFree es
    → IsRepeatFree (es ++ text ∷ [])
unfolding last_is
snoc-IsRepeatFree text [] l r = tt
snoc-IsRepeatFree text (e ∷ []) l r = ground (arith, eq_iff e text)
snoc-IsRepeatFree text (e ∷ f ∷ es) l r = (r.0, snoc-IsRepeatFree text (f ∷ es) l r.1)

drop-IsRepeatFree : (es : List String) → IsRepeatFree es → IsRepeatFree (drop 1 es)
drop-IsRepeatFree [] r = tt
drop-IsRepeatFree (e ∷ []) r = tt
drop-IsRepeatFree (e ∷ f ∷ es) r = r.1

shift_over-bounded : (es : List String) → length es ≤ 101 → length (shift_over es) ≤ 100
unfolding shift_over
shift_over-bounded es h = ground (arith, length-drop 1 es)

shift_over-IsRepeatFree : (es : List String) → IsRepeatFree es → IsRepeatFree (shift_over es)
unfolding shift_over
shift_over-IsRepeatFree es r = ground (arith, drop-IsRepeatFree es r)

-- `push` keeps the history within 100 entries and free of immediate repeats, with or without
-- storage, and leaves the navigation at a valid place.
pub push-IsHistory :
    (can_store : Bool) (text : String) (h : History)
    → IsHistory h
    → IsHistory (push can_store text h)
unfolding push save reset_index
push-IsHistory can_store text h v = ground (
  arith,
  length-append h.history (text ∷ []),
  shift_over-bounded (h.history ++ text ∷ []),
  shift_over-IsRepeatFree (h.history ++ text ∷ []),
  snoc-IsRepeatFree text h.history,
)

pub get_from_end-le :
    (k : ℕ) (es : List String) (e : String) → get_from_end k es ≡ some e → (1 ≤ k) × (k ≤ length es)
unfolding get_from_end
get_from_end-le k es e h = ground arith

step_back-IsHistory :
    (h : History) (o : Option String)
    → get_from_end (h.back + 1) h.history ≡ o
    → IsHistory h
    → IsHistory (step_back h o).0
unfolding step_back
step_back-IsHistory h none e v = v
step_back-IsHistory h (some entry) e v =
    let valid = get_from_end-le (h.back + 1) h.history entry e in
    record { bounded = v.bounded; repeat_free = v.repeat_free; within = valid.1 }

step_forth-IsHistory :
    (h : History) (o : Option String) → IsHistory h → IsHistory (step_forth h o).0
unfolding step_forth reset_index
step_forth-IsHistory h none v = ground arith
step_forth-IsHistory h (some entry) v = ground arith

pub remembered :
    (input : String) (h : History)
    → (IsHistory h → IsHistory (remember_input input h))
      × ((remember_input input h).back ≡ h.back)
      × ((remember_input input h).history ≡ h.history)
unfolding remember_input
remembered input h = ground arith

-- Navigation in both directions keeps the invariant too, whatever is typed.
pub navigation-IsHistory :
    (input : String) (h : History)
    → IsHistory h
    → IsHistory (get_earlier input h).0 × IsHistory (get_later h).0
unfolding get_earlier get_later
navigation-IsHistory input h v =
    let (kept, same_back, same_history) = remembered input h in
    ground (
      arith,
      kept v,
      step_back-IsHistory (remember_input input h) (get_from_end (h.back + 1) h.history),
      step_forth-IsHistory h (get_from_end (h.back - 1) h.history) v,
    )
