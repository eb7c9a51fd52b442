-- ===== src/Store/Typing/Limit.antt =====
-- ircStore.svelte.ts: how often a nick's indicator can show before the nick sends something.
use ircfiber_site.Common.{
  ℕ, ◌+◌, ◌*◌, ◌≤◌, ◌<◌, min, ◌≡◌, inl, inr, false, Option, none, List, [], ◌∷◌, arith, ltb,
  if◌then◌else◌, Bool-cases,
}
use ircfiber_site.Store.Typing.{
  typing_max_episodes, Typist, is_live, or_empty, set_typing, reset_typing_streak, clear_typing,
}

-- What comes in for a nick that sends no message: it types, or its indicator is cleared.
pub data TypingEvent : Type 0 where
  active : ℕ → TypingEvent
  done : TypingEvent

-- How often the indicator shows in a run.
unfoldable pub times_shown : List TypingEvent → Typist → ℕ
times_shown [] t = 0
times_shown (active now ∷ es) t =
    let (t', shown) = set_typing now t in (if shown then 1 else 0) + times_shown es t'
times_shown (done ∷ es) t = times_shown es (clear_typing t)

-- The clock does not go back.
abbrev pub IsAscending : ℕ → List TypingEvent → Type 0
IsAscending last [] = Unit {0}
IsAscending last (active now ∷ es) = (last ≤ now) × IsAscending now es
IsAscending last (done ∷ es) = IsAscending last es

-- A bound on the times the indicator has shown.
unfoldable used : Typist → ℕ
used t =
    let s = or_empty t.streak in
    if ltb typing_max_episodes s.episodes then 120 else 20 * s.episodes + min s.actives 20

-- Past the last episode the indicator does not show any more.
abbrev IsSettled : ℕ → Typist → Type 0
IsSettled last t =
    (typing_max_episodes < (or_empty t.streak).episodes) → (is_live last t.since ≡ false)

later_live :
    (last now : ℕ) (o : Option ℕ) → last ≤ now → is_live last o ≡ false → is_live now o ≡ false
later_live last now o le stale = ground arith

-- One event uses up what it shows.
set_typing-used :
    (last now : ℕ) (t : Typist)
    → last ≤ now
    → IsSettled last t
    → ((if (set_typing now t).1 then 1 else 0) + used t ≤ used (set_typing now t).0)
      × IsSettled now (set_typing now t).0
unfolding set_typing used
set_typing-used last now t le settled = elim (Bool-cases (is_live now t.since)) [
  | inl live ↦ (ground (arith, live), λ over. ground (arith, live, later_live last now t.since))
  | inr stale ↦ (ground (arith, stale), λ over. ground (arith, stale))
]

clear_typing-used :
    (last : ℕ) (t : Typist)
    → IsSettled last t
    → (used (clear_typing t) ≡ used t) × IsSettled last (clear_typing t)
unfolding clear_typing used
clear_typing-used last t settled = (ground arith, λ over. ground arith)

used-le : (t : Typist) → used t ≤ 120
unfolding used
used-le t = ground arith

times_shown-used :
    (es : List TypingEvent) (last : ℕ) (t : Typist)
    → IsAscending last es
    → IsSettled last t
    → times_shown es t + used t ≤ 120
unfolding times_shown
times_shown-used [] last t up settled = omega (arith, used-le t)
times_shown-used (active now ∷ es) last t up settled =
    let (spent, settled') = set_typing-used last now t up.0 settled in
    omega (arith, spent, times_shown-used es now (set_typing now t).0 up.1 settled')
times_shown-used (done ∷ es) last t up settled =
    let (same, settled') = clear_typing-used last t settled in
    omega (arith, same, times_shown-used es last (clear_typing t) up settled')

-- However long a nick types without sending a message, by a clock that does not go back, its
-- indicator is shown at most 120 times.
pub times_shown-le :
    (es : List TypingEvent) (last : ℕ) (t : Typist)
    → IsAscending last es
    → times_shown es (reset_typing_streak t) ≤ 120
unfolding reset_typing_streak
times_shown-le es last t up =
    omega (
      arith,
      times_shown-used es last (record t { streak = none }) up (λ over. absurd (omega arith)),
    )
