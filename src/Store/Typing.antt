-- ===== src/Store/Typing.antt =====
-- ircStore.svelte.ts: the typing indicator of one nick in one buffer, the entries of `typing` and
-- `typingStreaks` under its keys. `typingVersion`, which only tells the views, is left out.
pub mod Limit
mod Tests
use ircfiber_site.Common.{
  ℕ, ◌+◌, Bool, true, false, not, ◌&&◌, ◌||◌, Option, none, some, ltb, ◌==◌, if◌then◌else◌,
}

abbrev pub typing_max_episodes : ℕ
typing_max_episodes = 5

abbrev pub typing_max_streak_actives : ℕ
typing_max_streak_actives = 20

pub record Streak : Type 0 where
  pub episodes : ℕ
  pub actives : ℕ

-- `typing[key][nick]` and `typingStreaks[skey]`
pub record Typist : Type 0 where
  pub since : Option ℕ
  pub streak : Option Streak

-- `typeof prev === 'number' && prev !== 0 && Date.now() - prev < 6500`
abbrev pub is_live : ℕ → Option ℕ → Bool
is_live now none = false
is_live now (some prev) = not (prev == 0) && ltb now (prev + 6500)

abbrev pub or_empty : Option Streak → Streak
or_empty none = record { episodes = 0; actives = 0 }
or_empty (some streak) = streak

-- `setTyping`: the entries, and whether the indicator shows.
unfoldable pub set_typing : ℕ → Typist → Typist × Bool
set_typing now t =
    let old = or_empty t.streak in
    if is_live now t.since
    then (if ltb typing_max_streak_actives (old.actives + 1)
        then (record t { streak = some (record old { actives = old.actives + 1 }) }, false)
        else (
          record { since = some now; streak = some (record old { actives = old.actives + 1 }) },
          true,
        ))
    else (if ltb typing_max_episodes (old.episodes + 1)
        then (
          record t { streak = some (record { episodes = old.episodes + 1; actives = 1 }) },
          false,
        )
        else (
          record {
            since = some now;
            streak = some (record { episodes = old.episodes + 1; actives = 1 });
          },
          true,
        ))

-- `isTypingMuted`
unfoldable pub is_typing_muted : Typist → Bool
is_typing_muted t = elim t.streak [
  | none ↦ false
  | some s ↦ ltb typing_max_episodes s.episodes || ltb typing_max_streak_actives s.actives
]

-- `resetTypingStreak`
unfoldable pub reset_typing_streak : Typist → Typist
reset_typing_streak t = record t { streak = none }

-- `clearTyping` and `clearTypingForNick`: a tombstone in place of the time, where there is one.
unfoldable pub clear_typing : Typist → Typist
clear_typing t = elim t.since [ none ↦ t | some prev ↦ record t { since = some 0 } ]
