-- ===== src/Store/Typing/Tests.antt =====
-- A nick that types on, and the theorem at it.
use ircfiber_site.Common.{◌≤◌, ◌≡◌, refl, true, false, some, [], ◌∷◌, arith}
use ircfiber_site.Store.Typing.{Typist, set_typing, reset_typing_streak}
use ircfiber_site.Store.Typing.Limit.{active, done, times_shown, times_shown-le}

abbrev at_the_limit : Typist
at_the_limit = record { since = some 1000; streak = some (record { episodes = 1; actives = 20 }) }

muted : (set_typing 2000 at_the_limit).1 ≡ false
unfolding set_typing
muted = refl

shown_after_pause : (set_typing 7500 (set_typing 2000 at_the_limit).0).1 ≡ true
unfolding set_typing
shown_after_pause = refl

times_shown-le_example :
    times_shown
      (active 2000 ∷ active 3000 ∷ done ∷ active 9000 ∷ [])
      (reset_typing_streak at_the_limit)
    ≤ 120
times_shown-le_example =
    times_shown-le (active 2000 ∷ active 3000 ∷ done ∷ active 9000 ∷ []) 1000 at_the_limit
      (omega arith, (omega arith, (omega arith, tt)))
