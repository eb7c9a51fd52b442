-- ===== src/InputHistory/Tests.antt =====
-- The input history on concrete texts, and its theorems at concrete inputs.
use Prim.Native.String.{String}
use text.Mathlib.TextEquality.{eq_iff}
use ircfiber_site.Common.{◌≡◌, refl, ◌≢◌, true, some, [], ◌∷◌, arith}
use ircfiber_site.InputHistory.{
  absent, array, History, last_is, shift_over, save, reset_index, push, get_from_end, step_back,
  remember_input, get_earlier,
}
use ircfiber_site.InputHistory.Invariant.{IsHistory}

abbrev two_sent : History
two_sent = record {
  history = "/join #d" ∷ "hello" ∷ [];
  back = 0;
  current_value = "";
  stored = absent;
}

two_sent-IsHistory : IsHistory two_sent
two_sent-IsHistory = record { bounded = omega arith; repeat_free = (ne, tt); within = omega arith }
  where
    ne : ◌≢◌ {A = String} "/join #d" "hello"
    ne = ground (arith, eq_iff "/join #d" "hello")

repeat_ignored : push true "hello" two_sent ≡ two_sent
unfolding push last_is
repeat_ignored = refl

pushes : (push true "bye" two_sent).stored ≡ array ("/join #d" ∷ "hello" ∷ "bye" ∷ [])
unfolding push last_is save reset_index shift_over
pushes = refl

up_up : (get_earlier "draft" (get_earlier "draft" two_sent).0).1 ≡ some "/join #d"
unfolding get_earlier remember_input step_back get_from_end
up_up = refl
