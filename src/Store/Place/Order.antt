-- ===== src/Store/Place/Order.antt =====
-- ircStore.svelte.ts, `appendMessage`: the order of the rows.
use Prim.Native.String.{String}
use ircfiber_site.Common.{◌≡◌, Bool, false, List, [], ◌∷◌}
use ircfiber_site.Store.Message.{IrcMessage}
use ircfiber_site.Store.Place.{is_after}

module _ (locale_gt : String → String → Bool) where
  -- No row comes right before one that it should follow.
  abbrev pub IsOrdered : List IrcMessage → Type 0
  IsOrdered [] = Unit {0}
  IsOrdered (m ∷ []) = Unit {0}
  IsOrdered (m ∷ n ∷ ms) = (is_after locale_gt m n ≡ false) × IsOrdered (n ∷ ms)
