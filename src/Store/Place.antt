-- ===== src/Store/Place.antt =====
-- ircStore.svelte.ts, the end of `appendMessage`: where a new row goes. `locale_gt` is
-- `localeCompare(…) > 0`.
pub mod Order
use Prim.Native.String.{String}
use ircfiber_site.Common.{
  ℕ, ◌-◌, Bool, true, false, ◌&&◌, none, some, List, [], ◌∷◌, ◌++◌, ltb, ◌==◌, if◌then◌else◌,
  length, drop,
}
use ircfiber_site.Store.Message.{IrcMessage}

-- `MAX_JS_MESSAGES`
abbrev pub max_js_messages : ℕ
max_js_messages = 5000

-- FIFO cap: the newest rows stay.
unfoldable pub cap : List IrcMessage → List IrcMessage
cap rows =
    if ltb max_js_messages (length rows) then drop (length rows - max_js_messages) rows else rows

module _ (locale_gt : String → String → Bool) where
  -- `compareMessages(a, b) > 0`
  unfoldable pub is_after : IrcMessage → IrcMessage → Bool
  is_after a b =
      if a.t == b.t
      then elim a.eid [
        | none ↦ elim b.eid [ none ↦ locale_gt a.msgid b.msgid | some f ↦ true ]
        | some e ↦ elim b.eid [ none ↦ false | some f ↦ ltb f e ]
      ]
      else ltb b.t a.t

  -- Whether the scan from the tail passes all these rows.
  unfoldable pub all_after : IrcMessage → List IrcMessage → Bool
  all_after msg [] = true
  all_after msg (m ∷ ms) = is_after m msg && all_after msg ms

  -- The scan from the tail: the message goes before the rows at the end that come after it.
  unfoldable pub insert_row : IrcMessage → List IrcMessage → List IrcMessage
  insert_row msg [] = msg ∷ []
  insert_row msg (m ∷ ms) =
      let rest = insert_row msg ms in if all_after msg (m ∷ ms) then msg ∷ m ∷ ms else m ∷ rest

  -- `compareMessages(tail, msg) > 0`, on a list with a tail
  unfoldable pub is_out_of_order : IrcMessage → List IrcMessage → Bool
  is_out_of_order msg [] = false
  is_out_of_order msg (m ∷ []) = is_after m msg
  is_out_of_order msg (m ∷ n ∷ ms) = is_out_of_order msg (n ∷ ms)

  -- At its place, or at the end, where the cap applies.
  unfoldable pub place : IrcMessage → List IrcMessage → List IrcMessage
  place msg rows = if is_out_of_order msg rows then insert_row msg rows else cap (rows ++ msg ∷ [])
