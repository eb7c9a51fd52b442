-- ===== src/Store/Unread/Arrive.antt =====
-- ircStore.svelte.ts: what arriving messages make of the unseen state of their buffer. `lower` is
-- `toLowerCase`.
pub mod Sorted
pub mod Orderly
pub mod Settled
pub mod Merged
pub mod Counted
use Prim.Native.String.{String}
use text.Mathlib.Text.{◌==◌ as str_eq}
use ircfiber_site.Common.{
  ℕ, suc, ◌+◌, Bool, true, false, not, ◌&&◌, ◌||◌, Option, none, some, List, [], ◌∷◌, ◌++◌, ltb,
  leb, ◌==◌, if◌then◌else◌, length, take, filter, is_empty,
}
use ircfiber_site.Store.Message.{IrcMessage, truthy}
use ircfiber_site.Store.Unread.{Unread, set_unseen, set_last_seen_message}

-- A message as the rule reads it, with the answers of `isMessageIgnored` and `checkHighlight`.
pub record Arrival : Type 0 where
  pub message : IrcMessage
  pub is_action : Bool
  pub highlight : Bool
  pub ignored : Bool
  pub mentions : Bool

-- The buffer, its network and its preferences.
pub record Setting : Type 0 where
  pub is_server : Bool
  pub is_query : Bool
  pub mute : Bool
  pub boot_complete : Bool
  pub current_nick : String

-- `isMessageUnseen`
unfoldable pub is_message_unseen : ℕ → Option ℕ → Bool
is_message_unseen t none = true
is_message_unseen t (some seen) = ltb seen t

-- `recordHighlight`, on the list of one buffer.
unfoldable pub record_highlight : String → List String → List String
record_highlight nick recent =
    if truthy nick then take 10 (nick ∷ filter (λ n. not (str_eq n nick)) recent) else recent

-- `merged.add(t)`
unfoldable pub has_time : ℕ → List ℕ → Bool
has_time t [] = false
has_time t (h ∷ hs) = h == t || has_time t hs

unfoldable pub add_time : ℕ → List ℕ → List ℕ
add_time t hs = if has_time t hs then hs else hs ++ t ∷ []

-- `new Set(buf.unseenHighlights)` and the `add`s, for highlights that hold no time twice, as they are
-- kept: they come out of such a Set or are a part of them.
unfoldable pub merge_times : List ℕ → List ℕ → List ℕ
merge_times [] hs = hs
merge_times (t ∷ ts) hs = merge_times ts (add_time t hs)

-- `[...merged].sort((a, b) => a - b)`
unfoldable pub insert_time : ℕ → List ℕ → List ℕ
insert_time t [] = t ∷ []
insert_time t (h ∷ hs) = let rest = insert_time t hs in if leb t h then t ∷ h ∷ hs else h ∷ rest

unfoldable pub sort_times : List ℕ → List ℕ
sort_times [] = []
sort_times (t ∷ ts) = insert_time t (sort_times ts)

-- `setUnseen` with highlights.
unfoldable pub set_unseen_highlights : ℕ → List ℕ → Unread → Unread
set_unseen_highlights count ts u =
    let merged = merge_times ts u.unseen_highlights in
    let counted = set_unseen count u in
    if is_empty ts || length merged == length u.unseen_highlights
    then counted
    else record counted { unseen_highlights = sort_times merged }

-- The variables of the loop, the messages done, and the nicks of `recordHighlight`.
pub record Pass : Type 0 where
  pub unread : Unread
  pub added : ℕ
  pub highlights : List ℕ
  pub recent : List String
  pub done : List Arrival

-- `if (msg.t) setLastSeenMessage(...)`
unfoldable pub see_own : ℕ → Unread → Unread
see_own t u = if t == 0 then u else set_last_seen_message t u

-- `if (added > 0) setUnseen(...)`
unfoldable pub finish_arrivals : Pass → Pass
finish_arrivals p =
    if ltb 0 p.added
    then record p {
      unread = set_unseen_highlights (p.unread.unseen_count + p.added) p.highlights p.unread;
    }
    else p

module _ (lower : String → String) where
  unfoldable pub is_self_message : Setting → IrcMessage → Bool
  is_self_message s m =
      m.self_echo || truthy (lower s.current_nick) && str_eq (lower m.nick) (lower s.current_nick)

  unfoldable pub is_important_message : Setting → Arrival → Bool
  is_important_message s a =
      if is_self_message s a.message
      then false
      else if str_eq a.message.command "PRIVMSG" || a.is_action
      then truthy a.message.text
      else if str_eq a.message.command "NOTICE"
      then truthy a.message.nick && truthy a.message.text
      else str_eq a.message.command "INVITE" || str_eq a.message.command "WALLOPS"

  unfoldable pub is_highlightable_message : Setting → Arrival → Bool
  is_highlightable_message s a =
      if not (is_important_message s a) || s.mute
      then false
      else if a.highlight || a.mentions
      then true
      else if s.is_query && not (str_eq a.message.command "NOTICE")
      then true
      else str_eq a.message.command "INVITE" || str_eq a.message.command "WALLOPS"

  unfoldable pub count_arrival : Setting → Arrival → Pass → Pass
  count_arrival s a p =
      if is_highlightable_message s a
      then record {
        unread = p.unread;
        added = suc p.added;
        highlights = if a.message.t == 0 then p.highlights else p.highlights ++ a.message.t ∷ [];
        recent = record_highlight a.message.nick p.recent;
        done = p.done ++ record a { highlight = true } ∷ [];
      }
      else record p { added = suc p.added; done = p.done ++ a ∷ [] }

  -- One iteration.
  unfoldable pub arrive : Setting → Arrival → Pass → Pass
  arrive s a p =
      if not (is_message_unseen a.message.t p.unread.last_seen) || a.ignored
      then record p { done = p.done ++ a ∷ [] }
      else if s.boot_complete && not p.unread.unseen && p.added == 0 && is_self_message s a.message
      then record p { unread = see_own a.message.t p.unread; done = p.done ++ a ∷ [] }
      else if not (is_important_message s a)
      then record p { done = p.done ++ a ∷ [] }
      else count_arrival s a p

  unfoldable pub arrive_all : Setting → List Arrival → Pass → Pass
  arrive_all s [] p = p
  arrive_all s (a ∷ more) p = arrive_all s more (arrive s a p)

  unfoldable pub apply_add_message_unseen : Setting → List Arrival → List String → Unread → Pass
  apply_add_message_unseen s msgs recent u =
      let p : Pass = record {
        unread = u;
        added = 0;
        highlights = [];
        recent = recent;
        done = [];
      } in
      if s.is_server then record p { done = msgs } else finish_arrivals (arrive_all s msgs p)
