-- ===== src/Store/Overlay.antt =====
-- ircStore.svelte.ts: what a redaction, an edit and a reaction do to the row they name.
pub mod Laws
use Prim.Native.String.{String, ◌++◌ as str_append}
use text.Mathlib.Text.{◌==◌ as str_eq}
use ircfiber_site.Common.{ℕ, Bool, true, false, ◌||◌, List, [], ◌∷◌, ◌++◌, if◌then◌else◌}
use ircfiber_site.Store.Message.{IrcMessage, truthy}

pub record RedactionItem : Type 0 where
  pub msgid : String
  pub by : String
  pub reason : String
  pub t : ℕ

pub record EditItem : Type 0 where
  pub msgid : String
  pub text : String
  pub t : ℕ

pub record ReactionItem : Type 0 where
  pub msgid : String
  pub emoji : String
  pub nick : String
  pub add : Bool
  pub t : ℕ

-- `[message deleted by <nick>]`, without the nick if there is none
unfoldable pub tombstone_head : String → String
tombstone_head by =
    if truthy by then str_append "[message deleted by " (str_append by "]") else "[message deleted]"

-- `tombstoneOf`
unfoldable pub tombstone_of : IrcMessage → RedactionItem → IrcMessage
tombstone_of original item = if original.redacted then original else record original {
  text =
      if truthy item.reason
      then str_append (tombstone_head item.by) (str_append ": " item.reason)
      else tombstone_head item.by;
  redacted = true;
  redact_reason = item.reason;
  redacted_by = item.by;
}

-- `editedRow`
unfoldable pub edited_row : IrcMessage → EditItem → IrcMessage
edited_row original item =
    if original.redacted
    then original
    else if str_eq original.text item.text
    then original
    else record original { text = item.text; edited = true }

-- `nicks.includes(nick)`
unfoldable pub includes : String → List String → Bool
includes nick [] = false
includes nick (n ∷ ns) = str_eq n nick || includes nick ns

-- `nicks.filter(n => n !== nick)`
unfoldable pub without : String → List String → List String
without nick [] = []
without nick (n ∷ ns) = let rest = without nick ns in if str_eq n nick then rest else n ∷ rest

-- `reactions[emoji] ?? []`
unfoldable pub nicks_of : String → List (String × List String) → List String
nicks_of emoji [] = []
nicks_of emoji ((e, ns) ∷ r) = if str_eq e emoji then ns else nicks_of emoji r

-- `reactions[emoji] = nicks`
unfoldable pub put_nicks :
    String → List String → List (String × List String) → List (String × List String)
put_nicks emoji ns [] = (emoji, ns) ∷ []
put_nicks emoji ns ((e, old) ∷ r) =
    let rest = put_nicks emoji ns r in if str_eq e emoji then (e, ns) ∷ r else (e, old) ∷ rest

-- `delete reactions[emoji]`
unfoldable pub drop_emoji : String → List (String × List String) → List (String × List String)
drop_emoji emoji [] = []
drop_emoji emoji ((e, ns) ∷ r) =
    let rest = drop_emoji emoji r in if str_eq e emoji then rest else (e, ns) ∷ rest

-- What is left of an emoji without a nick: nothing if that was the only one.
unfoldable pub take_nick :
    String → List String → List (String × List String) → List (String × List String)
take_nick emoji [] r = drop_emoji emoji r
take_nick emoji (n ∷ ns) r = put_nicks emoji (n ∷ ns) r

-- `withReaction`
unfoldable pub with_reaction : IrcMessage → ReactionItem → IrcMessage
with_reaction msg item =
    let nicks = nicks_of item.emoji msg.reactions in
    if item.add
    then (if includes item.nick nicks then msg else record msg {
      reactions = put_nicks item.emoji (nicks ++ item.nick ∷ []) msg.reactions;
    })
    else (if includes item.nick nicks
        then record msg { reactions = take_nick item.emoji (without item.nick nicks) msg.reactions }
        else msg)
