-- ===== src/Store/Overlay/Laws.antt =====
-- ircStore.svelte.ts: redactions and reactions applied again.
use Prim.Native.String.{String}
use text.Mathlib.TextEquality.{eq_iff}
use ircfiber_site.Common.{◌≡◌, refl, true, false, List, [], ◌∷◌, ◌++◌, arith}
use ircfiber_site.Store.Message.{IrcMessage}
use ircfiber_site.Store.Overlay.{
  RedactionItem, EditItem, ReactionItem, tombstone_of, edited_row, includes, without, nicks_of,
  put_nicks, drop_emoji, take_nick, with_reaction,
}

-- A redaction is final: no edit that comes behind it and no second redaction changes the row.
pub tombstone_of-final :
    (m : IrcMessage) (r again : RedactionItem) (e : EditItem)
    → (edited_row (tombstone_of m r) e ≡ tombstone_of m r)
      × (tombstone_of (tombstone_of m r) again ≡ tombstone_of m r)
unfolding tombstone_of edited_row
tombstone_of-final m r again e = ground arith

edited_row-twice : (m : IrcMessage) (e : EditItem) → edited_row (edited_row m e) e ≡ edited_row m e
unfolding edited_row
edited_row-twice m e = ground (arith, eq_iff e.text e.text, eq_iff m.text e.text)

nicks_of-put_nicks :
    (emoji : String) (ns : List String) (r : List (String × List String))
    → nicks_of emoji (put_nicks emoji ns r) ≡ ns
unfolding nicks_of put_nicks
nicks_of-put_nicks emoji ns [] = ground (arith, eq_iff emoji emoji)
nicks_of-put_nicks emoji ns ((e, old) ∷ r) = ground (arith, nicks_of-put_nicks emoji ns r)

nicks_of-drop_emoji :
    (emoji : String) (r : List (String × List String)) → nicks_of emoji (drop_emoji emoji r) ≡ []
unfolding nicks_of drop_emoji
nicks_of-drop_emoji emoji [] = refl
nicks_of-drop_emoji emoji ((e, old) ∷ r) = ground (arith, nicks_of-drop_emoji emoji r)

nicks_of-take_nick :
    (emoji : String) (ns : List String) (r : List (String × List String))
    → nicks_of emoji (take_nick emoji ns r) ≡ ns
unfolding take_nick
nicks_of-take_nick emoji [] r = nicks_of-drop_emoji emoji r
nicks_of-take_nick emoji (n ∷ ns) r = nicks_of-put_nicks emoji (n ∷ ns) r

includes-snoc : (nick : String) (ns : List String) → includes nick (ns ++ nick ∷ []) ≡ true
unfolding includes
includes-snoc nick [] = ground (arith, eq_iff nick nick)
includes-snoc nick (n ∷ ns) = ground (arith, includes-snoc nick ns)

includes-without : (nick : String) (ns : List String) → includes nick (without nick ns) ≡ false
unfolding includes without
includes-without nick [] = refl
includes-without nick (n ∷ ns) = ground (arith, includes-without nick ns)

-- A reaction shows who reacted: after an addition the nick is among those of the emoji, after a
-- removal it is not.
pub includes-with_reaction :
    (m : IrcMessage) (item : ReactionItem)
    → includes item.nick (nicks_of item.emoji (with_reaction m item).reactions) ≡ item.add
unfolding with_reaction
includes-with_reaction m item =
    let nicks = nicks_of item.emoji m.reactions in
    ground (
      arith,
      nicks_of-put_nicks item.emoji (nicks ++ item.nick ∷ []) m.reactions,
      nicks_of-take_nick item.emoji (without item.nick nicks) m.reactions,
      includes-snoc item.nick nicks,
      includes-without item.nick nicks,
    )

with_reaction-same :
    (m : IrcMessage) (item : ReactionItem)
    → includes item.nick (nicks_of item.emoji m.reactions) ≡ item.add
    → with_reaction m item ≡ m
unfolding with_reaction
with_reaction-same m item e = ground arith

-- Replays are harmless: an edit or a reaction that comes twice in a row changes nothing the second
-- time.
pub with_reaction-twice :
    (m : IrcMessage) (item : ReactionItem) (e : EditItem)
    → (with_reaction (with_reaction m item) item ≡ with_reaction m item)
      × (edited_row (edited_row m e) e ≡ edited_row m e)
with_reaction-twice m item e = (
  with_reaction-same (with_reaction m item) item (includes-with_reaction m item),
  edited_row-twice m e,
)
