-- ===== src/Store/Tests.antt =====
-- The store on concrete rows, and its theorems at concrete inputs.
use Prim.Native.String.{String}
use text.Mathlib.Text.{◌==◌ as str_eq}
use ircfiber_site.Common.{ℕ, ◌≡◌, refl, Bool, true, false, none, some, [], ◌∷◌, arith}
use ircfiber_site.Store.Message.{IrcMessage, find_index, find_last_index, some_row}
use ircfiber_site.Store.Stash.{has_key, take_pending}
use ircfiber_site.Store.Overlay.{
  RedactionItem, EditItem, ReactionItem, tombstone_head, tombstone_of, includes, nicks_of,
  put_nicks, with_reaction,
}
use ircfiber_site.Store.Fold.{fold_items, apply_item}
use ircfiber_site.Store.Fold.Late.{fold_items-late}
use ircfiber_site.Store.Place.{is_after, all_after, insert_row, is_out_of_order, place}
use ircfiber_site.Store.Append.{Chat, is_duplicate, append_message}
use ircfiber_site.Store.Append.Arrives.{append_message-arrives}
use ircfiber_site.Store.Append.Echo.{append_message-swallows}
use ircfiber_site.Store.Batch.{has_nat, has_text, eids_of, msgids_of, batch_append}
use ircfiber_site.Store.Batch.Compare.{IsOrdinary, batch_append-append_message}
use ircfiber_site.Store.Batch.Drop.{batch_append-drops}

-- Texts that are in lower case and trimmed already, all equal to the comparison.
abbrev same : String → String
same s = s

abbrev never : String → String → Bool
never a b = false

abbrev line : ℕ → ℕ → String → String → String → IrcMessage
line t eid msgid nick text = record {
  t = t;
  eid = some eid;
  msgid = msgid;
  label = "";
  nick = nick;
  command = "PRIVMSG";
  params = [];
  text = text;
  self_echo = false;
  redacted = false;
  redact_reason = "";
  redacted_by = "";
  edited = false;
  edit_of = "";
  reply_to = "";
  reaction = none;
  reactions = [];
}

abbrev hello : IrcMessage
hello = line 1000 1 "m1" "ann" "hello"

abbrev bye : IrcMessage
bye = line 3000 3 "m3" "bob" "bye"

-- What the client shows before the echo of what it sent.
abbrev sent : IrcMessage
sent = record (line 4000 0 "" "me" "ok") { eid = none; label = "L1" }

abbrev chat : Chat
chat = record { rows = hello ∷ bye ∷ []; optimistic = []; noted = [] }

abbrev redaction : RedactionItem
redaction = record { msgid = "m1"; by = "ann"; reason = ""; t = 1500 }

abbrev edit : EditItem
edit = record { msgid = "m1"; text = "hullo"; t = 1600 }

abbrev thumb : ReactionItem
thumb = record { msgid = "m1"; emoji = "+1"; nick = "bob"; add = true; t = 1700 }

tombstone : (tombstone_of hello redaction).text ≡ "[message deleted by ann]"
unfolding tombstone_of tombstone_head
tombstone = refl

reacted : (with_reaction hello thumb).reactions ≡ ("+1", "bob" ∷ []) ∷ []
unfolding with_reaction nicks_of put_nicks includes
reacted = refl

late_line :
    (place never (line 2000 2 "m2" "ann" "well") (hello ∷ bye ∷ []))
    ≡ hello ∷ line 2000 2 "m2" "ann" "well" ∷ bye ∷ []
unfolding place is_out_of_order insert_row all_after is_after
late_line = refl

fold_items-late_example :
    let waiting =
      (apply_item RedactionItem.msgid tombstone_of "n:#a" redaction (bye ∷ []) []).0.1 in
    let (items, left) = take_pending "n:#a" (hello ∷ []) waiting in
    fold_items RedactionItem.msgid tombstone_of RedactionItem.t "n:#a" (hello ∷ []) items left
    ≡ (apply_item RedactionItem.msgid tombstone_of "n:#a" redaction (hello ∷ []) []).0
unfolding find_index has_key
fold_items-late_example =
    fold_items-late RedactionItem.msgid tombstone_of RedactionItem.t "n:#a" redaction (bye ∷ [])
      (hello ∷ []) 0 [] refl refl refl refl (refl, tt) (omega arith)

append_message-arrives_example :
    some_row
      (λ m. str_eq m.msgid "m2")
      (append_message same same never 5000 "me" (line 2000 2 "m2" "ann" "well") chat).rows
    ≡ true
unfolding is_duplicate some_row
append_message-arrives_example =
    append_message-arrives same same (λ m. str_eq m.msgid "m2") never 5000 "me"
      (line 2000 2 "m2" "ann" "well") chat (refl, λ label. refl) refl

append_message-swallows_example :
    (append_message same same never 5000 "bob" (line 5000 4 "m4" "bob" "bye") chat).rows
    ≡ hello ∷ record (line 5000 4 "m4" "bob" "bye") { label = "" } ∷ []
append_message-swallows_example =
    append_message-swallows same same never 5000 "bob" (hello ∷ []) bye
      (line 5000 4 "m4" "bob" "bye") chat refl refl refl refl refl (omega arith)

ordinary : (t : ℕ) → IsOrdinary same same "me" (line t 2 "m2" "ann" "well") chat
unfolding is_duplicate some_row find_last_index eids_of msgids_of has_nat has_text
ordinary t = record {
  unlabelled = refl;
  foreign = refl;
  unmatched = refl;
  fresh = refl;
  unseen = refl;
}

batch_append-append_message_example :
    batch_append same same never 5000 "me" (line 3500 2 "m2" "ann" "well" ∷ []) chat
    ≡ append_message same same never 5000 "me" (line 3500 2 "m2" "ann" "well") chat
unfolding is_after
batch_append-append_message_example =
    batch_append-append_message same same never 5000 "me" (line 3500 2 "m2" "ann" "well") bye
      (hello ∷ []) chat (ordinary 3500) refl refl

abbrev pending_chat : Chat
pending_chat = record chat { rows = hello ∷ sent ∷ [] }

batch_append-drops_example :
    ((batch_append same same never 5000 "you" (line 4100 5 "m5" "me" "ok" ∷ []) pending_chat).rows
      ≡ hello ∷ sent ∷ [])
    × ((append_message same same never 5000 "you" (line 4100 5 "m5" "me" "ok") pending_chat).rows
        ≡ hello ∷ record (line 4100 5 "m5" "me" "ok") { label = "L1" } ∷ [])
unfolding is_duplicate some_row eids_of msgids_of has_nat has_text
batch_append-drops_example =
    batch_append-drops same same never 5000 "you" (hello ∷ []) sent (line 4100 5 "m5" "me" "ok")
      pending_chat refl refl refl refl refl refl (omega arith)
