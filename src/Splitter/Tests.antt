-- ===== src/Splitter/Tests.antt =====
-- The splitter on concrete texts, and its theorems at concrete inputs.
use Prim.Native.Char.{code}
use Prim.Native.String.{String}
use ircfiber_site.Common.{
  ◌+◌, ◌≤◌, ◌≡◌, refl, true, false, none, some, [], ◌∷◌, ◌++◌, arith, All, filter, concat,
}
use ircfiber_site.Splitter.Bytes.{Text, char_bytes, chars_bytes}
use ircfiber_site.Splitter.Break.{break_line}
use ircfiber_site.Splitter.Pack.{split_into_messages}
use ircfiber_site.Splitter.Pack.Content.{is_ink, ink-split_into_messages}
use ircfiber_site.Splitter.Pack.Fits.{IsMessage, split_into_messages-IsMessage}
use ircfiber_site.Splitter.Budget.{linelen_of, prefix_bytes, overhead, irc_payload_budget}
use ircfiber_site.Splitter.Budget.Relay.{relay_line, split_into_messages-relayed}

abbrev codes : String → Text
codes String.[] = []
codes (String.◌∷◌ c s) = code c ∷ codes s

breaks_at_spaces :
    break_line (codes "ab cd efghijk") 6 ≡ codes "ab cd " ∷ codes "efghij" ∷ codes "k" ∷ []
unfolding break_line chars_bytes char_bytes
breaks_at_spaces = refl

too_wide_alone : break_line (0x1F600 ∷ b'a' ∷ []) 2 ≡ (0x1F600 ∷ []) ∷ (b'a' ∷ []) ∷ []
unfolding break_line chars_bytes char_bytes
too_wide_alone = refl

abbrev two_lines : Text
two_lines = codes "one" ++ 13 ∷ 10 ∷ (codes "two" ++ 10 ∷ 10 ∷ codes "three")

packs : split_into_messages two_lines 8 true ≡ codes "one two" ∷ codes "three" ∷ []
unfolding split_into_messages chars_bytes char_bytes
packs = refl

keeps_blanks :
    split_into_messages (two_lines ++ 10 ∷ []) 8 false
    ≡ codes "one" ∷ codes "two" ∷ [] ∷ codes "three" ∷ []
unfolding split_into_messages chars_bytes char_bytes
keeps_blanks = refl

default_budget : irc_payload_budget none [] (codes "#chan") ≡ 372
unfolding irc_payload_budget chars_bytes char_bytes
default_budget = refl

hostile_budget : irc_payload_budget (some (codes "-3")) [] (codes "#chan") ≡ 80
unfolding irc_payload_budget chars_bytes char_bytes
hostile_budget = refl

ink-split_into_messages_example :
    filter is_ink (concat (split_into_messages two_lines 8 true)) ≡ codes "onetwothree"
ink-split_into_messages_example = ink-split_into_messages two_lines 8 true

split_into_messages-IsMessage_example : All (IsMessage 8) (split_into_messages two_lines 8 true)
split_into_messages-IsMessage_example = split_into_messages-IsMessage two_lines 8 (omega arith)

split_into_messages-relayed_example :
    All
      (λ m. chars_bytes (relay_line (codes "a!b@c") (codes "#d") m) + 16 ≤ linelen_of none)
      (split_into_messages two_lines (irc_payload_budget none (codes "a!b@c") (codes "#d")) true)
unfolding overhead prefix_bytes linelen_of chars_bytes char_bytes
split_into_messages-relayed_example =
    split_into_messages-relayed none (codes "a!b@c") (codes "#d") (codes "a!b@c") two_lines
      (omega arith) (omega arith)
