-- ===== src/Splitter/Budget/Relay.antt =====
-- messageSplitter.ts, `ircPayloadBudget`: the line that the server makes of a message.
use ircfiber_site.Common.{◌+◌, ◌≤◌, ◌≡◌, true, Option, [], ◌∷◌, ◌++◌, arith, All, All-map}
use ircfiber_site.Splitter.Bytes.{Text, char_bytes, chars_bytes, chars_bytes-append}
use ircfiber_site.Splitter.Budget.{linelen_of, prefix_bytes, overhead, irc_payload_budget}
use ircfiber_site.Splitter.Pack.{split_into_messages}
use ircfiber_site.Splitter.Pack.Fits.{IsMessage, split_into_messages-IsMessage}

-- ` PRIVMSG `, ` :` and CRLF.
abbrev pub command : Text
command = 32 ∷ 80 ∷ 82 ∷ 73 ∷ 86 ∷ 77 ∷ 83 ∷ 71 ∷ 32 ∷ []

abbrev pub trailing : Text
trailing = 32 ∷ 58 ∷ []

abbrev pub crlf : Text
crlf = 13 ∷ 10 ∷ []

-- The protocol line that the server relays: `:nick!user@host PRIVMSG target :message`.
unfoldable pub relay_line : Text → Text → Text → Text
relay_line who target message =
    58 ∷ (who ++ (command ++ (target ++ (trailing ++ (message ++ crlf)))))

pub chars_bytes-relay_line :
    (who target message : Text)
    → chars_bytes (relay_line who target message)
      ≡ chars_bytes who + chars_bytes target + chars_bytes message + 14
unfolding relay_line chars_bytes char_bytes
chars_bytes-relay_line who target message = omega (
  arith,
  chars_bytes-append who (command ++ (target ++ (trailing ++ (message ++ crlf)))),
  chars_bytes-append target (trailing ++ (message ++ crlf)),
  chars_bytes-append message crlf,
)

-- The budget never falls below 80 bytes, whatever the server advertises.
pub irc_payload_budget-ge :
    (linelen : Option Text) (hostmask target : Text)
    → 80 ≤ irc_payload_budget linelen hostmask target
unfolding irc_payload_budget
irc_payload_budget-ge linelen hostmask target = omega arith

message-relayed :
    (linelen : Option Text) (hostmask target who message : Text)
    → chars_bytes who ≤ prefix_bytes hostmask
    → overhead hostmask target + 80 ≤ linelen_of linelen
    → chars_bytes message ≤ irc_payload_budget linelen hostmask target
    → chars_bytes (relay_line who target message) + 16 ≤ linelen_of linelen
unfolding irc_payload_budget overhead
message-relayed linelen hostmask target who message known room fits =
    omega (arith, chars_bytes-relay_line who target message)

-- Split a text by the payload budget, and let the server's limit leave at least 80 bytes for the
-- payload. Then each message, relayed with a sender's prefix no longer than the one assumed,
-- makes a line that is within the limit with 16 bytes to spare.
pub split_into_messages-relayed :
    (linelen : Option Text) (hostmask target who text : Text)
    → chars_bytes who ≤ prefix_bytes hostmask
    → overhead hostmask target + 80 ≤ linelen_of linelen
    → All
        (λ m. chars_bytes (relay_line who target m) + 16 ≤ linelen_of linelen)
        (split_into_messages text (irc_payload_budget linelen hostmask target) true)
split_into_messages-relayed linelen hostmask target who text known room =
    let budget = irc_payload_budget linelen hostmask target in
    let wide = irc_payload_budget-ge linelen hostmask target in
    All-map (IsMessage budget)
      (λ m. chars_bytes (relay_line who target m) + 16 ≤ linelen_of linelen)
      (λ m p. message-relayed linelen hostmask target who m known room p.1) _
      (split_into_messages-IsMessage text budget (omega arith))
