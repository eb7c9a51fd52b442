-- ===== src/Splitter/Budget.antt =====
-- messageSplitter.ts, `ircPayloadBudget`: usable payload bytes of one PRIVMSG.
pub mod Relay
use ircfiber_site.Common.{
  ℕ, ◌+◌, ◌-◌, ◌*◌, max, Bool, true, false, ◌&&◌, ◌||◌, Option, none, some, [], ◌∷◌, leb, ◌==◌,
  if◌then◌else◌, is_empty,
}
use ircfiber_site.Splitter.Bytes.{Text, chars_bytes}

-- What `parseInt(s, 10)` reads: blanks, a sign, and digits; the sign comes with the magnitude.
pub data Parsed : Type 0 where
  nan : Parsed
  parsed : Bool → ℕ → Parsed

abbrev is_digit : ℕ → Bool
is_digit c = leb b'0' c && leb c b'9'

-- The blanks that a header value can hold: space, tab, line feed, carriage return.
abbrev is_blank : ℕ → Bool
is_blank c = c == b' ' || c == 9 || c == 10 || c == 13

more_digits : ℕ → Text → ℕ
more_digits n [] = n
more_digits n (c ∷ s) =
    let rest = more_digits (n * 10 + (c - b'0')) s in if is_digit c then rest else n

digits : Bool → Text → Parsed
digits negative [] = nan
digits negative (c ∷ s) = if is_digit c then parsed negative (more_digits (c - b'0') s) else nan

signed : Text → Parsed
signed [] = nan
signed (c ∷ s) =
    if c == b'-' then digits true s else if c == b'+' then digits false s else digits false (c ∷ s)

pub parse_int : Text → Parsed
parse_int [] = nan
parse_int (c ∷ s) = let rest = parse_int s in if is_blank c then rest else signed (c ∷ s)

-- `parseInt(isupport?.LINELEN ?? '', 10) || 512`; a negative number is 0 here, since the budget
-- that comes of it is clamped.
unfoldable pub linelen_of : Option Text → ℕ
unfolding parse_int signed digits more_digits
linelen_of none = 512
linelen_of (some value) = elim (parse_int value) [
  | nan ↦ 512
  | parsed negative n ↦ if n == 0 then 512 else if negative then 0 else n
]

-- `hostmask ? utf8Length(hostmask) : WORST_CASE_HOSTMASK_BYTES`
unfoldable pub prefix_bytes : Text → ℕ
prefix_bytes hostmask = if is_empty hostmask then 105 else chars_bytes hostmask

-- The bytes of the line that the payload does not get: ':', the prefix, a blank, `PRIVMSG`, a
-- blank, the target, ' :', CRLF and the headroom of 16.
unfoldable pub overhead : Text → Text → ℕ
overhead hostmask target = 1 + prefix_bytes hostmask + 1 + 7 + 1 + chars_bytes target + 2 + 2 + 16

unfoldable pub irc_payload_budget : Option Text → Text → Text → ℕ
unfolding linelen_of parse_int signed digits more_digits overhead prefix_bytes
irc_payload_budget linelen hostmask target = max 80 (linelen_of linelen - overhead hostmask target)
