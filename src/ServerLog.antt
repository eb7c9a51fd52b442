-- ===== src/ServerLog.antt =====
-- frontend/src/lib/serverLogGroups.ts: the kinds of the messages in a network's server log.
-- `three_digits` is the test `/^\d{3}$/`.
pub mod Dedup
pub mod Groups
mod Tests
use Prim.Native.String.{String}
use text.Mathlib.Text.{◌==◌ as str_eq}
use ircfiber_site.Common.{ℕ, Bool, false, not, ◌||◌, List, [], ◌∷◌, if◌then◌else◌}

-- What the log reads of an `IRCMessage`. A missing text is empty, and a missing `t` is 0, which is
-- what `msg.t ?? 0` makes of it.
pub record ServerMessage : Type 0 where
  pub phase : String
  pub command : String
  pub text : String
  pub params : List String
  pub t : ℕ
  pub self_echo : Bool

pub data ServerLogKind : Type 0 where
  phased motd welcome cap_kind numeric notice lifecycle self_kind skip : ServerLogKind

-- `set.has(s)`
unfoldable pub among : String → List String → Bool
among s [] = false
among s (x ∷ xs) = str_eq x s || among s xs

abbrev pub whois_family : List String
whois_family =
    "301" ∷ "275" ∷ "276" ∷ "307" ∷ "310" ∷ "311" ∷ "312" ∷ "313" ∷ "314" ∷ "315" ∷ "316" ∷ "317"
    ∷ "318" ∷ "319" ∷ "320" ∷ "330" ∷ "335" ∷ "337" ∷ "338" ∷ "339" ∷ "369" ∷ "378" ∷ "379" ∷ "352"
    ∷ "354" ∷ "615" ∷ "616" ∷ "617" ∷ "671" ∷ "672" ∷ "690" ∷ []

-- The commands of the first four returns of `skip`.
abbrev pub consumed : List String
consumed =
    "PING" ∷ "PONG" ∷ "ERROR" ∷ "ISUPPORT" ∷ "CONNECTION_RETRY_STATUS" ∷ "CONNECTION_FAIL"
    ∷ "CHANNEL_LIST" ∷ "QUIT" ∷ "CHGHOST" ∷ "ACCOUNT" ∷ "AUTHENTICATE" ∷ "TAGMSG" ∷ []

-- A string that counts as true.
unfoldable pub is_set : String → Bool
is_set s = not (str_eq s "")

module _ (three_digits : String → Bool) where
  -- From the numeric replies on.
  unfoldable pub classify_numeric : String → ServerLogKind
  classify_numeric cmd =
      if str_eq cmd "005"
      then cap_kind
      else if among cmd ("372" ∷ "375" ∷ "376" ∷ [])
      then motd
      else if among cmd ("001" ∷ "002" ∷ "003" ∷ [])
      then welcome
      else if among cmd whois_family || among cmd ("367" ∷ "368" ∷ "303" ∷ [])
      then skip
      else if three_digits cmd
      then numeric
      else notice

  unfoldable pub classify_server_log : ServerMessage → ServerLogKind
  classify_server_log msg =
      if is_set msg.phase
      then phased
      else if among msg.command consumed
      then skip
      else if among msg.command ("CONNECT" ∷ "DISCONNECT" ∷ "CONNECTED" ∷ "DISCONNECTED" ∷ [])
      then lifecycle
      else if str_eq msg.command "NOTICE"
      then notice
      else if str_eq msg.command "MODE"
      then self_kind
      else if str_eq msg.command "NICK"
      then (if msg.self_echo then self_kind else skip)
      else classify_numeric msg.command
