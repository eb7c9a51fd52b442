-- ===== src/Splitter/Pack.antt =====
-- messageSplitter.ts, `splitIntoMessages`: line splitting, breaking, and the two ways of sending.
pub mod Content
pub mod Fits
use ircfiber_site.Common.{
  ℕ, ◌+◌, max, Bool, true, false, not, ◌&&◌, ◌||◌, List, [], ◌∷◌, ◌++◌, ltb, leb, ◌==◌,
  if◌then◌else◌, length, is_empty,
}
use ircfiber_site.Splitter.Bytes.{Text, chars_bytes}
use ircfiber_site.Splitter.Break.{break_line}

-- `text.split(/\r\n|\r|\n/)`; the flag says that the last character was a CR that ended a line.
pub split_from : Bool → Text → Text → List Text
split_from after_cr cur [] = cur ∷ []
split_from after_cr cur (c ∷ s) = elim (after_cr && c == 10) [
  | true ↦ split_from false cur s
  | false ↦ elim (c == 13 || c == 10) [
    | true ↦ cur ∷ split_from (c == 13) [] s
    | false ↦ split_from false (cur ++ c ∷ []) s
  ]
]

pub split_lines : Text → List Text
split_lines text = split_from false [] text

-- What one line of the text becomes: a blank line and a line that fits stay, others are broken.
pub expand : ℕ → Text → List Text
expand budget line =
    if is_empty line
    then [] ∷ []
    else if leb (chars_bytes line) budget
    then line ∷ []
    else break_line line budget

pub break_lines : ℕ → List Text → List Text
break_lines budget [] = []
break_lines budget (line ∷ rest) = expand budget line ++ break_lines budget rest

-- `while (lines.length > 0 && lines[lines.length - 1] === '') lines.pop();`
pub drop_trailing : List Text → List Text
drop_trailing [] = []
drop_trailing (line ∷ lines) =
    let rest = drop_trailing lines in if is_empty line && is_empty rest then [] else line ∷ rest

-- The variables of the packing loop.
pub record Packing : Type 0 where
  pub messages : List Text
  pub buf : Text
  pub buf_bytes : ℕ

pub ends_with_space : Text → Bool
ends_with_space [] = false
ends_with_space (c ∷ []) = c == b' '
ends_with_space (c ∷ d ∷ s) = ends_with_space (d ∷ s)

-- `buf && !buf.endsWith(' ') ? ' ' : ''`
pub separator : Text → Text
separator buf = if not (is_empty buf) && not (ends_with_space buf) then b' ' ∷ [] else []

pub flush_buf : Packing → Packing
flush_buf st =
    if is_empty st.buf
    then st
    else record { messages = st.messages ++ st.buf ∷ []; buf = []; buf_bytes = 0 }

-- `buf && bufBytes + sep.length + lineBytes > budget`
pub overflows : ℕ → Text → Packing → Bool
overflows budget line st =
    not (is_empty st.buf)
    && ltb budget (st.buf_bytes + length (separator st.buf) + chars_bytes line)

-- A line joins the buffer, or starts a new one if it would overflow the budget.
pub join_line : ℕ → Text → Packing → Packing
join_line budget line st =
    if overflows budget line st
    then record { messages = st.messages ++ st.buf ∷ []; buf = line; buf_bytes = chars_bytes line }
    else record {
      messages = st.messages;
      buf = st.buf ++ separator st.buf ++ line;
      buf_bytes = st.buf_bytes + length (separator st.buf) + chars_bytes line;
    }

pub pack_step : ℕ → Text → Packing → Packing
pack_step budget line st = if is_empty line then flush_buf st else join_line budget line st

pub pack_loop : ℕ → List Text → Packing → Packing
pack_loop budget [] st = st
pack_loop budget (line ∷ lines) st = pack_loop budget lines (pack_step budget line st)

pub pack_lines : ℕ → List Text → List Text
pack_lines budget lines =
    (flush_buf
      (pack_loop budget lines (record { messages = []; buf = []; buf_bytes = 0 }))).messages

-- `Math.max(1, Math.floor(maxBytes))` of a whole number.
abbrev pub budget_of : ℕ → ℕ
budget_of max_bytes = max 1 max_bytes

unfoldable pub split_into_messages : Text → ℕ → Bool → List Text
unfolding overflows split_from split_lines expand break_lines drop_trailing ends_with_space
    separator flush_buf join_line pack_step pack_loop pack_lines
split_into_messages text max_bytes pack =
    let lines = break_lines (budget_of max_bytes) (split_lines text) in
    if pack then pack_lines (budget_of max_bytes) lines else drop_trailing lines
