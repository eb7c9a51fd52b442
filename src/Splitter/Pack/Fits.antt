-- ===== src/Splitter/Pack/Fits.antt =====
-- messageSplitter.ts, `splitIntoMessages`: the bytes of the messages.
use ircfiber_site.Common.{
  ℕ, ◌≤◌, ◌<◌, max, ◌≡◌, refl, true, false, List, [], ◌∷◌, ◌++◌, arith, length, All, All-append,
  All-map, is_empty,
}
use ircfiber_site.Splitter.Bytes.{Text, char_bytes, chars_bytes, chars_bytes-append}
use ircfiber_site.Splitter.Break.{break_line}
use ircfiber_site.Splitter.Break.Bounds.{break_line-fits}
use ircfiber_site.Splitter.Pack.{
  split_lines, expand, break_lines, drop_trailing, Packing, separator, flush_buf, overflows,
  join_line, pack_step, pack_loop, pack_lines, split_into_messages,
}

abbrev pub Fits : ℕ → Text → Type 0
Fits budget message = chars_bytes message ≤ budget

abbrev pub IsMessage : ℕ → Text → Type 0
IsMessage budget message = (0 < length message) × (chars_bytes message ≤ budget)

expand-Fits : (budget : ℕ) (line : Text) → 4 ≤ budget → All (Fits budget) (expand budget line)
unfolding expand chars_bytes
expand-Fits budget line room =
    let broken : All (Fits budget) (break_line line budget) =
      All-map (IsMessage budget) (Fits budget) (λ m p. p.1) _ (break_line-fits line budget room) in
    ground (arith, broken)

break_lines-Fits :
    (budget : ℕ) (lines : List Text) → 4 ≤ budget → All (Fits budget) (break_lines budget lines)
unfolding break_lines
break_lines-Fits budget [] room = tt
break_lines-Fits budget (line ∷ rest) room =
    All-append (Fits budget) (expand budget line) _ (expand-Fits budget line room)
      (break_lines-Fits budget rest room)

drop_trailing-Fits :
    (budget : ℕ) (lines : List Text)
    → All (Fits budget) lines
    → All (Fits budget) (drop_trailing lines)
unfolding drop_trailing
drop_trailing-Fits budget [] h = tt
drop_trailing-Fits budget (line ∷ lines) h = ground (arith, drop_trailing-Fits budget lines h.1)

-- The packing loop's invariant.
record IsPacking (budget : ℕ) (st : Packing) : Type 0 where
  sent : All (IsMessage budget) st.messages
  counted : st.buf_bytes ≡ chars_bytes st.buf
  within : st.buf_bytes ≤ budget

snoc-IsMessage :
    (budget : ℕ) (messages : List Text) (m : Text)
    → All (IsMessage budget) messages
    → IsMessage budget m
    → All (IsMessage budget) (messages ++ m ∷ [])
snoc-IsMessage budget messages m h p = All-append (IsMessage budget) messages (m ∷ []) h (p, tt)

buf-IsMessage :
    (budget : ℕ) (st : Packing)
    → is_empty st.buf ≡ false
    → IsPacking budget st
    → IsMessage budget st.buf
buf-IsMessage budget st h v = (ground arith, omega arith)

flush_buf-IsPacking :
    (budget : ℕ) (st : Packing) → IsPacking budget st → IsPacking budget (flush_buf st)
unfolding flush_buf chars_bytes
flush_buf-IsPacking budget st v =
    ground (arith, snoc-IsMessage budget st.messages st.buf v.sent, buf-IsMessage budget st)

chars_bytes-separator : (buf : Text) → chars_bytes (separator buf) ≡ length (separator buf)
unfolding separator chars_bytes char_bytes
chars_bytes-separator buf = ground arith

separator-empty :
    (buf : Text) → is_empty buf ≡ true → (chars_bytes buf ≡ 0) × (length (separator buf) ≡ 0)
unfolding separator chars_bytes
separator-empty buf h = ground arith

join_line-IsPacking :
    (budget : ℕ) (line : Text) (st : Packing)
    → Fits budget line
    → IsPacking budget st
    → IsPacking budget (join_line budget line st)
unfolding join_line overflows
join_line-IsPacking budget line st fit v =
    let tail = chars_bytes-append st.buf (separator st.buf) in
    let whole = chars_bytes-append (st.buf ++ separator st.buf) line in
    ground (
      arith,
      tail,
      whole,
      chars_bytes-separator st.buf,
      separator-empty st.buf,
      snoc-IsMessage budget st.messages st.buf v.sent,
      buf-IsMessage budget st,
    )

pack_step-IsPacking :
    (budget : ℕ) (line : Text) (st : Packing)
    → Fits budget line
    → IsPacking budget st
    → IsPacking budget (pack_step budget line st)
unfolding pack_step
pack_step-IsPacking budget [] st fit v = flush_buf-IsPacking budget st v
pack_step-IsPacking budget (c ∷ line) st fit v = join_line-IsPacking budget (c ∷ line) st fit v

pack_loop-IsPacking :
    (budget : ℕ) (lines : List Text) (st : Packing)
    → All (Fits budget) lines
    → IsPacking budget st
    → IsPacking budget (pack_loop budget lines st)
unfolding pack_loop
pack_loop-IsPacking budget [] st h v = v
pack_loop-IsPacking budget (line ∷ lines) st h v =
    pack_loop-IsPacking budget lines (pack_step budget line st) h.1
      (pack_step-IsPacking budget line st h.0 v)

pack_lines-IsMessage :
    (budget : ℕ) (lines : List Text)
    → All (Fits budget) lines
    → All (IsMessage budget) (pack_lines budget lines)
unfolding pack_lines chars_bytes
pack_lines-IsMessage budget lines h =
    (flush_buf-IsPacking budget _ (
      pack_loop-IsPacking budget lines _ h
        (record { sent = tt; counted = refl; within = omega arith }))).sent

-- With a budget of at least four bytes, the room of any code point, every packed message is
-- within the budget and not empty.
pub split_into_messages-IsMessage :
    (text : Text) (max_bytes : ℕ)
    → 4 ≤ max_bytes
    → All (IsMessage max_bytes) (split_into_messages text max_bytes true)
unfolding split_into_messages
split_into_messages-IsMessage text max_bytes room =
    let whole : max 1 max_bytes ≡ max_bytes = omega arith in
    rw whole (pack_lines-IsMessage max_bytes _ (break_lines-Fits max_bytes (split_lines text) room))

-- So is every line that is sent without packing, where blank lines are kept.
pub split_into_messages-Fits :
    (text : Text) (max_bytes : ℕ)
    → 4 ≤ max_bytes
    → All (Fits max_bytes) (split_into_messages text max_bytes false)
unfolding split_into_messages
split_into_messages-Fits text max_bytes room =
    let whole : max 1 max_bytes ≡ max_bytes = omega arith in
    rw whole (drop_trailing-Fits max_bytes _ (break_lines-Fits max_bytes (split_lines text) room))
