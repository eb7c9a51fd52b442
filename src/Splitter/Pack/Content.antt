-- ===== src/Splitter/Pack/Content.antt =====
-- messageSplitter.ts, `splitIntoMessages`: the characters of the messages.
use ircfiber_site.Common.{
  ℕ, ◌≡◌, refl, sym, ap, ◌∙◌, inl, inr, Bool, true, false, not, ◌||◌, List, [], ◌∷◌, ◌++◌,
  append-nil, append_assoc, arith, ◌==◌, Bool-cases, filter, concat, concat-append, concat-snoc,
  filter-append,
}
use ircfiber_site.Splitter.Bytes.{Text}
use ircfiber_site.Splitter.Break.Lossless.{concat-break_line}
use ircfiber_site.Splitter.Pack.{
  split_from, split_lines, expand, break_lines, drop_trailing, Packing, separator, flush_buf,
  overflows, join_line, pack_step, pack_loop, pack_lines, budget_of, split_into_messages,
}

-- Characters that end no line, and those that show.
abbrev pub not_break : ℕ → Bool
not_break c = not (c == 13 || c == 10)

abbrev pub is_ink : ℕ → Bool
is_ink c = not (c == 13 || c == 10 || c == b' ')

concat-split_from :
    (after_cr : Bool) (cur s : Text)
    → concat (split_from after_cr cur s) ≡ cur ++ filter not_break s
unfolding split_from
concat-split_from after_cr cur [] = refl
concat-split_from after_cr cur (c ∷ s) = ground (
  arith,
  concat-split_from false cur s,
  concat-split_from (c == 13) [] s,
  concat-split_from false (cur ++ c ∷ []) s,
  append_assoc cur (c ∷ []) (filter not_break s),
)

concat-expand : (budget : ℕ) (line : Text) → concat (expand budget line) ≡ line
unfolding expand
concat-expand budget line = ground (arith, concat-break_line line budget, append-nil line)

concat-break_lines :
    (budget : ℕ) (lines : List Text) → concat (break_lines budget lines) ≡ concat lines
unfolding break_lines
concat-break_lines budget [] = refl
concat-break_lines budget (line ∷ rest) =
    concat-append (expand budget line) (break_lines budget rest)
    ∙ rw (concat-expand budget line, concat-break_lines budget rest)

concat-drop_trailing : (lines : List Text) → concat (drop_trailing lines) ≡ concat lines
unfolding drop_trailing
concat-drop_trailing [] = refl
concat-drop_trailing (line ∷ lines) = ground (arith, concat-drop_trailing lines)

ink-separator : (buf : Text) → filter is_ink (separator buf) ≡ []
unfolding separator
ink-separator buf = ground arith

-- The characters that show, of all that the packing loop has taken in.
abbrev ink : Packing → Text
ink st = filter is_ink (concat st.messages ++ st.buf)

concat-flush_buf : (st : Packing) → concat (flush_buf st).messages ≡ concat st.messages ++ st.buf
unfolding flush_buf
concat-flush_buf st =
    ground (arith, concat-snoc st.messages st.buf, append-nil (concat st.messages))

flush_buf-buf : (st : Packing) → (flush_buf st).buf ≡ []
unfolding flush_buf
flush_buf-buf st = ground arith

ink-flush_buf : (st : Packing) → ink (flush_buf st) ≡ ink st
ink-flush_buf st =
    rw (flush_buf-buf st, append-nil (concat (flush_buf st).messages), concat-flush_buf st)

ink-join_line :
    (budget : ℕ) (line : Text) (st : Packing)
    → ink (join_line budget line st) ≡ ink st ++ filter is_ink line
unfolding join_line
ink-join_line budget line st = elim (Bool-cases (overflows budget line st)) [
  | inl new ↦ rw new (
      rw (concat-snoc st.messages st.buf)
        (filter-append is_ink (concat st.messages ++ st.buf) line))
  | inr old ↦ rw old (simp (← append_assoc) (simp (filter-append, ink-separator, append-nil)))
]

ink-pack_step :
    (budget : ℕ) (line : Text) (st : Packing)
    → ink (pack_step budget line st) ≡ ink st ++ filter is_ink line
unfolding pack_step
ink-pack_step budget [] st = ink-flush_buf st ∙ sym (append-nil (ink st))
ink-pack_step budget (c ∷ line) st = ink-join_line budget (c ∷ line) st

ink-pack_loop :
    (budget : ℕ) (lines : List Text) (st : Packing)
    → ink (pack_loop budget lines st) ≡ ink st ++ filter is_ink (concat lines)
unfolding pack_loop
ink-pack_loop budget [] st = sym (append-nil (ink st))
ink-pack_loop budget (line ∷ lines) st =
    ink-pack_loop budget lines (pack_step budget line st)
    ∙ rw (ink-pack_step budget line st, filter-append is_ink line (concat lines))
        (append_assoc (ink st) (filter is_ink line) (filter is_ink (concat lines)))

ink-pack_lines :
    (budget : ℕ) (lines : List Text)
    → filter is_ink (concat (pack_lines budget lines)) ≡ filter is_ink (concat lines)
unfolding pack_lines
ink-pack_lines budget lines =
    ap (filter is_ink) (concat-flush_buf _)
    ∙ ink-pack_loop budget lines (record { messages = []; buf = []; buf_bytes = 0 })

ink-not_break : (s : Text) → filter is_ink (filter not_break s) ≡ filter is_ink s
ink-not_break [] = refl
ink-not_break (c ∷ s) = ground (arith, ink-not_break s)

-- Without packing, the messages put together are the text without its line ends.
pub concat-split_into_messages :
    (text : Text) (max_bytes : ℕ)
    → concat (split_into_messages text max_bytes false) ≡ filter not_break text
unfolding split_into_messages
concat-split_into_messages text max_bytes =
    concat-drop_trailing (break_lines (budget_of max_bytes) (split_lines text))
    ∙ concat-break_lines (budget_of max_bytes) (split_lines text)
    ∙ concat-split_from false [] text

-- Packed or not, the messages hold the same characters as the text in the same order, blanks and
-- line ends aside.
pub ink-split_into_messages :
    (text : Text) (max_bytes : ℕ) (pack : Bool)
    → filter is_ink (concat (split_into_messages text max_bytes pack)) ≡ filter is_ink text
ink-split_into_messages text max_bytes false =
    ap (filter is_ink) (concat-split_into_messages text max_bytes) ∙ ink-not_break text
ink-split_into_messages text max_bytes true =
    unfold split_into_messages in
    ink-pack_lines (budget_of max_bytes) (break_lines (budget_of max_bytes) (split_lines text))
    ∙ ap (filter is_ink) (
        concat-break_lines (budget_of max_bytes) (split_lines text)
        ∙ concat-split_from false [] text)
    ∙ ink-not_break text
