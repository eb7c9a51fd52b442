-- ===== src/Splitter/Break/Lossless.antt =====
-- messageSplitter.ts, `breakLine`: the parts put together.
use ircfiber_site.Common.{
  ℕ, ◌+◌, ◌<◌, ◌≡◌, sym, ap, ◌∙◌, [], ◌∷◌, ◌++◌, append-nil, append_assoc, arith, take-append-drop,
  concat, concat-snoc,
}
use ircfiber_site.Splitter.Bytes.{Text, char_bytes}
use ircfiber_site.Splitter.Break.{
  Breaking, emit, append_char, cut_at, cut_chunk, flush_fragment, place, break_step, break_loop,
  fresh, finish, break_line,
}
use ircfiber_site.Splitter.Break.Cases.{place_cases, break_step_cases}

-- All the text that the loop has taken in: the parts, then the chunk.
abbrev pub consumed : Breaking → Text
consumed st = concat st.out ++ st.chunk

consumed-append_char :
    (ch : ℕ) (st : Breaking) → consumed (append_char ch st) ≡ consumed st ++ ch ∷ []
unfolding append_char
consumed-append_char ch st = sym (append_assoc (concat st.out) st.chunk (ch ∷ []))

consumed-cut_chunk : (st : Breaking) → consumed (cut_chunk st) ≡ consumed st
unfolding cut_chunk
consumed-cut_chunk st = rw (concat-snoc st.out) (
    append_assoc (concat st.out) _ _
    ∙ ap (λ t. concat st.out ++ t) (take-append-drop (cut_at st) st.chunk))

consumed-flush_fragment :
    (limit w : ℕ) (st : Breaking) → consumed (flush_fragment limit w st) ≡ consumed st
unfolding flush_fragment
consumed-flush_fragment limit w st =
    ground (arith, concat-snoc st.out st.chunk, append-nil (concat st.out ++ st.chunk))

concat-finish : (st : Breaking) → concat (finish st) ≡ consumed st
unfolding finish
concat-finish st = ground (arith, concat-snoc st.out st.chunk, append-nil (concat st.out))

-- A character that fits nowhere finds the chunk empty.
pub flush_fragment-chunk :
    (limit w : ℕ) (st : Breaking)
    → limit < (flush_fragment limit w st).bytes + w
    → (flush_fragment limit w st).chunk ≡ []
unfolding flush_fragment
flush_fragment-chunk limit w st h = ground arith

consumed-emit :
    (ch : ℕ) (st : Breaking) → st.chunk ≡ [] → consumed (emit (ch ∷ []) st) ≡ consumed st ++ ch ∷ []
consumed-emit ch st e =
    rw (e, concat-snoc st.out (ch ∷ []), append-nil (concat st.out))
      (append-nil (concat st.out ++ ch ∷ []))

consumed-place :
    (limit ch : ℕ) (st : Breaking)
    → (limit < st.bytes + char_bytes ch → st.chunk ≡ [])
    → consumed (place limit ch st) ≡ consumed st ++ ch ∷ []
consumed-place limit ch st h =
    place_cases (λ r. consumed r ≡ consumed st ++ ch ∷ []) limit ch st
      (λ wide. consumed-emit ch st (h wide)) (λ _. consumed-append_char ch st)

consumed-break_step :
    (limit ch : ℕ) (st : Breaking) → consumed (break_step limit ch st) ≡ consumed st ++ ch ∷ []
consumed-break_step limit ch st =
    break_step_cases (λ r. consumed r ≡ consumed st ++ ch ∷ []) limit ch st
      (λ _ e. consumed-emit ch st e)
      (λ _ _.
        consumed-place limit ch _ (flush_fragment-chunk limit (char_bytes ch) (cut_chunk st))
        ∙ ap (λ t. t ++ ch ∷ [])
            (consumed-flush_fragment limit (char_bytes ch) (cut_chunk st) ∙ consumed-cut_chunk st))
      (λ _. consumed-append_char ch st)

consumed-break_loop :
    (limit : ℕ) (line : Text) (st : Breaking)
    → consumed (break_loop limit line st) ≡ consumed st ++ line
unfolding break_loop
consumed-break_loop limit [] st = sym (append-nil (consumed st))
consumed-break_loop limit (ch ∷ line) st =
    consumed-break_loop limit line (break_step limit ch st)
    ∙ ap (λ t. t ++ line) (consumed-break_step limit ch st)
    ∙ append_assoc (consumed st) (ch ∷ []) line

-- The parts of a broken line, concatenated in order, are the line itself, for every line and
-- every limit.
pub concat-break_line : (line : Text) (limit : ℕ) → concat (break_line line limit) ≡ line
unfolding break_line
concat-break_line line limit =
    concat-finish (break_loop limit line fresh) ∙ consumed-break_loop limit line fresh
