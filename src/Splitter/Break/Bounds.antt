-- ===== src/Splitter/Break/Bounds.antt =====
-- messageSplitter.ts, `breakLine`: the bytes of the parts.
use ircfiber_site.Common.{
  ℕ, ◌+◌, ◌≤◌, ◌<◌, ◌≡◌, refl, ◌≢◌, ◌⊎◌, inl, inr, List, [], ◌∷◌, ◌++◌, arith, length,
  length-append, length-take, All, All-append, All-map,
}
use ircfiber_site.Splitter.Bytes.{
  Text, char_bytes, chars_bytes, char_bytes_bounds, chars_bytes-append, chars_bytes-take-drop,
}
use ircfiber_site.Splitter.Break.{
  Breaking, emit, append_char, cut_at, cut_chunk, flush_fragment, place, break_step, break_loop,
  fresh, finish, break_line,
}
use ircfiber_site.Splitter.Break.Cases.{place_cases, break_step_cases}

-- A part is not empty, and fits the limit unless it is one character that is itself too wide.
abbrev pub IsPart : ℕ → Text → Type 0
IsPart limit part =
    (0 < length part)
    × ((chars_bytes part ≤ limit) ⊎ ((length part ≡ 1) × (limit < chars_bytes part)))

-- The loop's invariant.
pub record IsBreaking (limit : ℕ) (st : Breaking) : Type 0 where
  pub parts : All (IsPart limit) st.out
  pub counted : st.bytes ≡ chars_bytes st.chunk
  pub within : st.bytes ≤ limit
  pub marked : st.last_space ≤ length st.chunk

snoc-IsPart :
    (limit : ℕ) (out : List Text) (part : Text)
    → All (IsPart limit) out
    → IsPart limit part
    → All (IsPart limit) (out ++ part ∷ [])
snoc-IsPart limit out part h p = All-append (IsPart limit) out (part ∷ []) h (p, tt)

emit-IsBreaking :
    (limit ch : ℕ) (st : Breaking)
    → limit < char_bytes ch
    → IsBreaking limit st
    → IsBreaking limit (emit (ch ∷ []) st)
unfolding chars_bytes
emit-IsBreaking limit ch st wide v = record {
  parts = snoc-IsPart limit st.out (ch ∷ []) v.parts (omega arith, inr (refl, omega arith));
  counted = v.counted;
  within = v.within;
  marked = v.marked;
}

append_char-IsBreaking :
    (limit ch : ℕ) (st : Breaking)
    → st.bytes + char_bytes ch ≤ limit
    → IsBreaking limit st
    → IsBreaking limit (append_char ch st)
unfolding append_char chars_bytes
append_char-IsBreaking limit ch st fits v =
    ground (arith, chars_bytes-append st.chunk (ch ∷ []), length-append st.chunk (ch ∷ []))

-- A chunk that is not empty is cut into a part that is not empty.
cut_at_bounds :
    (st : Breaking)
    → st.chunk ≢ []
    → st.last_space ≤ length st.chunk
    → (0 < cut_at st) × (cut_at st ≤ length st.chunk)
unfolding cut_at
cut_at_bounds st h m = ground arith

cut_chunk-IsBreaking :
    (limit : ℕ) (st : Breaking)
    → st.chunk ≢ []
    → IsBreaking limit st
    → IsBreaking limit (cut_chunk st)
unfolding cut_chunk
cut_chunk-IsBreaking limit st h v =
    let cut = cut_at_bounds st h v.marked in
    let whole = chars_bytes-take-drop (cut_at st) st.chunk in
    let size = length-take (cut_at st) st.chunk in
    record {
      parts = snoc-IsPart limit st.out _ v.parts (omega arith, inl (omega arith));
      counted = refl;
      within = omega arith;
      marked = omega arith;
    }

chunk-IsPart :
    (limit : ℕ) (st : Breaking) → st.chunk ≢ [] → IsBreaking limit st → IsPart limit st.chunk
chunk-IsPart limit st h v = (ground arith, inl (omega arith))

flush_fragment-IsBreaking :
    (limit w : ℕ) (st : Breaking)
    → st.last_space ≡ 0
    → IsBreaking limit st
    → IsBreaking limit (flush_fragment limit w st)
unfolding flush_fragment chars_bytes
flush_fragment-IsBreaking limit w st z v =
    ground (arith, snoc-IsPart limit st.out st.chunk v.parts, chunk-IsPart limit st)

flush_fragment-bytes :
    (limit w : ℕ) (st : Breaking)
    → IsBreaking limit st
    → limit < (flush_fragment limit w st).bytes + w
    → (flush_fragment limit w st).bytes ≡ 0
unfolding flush_fragment chars_bytes
flush_fragment-bytes limit w st v h = ground arith

cut_chunk-last_space : (st : Breaking) → (cut_chunk st).last_space ≡ 0
unfolding cut_chunk
cut_chunk-last_space st = refl

empty_room :
    (limit ch : ℕ) (st : Breaking)
    → st.chunk ≡ []
    → limit < st.bytes + char_bytes ch
    → IsBreaking limit st
    → limit < char_bytes ch
unfolding chars_bytes
empty_room limit ch st e wide v = ground arith

part_fits :
    (limit : ℕ) (part : Text)
    → 4 ≤ limit
    → (chars_bytes part ≤ limit) ⊎ ((length part ≡ 1) × (limit < chars_bytes part))
    → chars_bytes part ≤ limit
unfolding chars_bytes
part_fits limit [] room h = omega arith
part_fits limit (c ∷ []) room h = omega (arith, (char_bytes_bounds c).1)
part_fits limit (c ∷ d ∷ part) room h = ground arith

place-IsBreaking :
    (limit ch : ℕ) (st : Breaking)
    → (limit < st.bytes + char_bytes ch → st.bytes ≡ 0)
    → IsBreaking limit st
    → IsBreaking limit (place limit ch st)
place-IsBreaking limit ch st bare v =
    place_cases (IsBreaking limit) limit ch st
      (λ wide. let zero_bytes = bare wide in emit-IsBreaking limit ch st (omega arith) v)
      (λ fits. append_char-IsBreaking limit ch st fits v)

break_step-IsBreaking :
    (limit ch : ℕ) (st : Breaking) → IsBreaking limit st → IsBreaking limit (break_step limit ch st)
break_step-IsBreaking limit ch st v =
    break_step_cases (IsBreaking limit) limit ch st
      (λ wide e. emit-IsBreaking limit ch st (empty_room limit ch st e wide v) v)
      (λ _ h.
        let cut = cut_chunk-IsBreaking limit st h v in
        place-IsBreaking limit ch _ (flush_fragment-bytes limit (char_bytes ch) _ cut)
          (flush_fragment-IsBreaking limit (char_bytes ch) _ (cut_chunk-last_space st) cut))
      (λ fits. append_char-IsBreaking limit ch st fits v)

break_loop-IsBreaking :
    (limit : ℕ) (line : Text) (st : Breaking)
    → IsBreaking limit st
    → IsBreaking limit (break_loop limit line st)
unfolding break_loop
break_loop-IsBreaking limit [] st v = v
break_loop-IsBreaking limit (ch ∷ line) st v =
    break_loop-IsBreaking limit line (break_step limit ch st) (break_step-IsBreaking limit ch st v)

finish-IsPart : (limit : ℕ) (st : Breaking) → IsBreaking limit st → All (IsPart limit) (finish st)
unfolding finish
finish-IsPart limit st v =
    ground (arith, snoc-IsPart limit st.out st.chunk v.parts, chunk-IsPart limit st)

fresh-IsBreaking : (limit : ℕ) → IsBreaking limit fresh
unfolding chars_bytes
fresh-IsBreaking limit = record {
  parts = tt;
  counted = refl;
  within = omega arith;
  marked = omega arith;
}

-- Every part of a broken line holds at least one code point, and costs at most `limit` bytes
-- unless it is a single code point that alone costs more.
pub break_line-IsPart : (line : Text) (limit : ℕ) → All (IsPart limit) (break_line line limit)
unfolding break_line
break_line-IsPart line limit =
    finish-IsPart limit _ (break_loop-IsBreaking limit line fresh (fresh-IsBreaking limit))

-- With room for any code point, every part fits.
pub break_line-fits :
    (line : Text) (limit : ℕ)
    → 4 ≤ limit
    → All (λ part. (0 < length part) × (chars_bytes part ≤ limit)) (break_line line limit)
break_line-fits line limit room =
    All-map (IsPart limit) (λ part. (0 < length part) × (chars_bytes part ≤ limit))
      (λ part p. (p.0, part_fits limit part room p.1)) (break_line line limit)
      (break_line-IsPart line limit)
