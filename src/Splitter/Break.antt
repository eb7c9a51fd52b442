-- ===== src/Splitter/Break.antt =====
-- messageSplitter.ts, `breakLine`: one line into parts within the byte budget.
pub mod Cases
pub mod Lossless
pub mod Bounds
use ircfiber_site.Common.{
  ℕ, ◌+◌, List, [], ◌∷◌, ◌++◌, ltb, ◌==◌, if◌then◌else◌, length, take, drop, ◌&&◌, not, is_empty,
}
use ircfiber_site.Splitter.Bytes.{Text, char_bytes, chars_bytes}

-- The variables of the loop. `last_space` is the index in `chunk` just after the last space seen;
-- 0 stands for the source's -1, since it is only tested for being positive.
pub record Breaking : Type 0 where
  pub out : List Text
  pub chunk : Text
  pub bytes : ℕ
  pub last_space : ℕ

-- `out.push(part)`
abbrev pub emit : Text → Breaking → Breaking
emit part st = record st { out = st.out ++ part ∷ [] }

-- `chunk.push(ch); bytes += w; if (ch === ' ') lastSpace = chunk.length;`
pub append_char : ℕ → Breaking → Breaking
append_char ch st = record st {
  chunk = st.chunk ++ ch ∷ [];
  bytes = st.bytes + char_bytes ch;
  last_space = if ch == b' ' then length st.chunk + 1 else st.last_space;
}

-- The cut at the last space, or at the end of the chunk.
pub cut_at : Breaking → ℕ
cut_at st = if ltb 0 st.last_space then st.last_space else length st.chunk

pub cut_chunk : Breaking → Breaking
cut_chunk st = record {
  out = st.out ++ take (cut_at st) st.chunk ∷ [];
  chunk = drop (cut_at st) st.chunk;
  bytes = chars_bytes (drop (cut_at st) st.chunk);
  last_space = 0;
}

-- The carried-over fragment is hard-broken if it leaves no room for the next character.
pub flush_fragment : ℕ → ℕ → Breaking → Breaking
flush_fragment limit w st =
    if ltb limit (st.bytes + w) && not (is_empty st.chunk)
    then record st { out = st.out ++ st.chunk ∷ []; chunk = []; bytes = 0 }
    else st

-- The last test of the round: a character that still does not fit goes out alone.
pub place : ℕ → ℕ → Breaking → Breaking
place limit ch st =
    if ltb limit (st.bytes + char_bytes ch) then emit (ch ∷ []) st else append_char ch st

-- One round of the loop over the code points.
pub break_step : ℕ → ℕ → Breaking → Breaking
break_step limit ch st =
    if ltb limit (st.bytes + char_bytes ch)
    then (if is_empty st.chunk
        then emit (ch ∷ []) st
        else place limit ch (flush_fragment limit (char_bytes ch) (cut_chunk st)))
    else append_char ch st

pub break_loop : ℕ → Text → Breaking → Breaking
break_loop limit [] st = st
break_loop limit (ch ∷ line) st = break_loop limit line (break_step limit ch st)

abbrev pub fresh : Breaking
fresh = record { out = []; chunk = []; bytes = 0; last_space = 0 }

pub finish : Breaking → List Text
finish st = if is_empty st.chunk then st.out else st.out ++ st.chunk ∷ []

unfoldable pub break_line : Text → ℕ → List Text
unfolding break_loop break_step append_char cut_at cut_chunk flush_fragment place finish
break_line line limit = finish (break_loop limit line fresh)
