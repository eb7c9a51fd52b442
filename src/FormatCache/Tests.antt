-- ===== src/FormatCache/Tests.antt =====
-- The memo tables on concrete texts, and their theorems at concrete inputs.
use Prim.Native.String.{String}
use ircfiber_site.Common.{ℕ, zero, suc, ◌<◌, ◌≡◌, refl, ap, ◌≢◌, List, [], ◌∷◌, arith, length, All}
use ircfiber_site.FormatCache.{
  lookup, store, memo_hit, memo, FormatCache, memo_render_text, clear_format_cache,
}
use ircfiber_site.FormatCache.Laws.{IsFresh, HasDistinctKeys, IsMemo, memo-IsMemo}

abbrev render : String → String
render s = String.◌∷◌ "!" s

abbrev warm : FormatCache
warm = record { render_cache = ("b", "!b") ∷ []; block_art_cache = [] }

second_call_hits :
    (memo_render_text render "a"
      (memo_render_text render "a" (clear_format_cache warm)).0).0.render_cache
    ≡ ("a", "!a") ∷ []
unfolding memo_render_text memo memo_hit lookup store clear_format_cache
second_call_hits = refl

-- A table of n texts, the longest first.
key_of : ℕ → String
key_of zero = String.[]
key_of (suc n) = String.◌∷◌ "k" (key_of n)

table : ℕ → List (String × String)
table zero = []
table (suc n) = (key_of (suc n), render (key_of (suc n))) ∷ table n

abbrev size : String → ℕ
size String.[] = 0
size (String.◌∷◌ c s) = suc (size s)

size-key_of : (n : ℕ) → size (key_of n) ≡ n
unfolding key_of
size-key_of zero = refl
size-key_of (suc n) = ap suc (size-key_of n)

key_of-ne : (m n : ℕ) → m < n → key_of m ≢ key_of n
key_of-ne m n h e = omega (arith, ap size e, size-key_of m, size-key_of n)

table-IsFresh : (n k : ℕ) → n < k → IsFresh (key_of k) (table n)
unfolding table
table-IsFresh zero k h = tt
table-IsFresh (suc n) k h = (key_of-ne (suc n) k h, table-IsFresh n k (omega arith))

table-IsMemo :
    (n : ℕ)
    → All (λ e. e.1 ≡ render e.0) (table n) × HasDistinctKeys (table n) × (length (table n) ≡ n)
unfolding table
table-IsMemo zero = (tt, tt, refl)
table-IsMemo (suc n) =
    let (coherent, distinct, long) = table-IsMemo n in
    ((refl, coherent), (table-IsFresh n (suc n) (omega arith), distinct), ap suc long)

full_table : IsMemo render (table 500)
full_table =
    let (coherent, distinct, long) = table-IsMemo 500 in
    record { coherent = coherent; distinct = distinct; bounded = omega arith }

memo-IsMemo_example :
    IsMemo render (memo render "b" warm.render_cache).0
    × ((memo render "b" warm.render_cache).1 ≡ "!b")
memo-IsMemo_example =
    memo-IsMemo render "b" warm.render_cache
      (record { coherent = (refl, tt); distinct = (tt, tt); bounded = omega arith })
