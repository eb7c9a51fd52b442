-- ===== src/FormatCache.antt =====
-- frontend/src/lib/formatCache.ts: the memo tables of the message formatter. A `Map` is an
-- association list in insertion order, oldest entry first.
pub mod Laws
mod Tests
use Prim.Native.String.{String}
use text.Mathlib.Text.{◌==◌ as str_eq}
use ircfiber_site.Common.{
  ℕ, Bool, Option, none, some, List, [], ◌∷◌, ◌++◌, leb, if◌then◌else◌, length,
}

abbrev pub max_entries : ℕ
max_entries = 500

module _ {ℓ} {V : Type ℓ} where
  -- `map.get(key)`
  unfoldable pub lookup : String → List (String × V) → Option V
  lookup key [] = none
  lookup key ((k, v) ∷ m) = if str_eq k key then some v else lookup key m

  -- `evictOldest(map)`: the first key in insertion order goes.
  unfoldable pub evict_oldest : List (String × V) → List (String × V)
  evict_oldest [] = []
  evict_oldest (entry ∷ m) = m

  -- A miss: make room if the table is full, and insert the result at the end.
  unfoldable pub store : String → V → List (String × V) → List (String × V)
  unfolding evict_oldest
  store key v m = (if leb max_entries (length m) then evict_oldest m else m) ++ (key, v) ∷ []

  unfoldable pub memo_hit : String → V → List (String × V) → Option V → List (String × V) × V
  memo_hit text result m (some hit) = (m, hit)
  memo_hit text result m none = (store text result m, result)

  -- The body that `memoRenderText` and `memoBlockArt` share.
  unfoldable pub memo : (String → V) → String → List (String × V) → List (String × V) × V
  memo compute text m =
      if str_eq text "" then (m, compute text) else memo_hit text (compute text) m (lookup text m)

-- The two tables of the module.
pub record FormatCache : Type 0 where
  pub render_cache : List (String × String)
  pub block_art_cache : List (String × Bool)

pub memo_render_text : (String → String) → String → FormatCache → FormatCache × String
memo_render_text render text c =
    let (m, out) = memo render text c.render_cache in (record c { render_cache = m }, out)

unfoldable pub memo_block_art : (String → Bool) → String → FormatCache → FormatCache × Bool
memo_block_art detect text c =
    let (m, out) = memo detect text c.block_art_cache in (record c { block_art_cache = m }, out)

pub clear_format_cache : FormatCache → FormatCache
clear_format_cache c = record { render_cache = []; block_art_cache = [] }
