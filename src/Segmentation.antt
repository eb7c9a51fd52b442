-- ===== src/Segmentation.antt =====
-- frontend/src/lib/segmentation.ts: the cheapest way to cover a row of cells by segments. Costs are
-- natural numbers.
pub mod Pick
pub mod Optimal
mod Tests
use ircfiber_site.Common.{
  ℕ, zero, suc, ◌+◌, ◌-◌, min, Bool, true, false, ◌&&◌, Option, none, some, List, [], ◌∷◌, ltb, leb,
  ◌==◌, if◌then◌else◌, drop,
}

-- `Seg<G>`
abbrev pub Seg {ℓ} : Type ℓ → Type ℓ
Seg G = ℕ × G

-- `INF`
abbrev pub inf : ℕ
inf = 1_000_000_000_000_000_000

-- `dp[pos]` and `back[pos]`, whose `next` is `pos + len`
pub record Best {ℓ} (G : Type ℓ) : Type ℓ where
  pub cost : ℕ
  pub choice : Option (Seg G)

-- `capL ? Math.min(capL, n - pos) : n - pos`
abbrev pub max_len : ℕ → ℕ → ℕ
max_len cap_l left = if cap_l == 0 then left else min cap_l left

module _ {ℓ} {G : Type ℓ} where
  -- `segCost`
  unfoldable pub seg_cost : (ℕ → ℕ → G → ℕ) → ℕ → List (Seg G) → ℕ
  seg_cost w pos [] = 0
  seg_cost w pos ((len, g) ∷ segs) = w pos len g + seg_cost w (pos + len) segs

  -- The sum that `isValid` computes, and its result.
  unfoldable pub cells : List (Seg G) → ℕ
  cells [] = 0
  cells ((len, g) ∷ segs) = len + cells segs

  unfoldable pub has_lengths : List (Seg G) → Bool
  has_lengths [] = true
  has_lengths ((len, g) ∷ segs) = if leb len 0 then false else has_lengths segs

  unfoldable pub is_valid : ℕ → List (Seg G) → Bool
  is_valid n segs = has_lengths segs && cells segs == n

  -- The loop over the glyphs.
  unfoldable pub pick_glyph : (G → ℕ) → List G → ℕ → Best G → Best G
  pick_glyph c [] len b = b
  pick_glyph c (g ∷ gs) len b =
      pick_glyph c gs len
        (if ltb (c g) b.cost then record { cost = c g; choice = some (len, g) } else b)

  -- The loop over the lengths, `dp[pos + len]` being the head of the list.
  unfoldable pub pick_len : (ℕ → ℕ → G → ℕ) → List G → ℕ → ℕ → ℕ → List (Best G) → Best G → Best G
  pick_len w gs pos len room [] b = b
  pick_len w gs pos len zero (d ∷ ds) b = b
  pick_len w gs pos len (suc room) (d ∷ ds) b =
      pick_len w gs pos (suc len) room ds
        (if leb inf d.cost then b else pick_glyph (λ g. w pos len g + d.cost) gs len b)

  -- The table from `n - k` to `n`.
  unfoldable pub table : (ℕ → ℕ → G → ℕ) → List G → ℕ → ℕ → ℕ → List (Best G)
  table w gs cap_l n zero = record { cost = 0; choice = none } ∷ []
  table w gs cap_l n (suc k) =
      let rest = table w gs cap_l n k in
      pick_len w gs (n - suc k) 1 (max_len cap_l (suc k)) rest
        (record { cost = inf; choice = none })
      ∷ rest

  abbrev pub first : List (Best G) → Best G
  first [] = record { cost = inf; choice = none }
  first (b ∷ bs) = b

  -- The reconstruction; every choice moves on by at least one cell, so `n` rounds are enough.
  unfoldable pub walk : ℕ → List (Best G) → List (Seg G)
  walk zero bs = []
  walk (suc fuel) bs = elim (first bs).choice [
    | none ↦ []
    | some (len, g) ↦ (len, g) ∷ walk fuel (drop len bs)
  ]

  -- `dpSeg`, which fails without glyphs
  unfoldable pub dp_seg : (ℕ → ℕ → G → ℕ) → List G → ℕ → ℕ → Option (ℕ × List (Seg G))
  dp_seg w [] n cap_l = none
  dp_seg w (g ∷ gs) n cap_l =
      let bs = table w (g ∷ gs) cap_l n n in some ((first bs).cost, walk n bs)
