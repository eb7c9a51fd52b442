-- ===== src/Segmentation/Tests.antt =====
-- The segmentation of a short row, and the theorem at it.
use ircfiber_site.Common.{
  ℕ, ◌*◌, ◌≤◌, ◌≡◌, refl, inl, inr, Bool, true, false, some, List, [], ◌∷◌, arith,
}
use ircfiber_site.Segmentation.{
  Seg, seg_cost, cells, is_valid, pick_glyph, pick_len, table, walk, dp_seg,
}
use ircfiber_site.Segmentation.Optimal.{dp_seg-optimal}

-- Two glyphs: one costs 5 for any length, the other 2 for each cell.
abbrev price : ℕ → ℕ → Bool → ℕ
price pos len true = 5
price pos len false = 2 * len

abbrev glyphs : List Bool
glyphs = true ∷ false ∷ []

abbrev cell_by_cell : List (Seg Bool)
cell_by_cell = (1, false) ∷ (1, false) ∷ (1, false) ∷ []

three_cells : dp_seg price glyphs 3 0 ≡ some (5, (3, true) ∷ [])
unfolding dp_seg table pick_len pick_glyph walk
three_cells = refl

capped : dp_seg price glyphs 3 1 ≡ some (6, cell_by_cell)
unfolding dp_seg table pick_len pick_glyph walk
capped = refl

dp_seg-optimal_example :
    (cost : ℕ) × (best : List (Seg Bool)) × (dp_seg price (true ∷ false ∷ []) 3 0
      ≡ some (cost, best))
    × (cost ≤ seg_cost price 0 cell_by_cell)
    × (is_valid 3 best ≡ true)
    × (seg_cost price 0 best ≡ cost)
unfolding cells seg_cost
dp_seg-optimal_example =
    dp_seg-optimal price true (false ∷ []) 0 3 cell_by_cell
      (
        omega arith,
        inl refl,
        inr (inl refl),
        (omega arith, inl refl, inr (inl refl), (omega arith, inl refl, inr (inl refl), tt)),
      )
      refl (omega arith)
