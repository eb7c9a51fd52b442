-- ===== src/Segmentation/Pick.antt =====
-- segmentation.ts: the two inner loops of `dpSeg`.
use mathlib.Core.Logic.{Lift}
use ircfiber_site.Common.{
  ℕ, zero, suc, ◌+◌, ◌≤◌, ◌<◌, ◌≡◌, refl, sym, ap, ◌∙◌, ◌⊎◌, inl, inr, some, List, [], ◌∷◌, arith,
  ltb, leb, if◌then◌else◌, leb→lt, Bool-cases, get_elem?,
}
use ircfiber_site.Segmentation.{inf, Best, pick_glyph, pick_len}

module _ {ℓ} {G : Type ℓ} where
  abbrev pub IsMember : G → List G → Type ℓ
  IsMember g [] = Lift {0, ℓ} ⊥
  IsMember g (h ∷ gs) = (g ≡ h) ⊎ IsMember g gs

  pick_glyph-le :
      (c : G → ℕ) (gs : List G) (len : ℕ) (b : Best G) → (pick_glyph c gs len b).cost ≤ b.cost
  unfolding pick_glyph
  pick_glyph-le c [] len b = omega arith
  pick_glyph-le c (g ∷ gs) len b =
      let b' = if ltb (c g) b.cost then record { cost = c g; choice = some (len, g) } else b in
      ground (arith, pick_glyph-le c gs len b')

  pick_glyph-least :
      (c : G → ℕ) (gs : List G) (len : ℕ) (b : Best G) (g : G)
      → IsMember g gs
      → (pick_glyph c gs len b).cost ≤ c g
  unfolding pick_glyph
  pick_glyph-least c [] len b g m = absurd m.lower
  pick_glyph-least c (h ∷ gs) len b g m =
      let b' = if ltb (c h) b.cost then record { cost = c h; choice = some (len, h) } else b in
      elim m [
        | inl e ↦ rw e (ground (arith, pick_glyph-le c gs len b'))
        | inr later ↦ pick_glyph-least c gs len b' g later
      ]

  -- What the loop over the glyphs leaves is what it had, or one of the glyphs at its cost.
  abbrev pub IsPicked : (G → ℕ) → List G → ℕ → Best G → Best G → Type ℓ
  IsPicked c gs len b r =
      (r ≡ b) ⊎ ((g : G) × IsMember g gs × (r ≡ record { cost = c g; choice = some (len, g) }))

  pick_glyph-IsPicked :
      (c : G → ℕ) (gs : List G) (len : ℕ) (b : Best G) → IsPicked c gs len b (pick_glyph c gs len b)
  unfolding pick_glyph
  pick_glyph-IsPicked c [] len b = inl refl
  pick_glyph-IsPicked c (h ∷ gs) len b = elim (Bool-cases (ltb (c h) b.cost)) [
    | inl less ↦
        rw less
          (elim (pick_glyph-IsPicked c gs len (record { cost = c h; choice = some (len, h) })) [
            | inl e ↦ inr (h, inl refl, e)
            | inr (g, m, e) ↦ inr (g, inr m, e)
          ])
    | inr more ↦ rw more (elim (pick_glyph-IsPicked c gs len b) [
      | inl e ↦ inl e
      | inr (g, m, e) ↦ inr (g, inr m, e)
    ])
  ]

  module _ (w : ℕ → ℕ → G → ℕ) (gs : List G) (pos : ℕ) where
    pick_len-le :
        (len room : ℕ) (ds : List (Best G)) (b : Best G)
        → (pick_len w gs pos len room ds b).cost ≤ b.cost
    unfolding pick_len
    pick_len-le len room [] b = omega arith
    pick_len-le len zero (d ∷ ds) b = omega arith
    pick_len-le len (suc room) (d ∷ ds) b =
        let picked = pick_glyph (λ g. w pos len g + d.cost) gs len b in
        let b' = if leb inf d.cost then b else picked in
        ground (
          arith,
          pick_len-le (suc len) room ds b',
          pick_glyph-le (λ g. w pos len g + d.cost) gs len b,
        )

    -- The loop over the lengths takes the least of all choices within its room.
    pub pick_len-least :
        (len room i : ℕ) (ds : List (Best G)) (b d : Best G) (g : G)
        → get_elem? ds i ≡ some d
        → d.cost < inf
        → i < room
        → IsMember g gs
        → (pick_len w gs pos len room ds b).cost ≤ w pos (len + i) g + d.cost
    unfolding pick_len
    pick_len-least len room i [] b d g at low fits m = absurd (ground (arith, at))
    pick_len-least len zero i (x ∷ ds) b d g at low fits m = absurd (omega arith)
    pick_len-least len (suc room) zero (x ∷ ds) b d g at low fits m =
        let picked = pick_glyph (λ g. w pos len g + x.cost) gs len b in
        let b' = if leb inf x.cost then b else picked in
        let here : w pos (len + 0) g ≡ w pos len g = ap (λ l. w pos l g) (omega arith) in
        ground (
          arith,
          at,
          here,
          pick_len-le (suc len) room ds b',
          pick_glyph-least (λ g. w pos len g + x.cost) gs len b g m,
        )
    pick_len-least len (suc room) (suc i) (x ∷ ds) b d g at low fits m =
        let picked = pick_glyph (λ g. w pos len g + x.cost) gs len b in
        let b' = if leb inf x.cost then b else picked in
        let there : w pos (suc len + i) g ≡ w pos (len + suc i) g =
          ap (λ l. w pos l g) (omega arith) in
        rw (sym there) (pick_len-least (suc len) room i ds b' d g at low (omega arith) m)

    -- What the loop over the lengths leaves is what it had, or one choice at its cost.
    abbrev pub IsChoice : ℕ → ℕ → List (Best G) → Best G → Best G → Type ℓ
    IsChoice len room ds b r =
        (r ≡ b)
        ⊎ ((i : ℕ) × (d : Best G) × (g : G) × (get_elem? ds i ≡ some d)
            × (d.cost < inf)
            × (i < room)
            × (r ≡ record { cost = w pos (len + i) g + d.cost; choice = some (len + i, g) }))

    shift :
        (len room : ℕ) (x : Best G) (ds : List (Best G)) (b r : Best G)
        → IsChoice (suc len) room ds b r
        → IsChoice len (suc room) (x ∷ ds) b r
    shift len room x ds b r (inl e) = inl e
    shift len room x ds b r (inr (i, d, g, at, low, fits, e)) =
        let same : suc len + i ≡ len + suc i = omega arith in
        inr (
          suc i,
          d,
          g,
          at,
          low,
          omega arith,
          rw e (ap (λ l. record { cost = w pos l g + d.cost; choice = some (l, g) }) same),
        )

    pub pick_len-IsChoice :
        (len room : ℕ) (ds : List (Best G)) (b : Best G)
        → IsChoice len room ds b (pick_len w gs pos len room ds b)
    unfolding pick_len
    pick_len-IsChoice len room [] b = inl refl
    pick_len-IsChoice len zero (x ∷ ds) b = inl refl
    pick_len-IsChoice len (suc room) (x ∷ ds) b = elim (Bool-cases (leb inf x.cost)) [
      | inl high ↦ rw high (shift len room x ds b _ (pick_len-IsChoice (suc len) room ds b))
      | inr low ↦ rw low (
          let c : G → ℕ = λ g. w pos len g + x.cost in
          let picked = pick_glyph c gs len b in
          let same : len + 0 ≡ len = omega arith in
          elim (shift len room x ds picked _ (pick_len-IsChoice (suc len) room ds picked)) [
            | inr later ↦ inr later
            | inl kept ↦ elim (pick_glyph-IsPicked c gs len b) [
              | inl e ↦ inl (kept ∙ e)
              | inr (g, m, e) ↦ inr (
                0,
                x,
                g,
                refl,
                leb→lt inf x.cost low,
                omega arith,
                kept
                    ∙ e
                    ∙ ap (λ l. record { cost = w pos l g + x.cost; choice = some (l, g) })
                        (sym same),
              )
            ]
          ])
    ]
