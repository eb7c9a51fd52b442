-- ===== src/Segmentation/Optimal.antt =====
-- segmentation.ts: the table of `dpSeg` and the walk through it, beside any segmentation.
use mathlib.Core.Option.{some-injective}
use ircfiber_site.Common.{
  ℕ, zero, suc, ◌+◌, ◌-◌, ◌≤◌, ◌<◌, ◌≡◌, refl, sym, ap, ◌∙◌, ◌⊎◌, inl, inr, true, none, some, List,
  [], ◌∷◌, arith, get_elem?, drop,
}
use ircfiber_site.Segmentation.{
  Seg, inf, Best, max_len, seg_cost, cells, has_lengths, is_valid, table, first, walk, dp_seg,
}
use ircfiber_site.Segmentation.Pick.{IsMember, pick_len-least, pick_len-IsChoice}

module _ {ℓ} {G : Type ℓ} (w : ℕ → ℕ → G → ℕ) (gs : List G) (cap_l n : ℕ) where
  -- The table for the last k cells.
  abbrev last : ℕ → List (Best G)
  last k = table w gs cap_l n k

  abbrev least : ℕ → ℕ
  least k = (first (last k)).cost

  drop-table : (j k m : ℕ) → m ≡ j + k → drop j (last m) ≡ last k
  unfolding table
  drop-table zero k m e = ap last (omega arith)
  drop-table (suc j) k zero e = absurd (omega arith)
  drop-table (suc j) k (suc m) e = drop-table j k m (omega arith)

  get_elem?-first : (m : ℕ) → get_elem? (last m) 0 ≡ some (first (last m))
  unfolding table
  get_elem?-first zero = refl
  get_elem?-first (suc m) = refl

  get_elem?-table : (j k m : ℕ) → m ≡ j + k → get_elem? (last m) j ≡ some (first (last k))
  unfolding table
  get_elem?-table zero k m e =
      get_elem?-first m ∙ ap (λ (x : ℕ). some (first (last x))) (omega arith)
  get_elem?-table (suc j) k zero e = absurd (omega arith)
  get_elem?-table (suc j) k (suc m) e = get_elem?-table j k m (omega arith)

  -- Lengths from one to the cap, and glyphs that may be used.
  abbrev pub IsUsable : List (Seg G) → Type ℓ
  IsUsable [] = Unit {ℓ}
  IsUsable ((len, g) ∷ segs) =
      (0 < len) × ((cap_l ≡ 0) ⊎ (len ≤ cap_l)) × IsMember g gs × IsUsable segs

  in_room : (i k : ℕ) → suc i ≤ suc k → ((cap_l ≡ 0) ⊎ (suc i ≤ cap_l)) → i < max_len cap_l (suc k)
  in_room i k h (inl none_set) = ground arith
  in_room i k h (inr capped) = ground arith

  -- Every choice that is within the cap bounds the entry before it.
  least-suc :
      (i rest k : ℕ) (g : G)
      → k ≡ i + rest
      → ((cap_l ≡ 0) ⊎ (suc i ≤ cap_l))
      → IsMember g gs
      → least rest < inf
      → least (suc k) ≤ w (n - suc k) (1 + i) g + least rest
  unfolding table
  least-suc i rest k g e u m low =
      pick_len-least w gs (n - suc k) 1 (max_len cap_l (suc k)) i (last k)
        (record { cost = inf; choice = none }) (first (last rest)) g (get_elem?-table i rest k e)
        low (in_room i k (omega arith) u) m

  least-table :
      (segs : List (Seg G)) (k : ℕ)
      → IsUsable segs
      → cells segs ≡ k
      → k ≤ n
      → seg_cost w (n - k) segs < inf
      → least k ≤ seg_cost w (n - k) segs
  unfolding seg_cost cells table
  least-table [] zero u e h low = omega arith
  least-table [] (suc k) u e h low = absurd (omega arith)
  least-table ((zero, g) ∷ segs) k u e h low = absurd (omega arith)
  least-table ((suc i, g) ∷ segs) zero u e h low = absurd (omega arith)
  least-table ((suc i, g) ∷ segs) (suc k) u e h low =
      let rest : ℕ = cells segs in
      let pos : n - suc k + suc i ≡ n - rest = omega arith in
      let later : seg_cost w (n - suc k + suc i) segs ≡ seg_cost w (n - rest) segs =
        ap (λ (p : ℕ). seg_cost w p segs) pos in
      let below = least-table segs rest u.3 refl (omega arith) (omega (arith, later)) in
      let one : 1 + i ≡ suc i = omega arith in
      let chosen = least-suc i rest k g (omega arith) u.1 u.2 (omega (arith, below, later)) in
      omega (arith, below, chosen, later, ap (λ (l : ℕ). w (n - suc k) l g) one)

  room-le : (i k : ℕ) → i < max_len cap_l (suc k) → i ≤ k
  room-le i k h = ground arith

  -- An entry is unset, or it is a choice in front of another entry.
  first-cases :
      (k : ℕ)
      → (first (last (suc k)) ≡ record { cost = inf; choice = none })
        ⊎ ((i : ℕ) × (rest : ℕ) × (g : G) × (k ≡ i + rest)
            × (least rest < inf)
            × (first (last (suc k))
                ≡ record { cost = w (n - suc k) (suc i) g + least rest; choice = some (suc i, g) }))
  unfolding table
  first-cases k =
      elim (pick_len-IsChoice w gs (n - suc k) 1 (max_len cap_l (suc k)) (last k)
        (record { cost = inf; choice = none })) [
          | inl unset ↦ inl unset
          | inr (i, d, g, at, below, fits, e) ↦
              let within = room-le i k fits in
              let sum : k ≡ i + (k - i) = omega arith in
              let same : d ≡ first (last (k - i)) =
                some-injective _ _ (sym at ∙ get_elem?-table i (k - i) k sum) in
              let one : 1 + i ≡ suc i = omega arith in
              inr (
                i,
                k - i,
                g,
                sum,
                omega (arith, below, ap (λ (x : Best G). x.cost) same),
                e
                    ∙ ap
                        (λ (x : Best G). record {
                          cost = w (n - suc k) (1 + i) g + x.cost;
                          choice = some (1 + i, g);
                        })
                        same
                    ∙ ap
                        (λ (l : ℕ). record {
                          cost = w (n - suc k) l g + least (k - i);
                          choice = some (l, g);
                        })
                        one,
              )
        ]

  walk-step :
      (fuel c len : ℕ) (g : G) (bs : List (Best G))
      → first bs ≡ record { cost = c; choice = some (len, g) }
      → walk (suc fuel) bs ≡ (len, g) ∷ walk fuel (drop len bs)
  unfolding walk
  walk-step fuel c len g bs e =
      let chosen : (first bs).choice ≡ some (len, g) = ap (λ (b : Best G). b.choice) e in
      ground (arith, chosen)

  -- A segmentation of the last k cells at the least cost.
  abbrev IsRealized : ℕ → List (Seg G) → Type 0
  IsRealized k segs =
      (cells segs ≡ k) × (has_lengths segs ≡ true) × (seg_cost w (n - k) segs ≡ least k)

  cons-IsRealized :
      (i rest k : ℕ) (g : G) (segs : List (Seg G))
      → k ≡ i + rest
      → suc k ≤ n
      → first (last (suc k))
        ≡ record { cost = w (n - suc k) (suc i) g + least rest; choice = some (suc i, g) }
      → IsRealized rest segs
      → IsRealized (suc k) ((suc i, g) ∷ segs)
  unfolding cells has_lengths seg_cost
  cons-IsRealized i rest k g segs sum le e (c, l, s) =
      let pos : n - suc k + suc i ≡ n - rest = omega arith in
      let later : seg_cost w (n - suc k + suc i) segs ≡ seg_cost w (n - rest) segs =
        ap (λ (p : ℕ). seg_cost w p segs) pos in
      let total : least (suc k) ≡ w (n - suc k) (suc i) g + least rest =
        ap (λ (b : Best G). b.cost) e in
      (omega arith, ground (arith, l), omega (arith, later, s, total))

  walk-table : (fuel k : ℕ) → k ≤ fuel → k ≤ n → least k < inf → IsRealized k (walk fuel (last k))
  unfolding walk cells has_lengths seg_cost table
  walk-table zero zero h le low = (refl, refl, refl)
  walk-table (suc fuel) zero h le low = (refl, refl, refl)
  walk-table zero (suc k) h le low = absurd (omega arith)
  walk-table (suc fuel) (suc k) h le low = elim (first-cases k) [
    | inl unset ↦ absurd (omega (arith, ap (λ (b : Best G). b.cost) unset))
    | inr (i, rest, g, sum, below, e) ↦
        let behind : drop (suc i) (last (suc k)) ≡ last rest =
          drop-table (suc i) rest (suc k) (omega arith) in
        rw (walk-step fuel _ (suc i) g (last (suc k)) e, behind)
          (cons-IsRealized i rest k g (walk fuel (last rest)) sum le e
            (walk-table fuel rest (omega arith) (omega arith) below))
  ]

module _ {ℓ} {G : Type ℓ} (w : ℕ → ℕ → G → ℕ) (g : G) (gs : List G) (cap_l n : ℕ) where
  -- Given some glyphs and a segmentation of the n cells into lengths within the cap and glyphs from
  -- the list, at a cost under the bound that stands for infinity, `dpSeg` returns a cost that is no
  -- larger, and segments that are valid and cost just as much.
  pub dp_seg-optimal :
      (segs : List (Seg G))
      → IsUsable w (g ∷ gs) cap_l n segs
      → cells segs ≡ n
      → seg_cost w 0 segs < inf
      → (cost : ℕ) × (best : List (Seg G)) × (dp_seg w (g ∷ gs) n cap_l ≡ some (cost, best))
        × (cost ≤ seg_cost w 0 segs)
        × (is_valid n best ≡ true)
        × (seg_cost w 0 best ≡ cost)
  unfolding dp_seg is_valid
  dp_seg-optimal segs u whole low =
      let start : n - n ≡ 0 = omega arith in
      let least_n : least w (g ∷ gs) cap_l n n ≤ seg_cost w 0 segs = rw⁻¹ start (
        least-table w (g ∷ gs) cap_l n segs n u whole (omega arith)
          (omega (arith, ap (λ (p : ℕ). seg_cost w p segs) start))) in
      let (sum, lengths, cost) =
        walk-table w (g ∷ gs) cap_l n n n (omega arith) (omega arith) (omega (arith, least_n)) in
      (
        _,
        _,
        refl,
        least_n,
        ground (arith, sum, lengths),
        ap (λ (p : ℕ). seg_cost w p (walk n (table w (g ∷ gs) cap_l n n))) (sym start) ∙ cost,
      )
