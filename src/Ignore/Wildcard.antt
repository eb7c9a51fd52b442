-- ===== src/Ignore/Wildcard.antt =====
-- ignore.ts: the regular expression that `checkWildcard` makes of a pattern, beside the
-- pattern.
use ircfiber_site.Common.{
  ℕ, ◌≡◌, refl, sym, ap, ◌∙◌, ◌≢◌, ◌↔◌, inl, inr, Bool, true, false, not, [], ◌∷◌, arith, ◌==◌,
  if◌then◌else◌, ==_iff, Bool-cases,
}
use ircfiber_site.Ignore.{Text, is_line_break, match_star, match_unit, matches}

module _ (same_letter : ℕ → ℕ → Bool) where
  -- What a unit of a pattern that is no `*` stands for.
  unfoldable pub accepts : ℕ → ℕ → Bool
  accepts c d = if c == b'?' then not (is_line_break d) else same_letter c d

  -- A `*` stands for any units of one line, every other unit of a pattern for one unit.
  pub data Stands : Text → Text → Type 0 where
    nothing : Stands [] []
    star_end : {c : ℕ} {p t : Text} → c ≡ b'*' → Stands p t → Stands (c ∷ p) t
    star_more :
        {c d : ℕ} {p t : Text}
        → c ≡ b'*'
        → is_line_break d ≡ false
        → Stands (c ∷ p) t
        → Stands (c ∷ p) (d ∷ t)
    one :
        {c d : ℕ} {p t : Text} → c ≢ b'*' → accepts c d ≡ true → Stands p t → Stands (c ∷ p) (d ∷ t)

  matches-star :
      (c : ℕ) (p t : Text)
      → (c == b'*') ≡ true
      → matches same_letter (c ∷ p) t ≡ match_star (matches same_letter p) t
  unfolding matches
  matches-star c p t e =
      ap
        (λ (b : Bool).
          (if b
              then match_star (matches same_letter p)
              else match_unit same_letter c (matches same_letter p))
            t)
        e

  matches-unit :
      (c : ℕ) (p t : Text)
      → (c == b'*') ≡ false
      → matches same_letter (c ∷ p) t ≡ match_unit same_letter c (matches same_letter p) t
  unfolding matches
  matches-unit c p t e =
      ap
        (λ (b : Bool).
          (if b
              then match_star (matches same_letter p)
              else match_unit same_letter c (matches same_letter p))
            t)
        e

  unit-Stands :
      (c : ℕ) (p t : Text)
      → c ≢ b'*'
      → ((u : Text) → matches same_letter p u ≡ true → Stands p u)
      → match_unit same_letter c (matches same_letter p) t ≡ true
      → Stands (c ∷ p) t
  unfolding match_unit accepts
  unit-Stands c p [] n f h = cc
  unit-Stands c p (d ∷ t) n f h =
      let both : (accepts c d ≡ true) × (matches same_letter p t ≡ true) = ground (arith, h) in
      one n both.0 (f t both.1)

  star-Stands :
      (c : ℕ) (p t : Text)
      → c ≡ b'*'
      → ((u : Text) → matches same_letter p u ≡ true → Stands p u)
      → match_star (matches same_letter p) t ≡ true
      → Stands (c ∷ p) t
  unfolding match_star
  star-Stands c p [] e f h = star_end e (f [] h)
  star-Stands c p (d ∷ t) e f h = elim (Bool-cases (matches same_letter p (d ∷ t))) [
    | inl m ↦ star_end e (f (d ∷ t) m)
    | inr m ↦
        let rest = star-Stands c p t e f in
        let both : (is_line_break d ≡ false) × (match_star (matches same_letter p) t ≡ true) =
          ground (arith, m, h) in
        star_more e both.0 (rest both.1)
  ]

  matches-Stands : (p t : Text) → matches same_letter p t ≡ true → Stands p t
  unfolding matches
  matches-Stands [] [] h = nothing
  matches-Stands [] (d ∷ t) h = cc
  matches-Stands (c ∷ p) t h = elim (Bool-cases (c == b'*')) [
    | inl e ↦
        star-Stands c p t ((==_iff c b'*').0 e) (matches-Stands p) (sym (matches-star c p t e) ∙ h)
    | inr e ↦
        let other : c ≢ b'*' = ground (arith, e) in
        unit-Stands c p t other (matches-Stands p) (sym (matches-unit c p t e) ∙ h)
  ]

  star-matches :
      (p t : Text) → matches same_letter p t ≡ true → match_star (matches same_letter p) t ≡ true
  unfolding match_star
  star-matches p [] h = h
  star-matches p (d ∷ t) h = ground (arith, h)

  Stands-matches : {p t : Text} → Stands p t → matches same_letter p t ≡ true
  unfolding matches match_unit match_star accepts
  Stands-matches nothing = refl
  Stands-matches (star_end {c} {p} {t} e s) =
      matches-star c p t ((==_iff c b'*').1 e) ∙ star-matches p t (Stands-matches s)
  Stands-matches (star_more {c} {d} {p} {t} e b s) =
      let is_star = (==_iff c b'*').1 e in
      let rest = sym (matches-star c p t is_star) ∙ Stands-matches s in
      matches-star c p (d ∷ t) is_star ∙ ground (arith, b, rest)
  Stands-matches (one {c} {d} {p} {t} n a s) =
      let other : (c == b'*') ≡ false = ground (arith, n) in
      matches-unit c p (d ∷ t) other ∙ ground (arith, a, Stands-matches s)

  -- A pattern matches a token exactly if the token can be cut into what its units stand for: each
  -- `*` for any units without a line break, each `?` for one such unit, and every other unit for one
  -- that is the same letter.
  pub matches-Stands_iff :
      (pattern token : Text) → (matches same_letter pattern token ≡ true) ↔ Stands pattern token
  matches-Stands_iff pattern token = (matches-Stands pattern token, Stands-matches)
