-- ===== src/FuzzyMatch/Order.antt =====
-- fuzzyMatch.ts: the three ways in which a query occurs in a target, and the tests of the
-- source for them.
use ircfiber_site.Common.{
  ℕ, suc, ◌+◌, ◌*◌, ◌≤◌, ◌<◌, ◌≡◌, refl, sym, ap, ◌∙◌, ◌↔◌, ◌⊎◌, inl, inr, true, false, [], ◌∷◌,
  ◌++◌, arith, ◌==◌, ==_iff, Bool-cases, is_empty,
}
use ircfiber_site.Ignore.{Text}
use ircfiber_site.FuzzyMatch.{starts_with, has_substring, scan}

-- The target is the query and something behind it.
unfoldable pub Begins : Text → Text → Type 0
Begins q t = (rest : Text) × (q ++ rest ≡ t)

-- The query stands somewhere in the target.
unfoldable pub Occurs : Text → Text → Type 0
Occurs q t = (before : Text) × (after : Text) × (before ++ q ++ after ≡ t)

-- The units of the query are in the target in their order, others may stand between them.
unfoldable pub InOrder : Text → Text → Type 0
InOrder [] t = Unit
InOrder (c ∷ q) [] = ⊥
InOrder (c ∷ q) (d ∷ t) = (d ≡ c) × InOrder q t ⊎ InOrder (c ∷ q) t

cons-Begins : (c : ℕ) (q t : Text) → Begins q t → Begins (c ∷ q) (c ∷ t)
unfolding Begins
cons-Begins c q t (rest, e) = (rest, ap (λ (xs : Text). c ∷ xs) e)

Begins-tail : (c d : ℕ) (q t : Text) → Begins (c ∷ q) (d ∷ t) → (d ≡ c) × Begins q t
unfolding Begins
Begins-tail c d q t (rest, e) = (cc, (rest, cc))

starts_with-cons_iff :
    (c d : ℕ) (q t : Text)
    → (starts_with (c ∷ q) (d ∷ t) ≡ true) ↔ ((d ≡ c) × (starts_with q t ≡ true))
unfolding starts_with
starts_with-cons_iff c d q t = ground arith

Begins-nil : (c : ℕ) (q : Text) → Begins (c ∷ q) [] → ⊥
unfolding Begins
Begins-nil c q (rest, e) = cc

nil-Begins : (t : Text) → Begins [] t
unfolding Begins
nil-Begins t = (t, refl)

pub starts_with→Begins : (q t : Text) → starts_with q t ≡ true → Begins q t
unfolding starts_with
starts_with→Begins [] t h = nil-Begins t
starts_with→Begins (c ∷ q) [] h = cc
starts_with→Begins (c ∷ q) (d ∷ t) h =
    let (e, r) = (starts_with-cons_iff c d q t).0 h in
    rw e (cons-Begins c q t (starts_with→Begins q t r))

pub Begins→starts_with : (q t : Text) → Begins q t → starts_with q t ≡ true
unfolding starts_with
Begins→starts_with [] t b = refl
Begins→starts_with (c ∷ q) [] b = elim (Begins-nil c q b) [ ]
Begins→starts_with (c ∷ q) (d ∷ t) b =
    let (e, r) = Begins-tail c d q t b in
    (starts_with-cons_iff c d q t).1 (e, Begins→starts_with q t r)

-- An occurrence in a longer target is at its start or in the rest.
Begins-Occurs : (q t : Text) → Begins q t → Occurs q t
unfolding Begins Occurs
Begins-Occurs q t (rest, e) = ([], rest, e)

Occurs-cons : (d : ℕ) (q t : Text) → Occurs q t → Occurs q (d ∷ t)
unfolding Occurs
Occurs-cons d q t (before, after, e) = (d ∷ before, after, ap (λ (xs : Text). d ∷ xs) e)

Occurs-cases : (d : ℕ) (q t : Text) → Occurs q (d ∷ t) → Begins q (d ∷ t) ⊎ Occurs q t
unfolding Begins Occurs
Occurs-cases d q t ([], after, e) = inl (after, e)
Occurs-cases d q t (c ∷ before, after, e) = inr (before, after, cc)

Occurs-nil : (q : Text) → Occurs q [] → Begins q []
unfolding Begins Occurs
Occurs-nil q ([], after, e) = (after, e)
Occurs-nil q (c ∷ before, after, e) = cc

pub has_substring→Occurs : (q t : Text) → has_substring q t ≡ true → Occurs q t
unfolding has_substring
has_substring→Occurs q [] h = Begins-Occurs q [] (starts_with→Begins q [] h)
has_substring→Occurs q (d ∷ t) h = elim (Bool-cases (starts_with q (d ∷ t))) [
  | inl s ↦ Begins-Occurs q (d ∷ t) (starts_with→Begins q (d ∷ t) s)
  | inr s ↦ Occurs-cons d q t (has_substring→Occurs q t (ground arith))
]

pub Occurs→has_substring : (q t : Text) → Occurs q t → has_substring q t ≡ true
unfolding has_substring
Occurs→has_substring q [] o = Begins→starts_with q [] (Occurs-nil q o)
Occurs→has_substring q (d ∷ t) o = elim (Occurs-cases d q t o) [
  | inl b ↦ ground (arith, Begins→starts_with q (d ∷ t) b)
  | inr r ↦ ground (arith, Occurs→has_substring q t r)
]

-- A query without its first unit is in order where the query is.
InOrder-tail : (c : ℕ) (q t : Text) → InOrder (c ∷ q) t → InOrder q t
unfolding InOrder
InOrder-tail c [] t o = tt
InOrder-tail c (b ∷ q) [] o = o
InOrder-tail c (b ∷ q) (d ∷ t) (inl (e, o)) = inr o
InOrder-tail c (b ∷ q) (d ∷ t) (inr o) = inr (InOrder-tail c (b ∷ q) t o)

none-InOrder : (c : ℕ) (q : Text) {A : Type 0} → InOrder (c ∷ q) [] → A
unfolding InOrder
none-InOrder c q o = elim o [ ]

InOrder-cons : (q : Text) (d : ℕ) (t : Text) → InOrder q t → InOrder q (d ∷ t)
unfolding InOrder
InOrder-cons [] d t o = tt
InOrder-cons (c ∷ q) d t o = inr o

Begins-InOrder : (q t : Text) → Begins q t → InOrder q t
unfolding InOrder
Begins-InOrder [] t b = tt
Begins-InOrder (c ∷ q) [] b = Begins-nil c q b
Begins-InOrder (c ∷ q) (d ∷ t) b =
    let (e, r) = Begins-tail c d q t b in inl (e, Begins-InOrder q t r)

pub Occurs-InOrder : (q t : Text) → Occurs q t → InOrder q t
Occurs-InOrder q [] o = Begins-InOrder q [] (Occurs-nil q o)
Occurs-InOrder q (d ∷ t) o = elim (Occurs-cases d q t o) [
  | inl b ↦ Begins-InOrder q (d ∷ t) b
  | inr r ↦ InOrder-cons q d t (Occurs-InOrder q t r)
]

-- One step of the loop, at a unit that matches and at one that does not.
pub scan-hit :
    (c d : ℕ) (t q : Text) (s r : ℕ)
    → d ≡ c
    → scan (d ∷ t) (c ∷ q) s r ≡ scan t q (s + (2 + suc r * 3)) (suc r)
unfolding scan
scan-hit c d t q s r e = ground (arith, (==_iff d c).1 e)

pub scan-miss :
    (c d : ℕ) (t q : Text) (s r : ℕ)
    → (d == c) ≡ false
    → scan (d ∷ t) (c ∷ q) s r ≡ scan t (c ∷ q) s 0
unfolding scan
scan-miss c d t q s r e = ground arith

-- The loop takes every unit at the first place it can, and misses nothing by it.
pub scan→InOrder : (t q : Text) (s r : ℕ) → is_empty (scan t q s r).0 ≡ true → InOrder q t
unfolding scan InOrder
scan→InOrder t [] s r h = tt
scan→InOrder [] (c ∷ q) s r h = cc
scan→InOrder (d ∷ t) (c ∷ q) s r h = elim (Bool-cases (d == c)) [
  | inl e ↦
      (let m = (==_iff d c).0 e in
        inl (
          m,
          scan→InOrder t q (s + (2 + suc r * 3)) (suc r)
              (sym (ap (λ (x : Text × ℕ). is_empty x.0) (scan-hit c d t q s r m)) ∙ h),
        ))
  | inr e ↦ inr (
      scan→InOrder t (c ∷ q) s 0
        (sym (ap (λ (x : Text × ℕ). is_empty x.0) (scan-miss c d t q s r e)) ∙ h))
]

hit-InOrder : (c d : ℕ) (q t : Text) → InOrder (c ∷ q) (d ∷ t) → InOrder q t
unfolding InOrder
hit-InOrder c d q t (inl (e, o)) = o
hit-InOrder c d q t (inr o) = InOrder-tail c q t o

miss-InOrder :
    (c d : ℕ) (q t : Text) → (d == c) ≡ false → InOrder (c ∷ q) (d ∷ t) → InOrder (c ∷ q) t
unfolding InOrder
miss-InOrder c d q t e (inl (m, o)) = let b : (d == c) ≡ true = (==_iff d c).1 m in cc
miss-InOrder c d q t e (inr o) = o

pub InOrder→scan : (t q : Text) (s r : ℕ) → InOrder q t → is_empty (scan t q s r).0 ≡ true
unfolding scan
InOrder→scan t [] s r o = refl
InOrder→scan [] (c ∷ q) s r o = none-InOrder c q o
InOrder→scan (d ∷ t) (c ∷ q) s r o = elim (Bool-cases (d == c)) [
  | inl e ↦
      (ap (λ (x : Text × ℕ). is_empty x.0) (scan-hit c d t q s r ((==_iff d c).0 e))
        ∙ InOrder→scan t q (s + (2 + suc r * 3)) (suc r) (hit-InOrder c d q t o))
  | inr e ↦
      (ap (λ (x : Text × ℕ). is_empty x.0) (scan-miss c d t q s r e)
        ∙ InOrder→scan t (c ∷ q) s 0 (miss-InOrder c d q t e o))
]

-- The loop never lowers the score, and a match raises it.
pub scan-le : (t q : Text) (s r : ℕ) → s ≤ (scan t q s r).1
unfolding scan
scan-le t [] s r = omega arith
scan-le [] (c ∷ q) s r = omega arith
scan-le (d ∷ t) (c ∷ q) s r =
    ground (arith, scan-le t q (s + (2 + suc r * 3)) (suc r), scan-le t (c ∷ q) s 0)

pub scan-lt :
    (t q : Text) (s r : ℕ)
    → is_empty q ≡ false
    → is_empty (scan t q s r).0 ≡ true
    → s < (scan t q s r).1
unfolding scan
scan-lt t [] s r n h = cc
scan-lt [] (c ∷ q) s r n h = cc
scan-lt (d ∷ t) (c ∷ q) s r n h =
    ground (arith, scan-le t q (s + (2 + suc r * 3)) (suc r), scan-lt t (c ∷ q) s 0)
