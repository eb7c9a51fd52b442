-- ===== src/TabCompletion/Cursor.antt =====
-- tabCompletion.ts: how far the word under the cursor reaches.
use ircfiber_site.Common.{
  ℕ, zero, suc, ◌+◌, ◌-◌, ◌≤◌, ◌<◌, ◌≡◌, refl, sym, ap, ◌∙◌, ◌⊎◌, inl, inr, true, false, [], ◌∷◌,
  arith, ltb, ltb→lt, ltb→le, Bool-cases, length, take, drop, take-append-drop, length-take,
  length-drop, ◌++◌,
}
use ircfiber_site.TabCompletion.{
  Text, is_space, space_at, word_start, word_end, slice, Word, get_word_at_cursor,
}

word_start-le : (input : Text) (p : ℕ) → word_start input p ≤ p
unfolding word_start
word_start-le input zero = omega arith
word_start-le input (suc p) = ground (arith, word_start-le input p)

word_start-inside :
    (input : Text) (p i : ℕ) → word_start input p ≤ i → i < p → space_at input i ≡ false
unfolding word_start
word_start-inside input zero i h k = elim k [ ]
word_start-inside input (suc p) i h k = elim (Bool-cases (space_at input p)) [
  | inl s ↦ ground arith
  | inr s ↦
      (let e : word_start input p ≤ i = ground arith in
        elim (Bool-cases (ltb i p)) [
          | inl l ↦ word_start-inside input p i e (ltb→lt i p l)
          | inr g ↦
              (let same : i ≡ p = omega (arith, ltb→le i p g) in
                ap (λ (j : ℕ). space_at input j) same ∙ s)
        ])
]

word_start-edge :
    (input : Text) (p : ℕ)
    → (word_start input p ≡ 0) ⊎ (space_at input (word_start input p - 1) ≡ true)
unfolding word_start
word_start-edge input zero = inl refl
word_start-edge input (suc p) = ground (arith, word_start-edge input p)

word_end-nil : (e : ℕ) → word_end e [] ≡ e + length {A = ℕ} []
unfolding word_end
word_end-nil e = omega arith

word_end-space : (e c : ℕ) (rest : Text) → is_space c ≡ true → word_end e (c ∷ rest) ≡ e + 0
unfolding word_end
word_end-space e c rest s = ground arith

word_end-more :
    (e c : ℕ) (rest : Text) → is_space c ≡ false → word_end e (c ∷ rest) ≡ word_end (suc e) rest
unfolding word_end
word_end-more e c rest s = ground arith

word_end-ge : (e : ℕ) (rest : Text) → e ≤ word_end e rest
unfolding word_end
word_end-ge e [] = omega arith
word_end-ge e (c ∷ rest) = ground (arith, word_end-ge (suc e) rest)

word_end-le : (e : ℕ) (rest : Text) → word_end e rest ≤ e + length rest
unfolding word_end
word_end-le e [] = omega arith
word_end-le e (c ∷ rest) = ground (arith, word_end-le (suc e) rest)

word_end-inside : (e : ℕ) (rest : Text) (i : ℕ) → e + i < word_end e rest → space_at rest i ≡ false
unfolding word_end space_at
word_end-inside e [] i h = refl
word_end-inside e (c ∷ rest) zero h = ground arith
word_end-inside e (c ∷ rest) (suc i) h = ground (arith, word_end-inside (suc e) rest i)

space_at-here : (c : ℕ) (rest : Text) → is_space c ≡ true → space_at (c ∷ rest) 0 ≡ true
unfolding space_at
space_at-here c rest s = s

space_at-later :
    (c : ℕ) (rest : Text) (k : ℕ) → space_at rest k ≡ true → space_at (c ∷ rest) (suc k) ≡ true
unfolding space_at
space_at-later c rest k s = s

word_end-edge :
    (e : ℕ) (rest : Text)
    → (word_end e rest ≡ e + length rest)
      ⊎ (k : ℕ) × (word_end e rest ≡ e + k) × (space_at rest k ≡ true)
word_end-edge e [] = inl (word_end-nil e)
word_end-edge e (c ∷ rest) = elim (Bool-cases (is_space c)) [
  | inl s ↦ inr (0, word_end-space e c rest s, space_at-here c rest s)
  | inr s ↦
      (let m = word_end-more e c rest s in
        elim (word_end-edge (suc e) rest) [
          | inl h ↦ inl (omega (arith, m, h))
          | inr (k, h, b) ↦ inr (suc k, omega (arith, m, h), space_at-later c rest k b)
        ])
]

space_at-drop : (p : ℕ) (input : Text) (i : ℕ) → space_at (drop p input) i ≡ space_at input (p + i)
unfolding space_at
space_at-drop zero input i = let e : i ≡ 0 + i = omega arith in ap (λ (j : ℕ). space_at input j) e
space_at-drop (suc p) [] i = refl
space_at-drop (suc p) (c ∷ input) i =
    let e : suc (p + i) ≡ suc p + i = omega arith in
    space_at-drop p input i ∙ ap (λ (j : ℕ). space_at (c ∷ input) j) e

space_at-take : (n : ℕ) (rest : Text) (i : ℕ) → i < n → space_at (take n rest) i ≡ space_at rest i
unfolding space_at
space_at-take zero rest i h = absurd (omega arith)
space_at-take (suc n) [] i h = refl
space_at-take (suc n) (c ∷ rest) zero h = refl
space_at-take (suc n) (c ∷ rest) (suc i) h = space_at-take n rest i (omega arith)

drop-drop : (m n : ℕ) (rest : Text) → drop n (drop m rest) ≡ drop (m + n) rest
drop-drop zero n rest = let e : n ≡ 0 + n = omega arith in ap (λ (j : ℕ). drop j rest) e
drop-drop (suc m) zero [] =
    let e : suc m ≡ suc m + 0 = omega arith in ap (λ (j : ℕ). drop {A = ℕ} j []) e
drop-drop (suc m) (suc n) [] =
    let e : suc (m + suc n) ≡ suc m + suc n = omega arith in ap (λ (j : ℕ). drop {A = ℕ} j []) e
drop-drop (suc m) n (c ∷ rest) =
    let e : suc (m + n) ≡ suc m + n = omega arith in
    drop-drop m n rest ∙ ap (λ (j : ℕ). drop j (c ∷ rest)) e

-- What is sliced out of a text stands between what is in front of it and what is behind it.
slice-between :
    (start end : ℕ) (input : Text)
    → start ≤ end
    → take start input ++ (slice start end input ++ drop end input) ≡ input
unfolding slice
slice-between start end input h =
    let e : start + (end - start) ≡ end = omega arith in
    let behind : drop (end - start) (drop start input) ≡ drop end input =
      drop-drop start (end - start) input ∙ ap (λ (j : ℕ). drop j input) e in
    rw (sym behind, take-append-drop (end - start) (drop start input))
      (take-append-drop start input)

length-slice :
    (start end : ℕ) (input : Text)
    → end ≤ length input
    → length (slice start end input) ≡ end - start
unfolding slice
length-slice start end input h =
    omega (arith, length-take (end - start) (drop start input), length-drop start input)

slice-clear :
    (start end : ℕ) (input : Text)
    → ((i : ℕ) → start ≤ i → i < end → space_at input i ≡ false)
    → (i : ℕ) → i < end - start
    → space_at (slice start end input) i ≡ false
unfolding slice
slice-clear start end input clear i h =
    space_at-take (end - start) (drop start input) i h
    ∙ space_at-drop start input i
    ∙ clear (start + i) (omega arith) (omega arith)

-- The word is what stands in the text from its start to its end. It spans the cursor, has no space
-- in it, and cannot be longer at either end.
unfoldable pub IsWordAt : Text → ℕ → Word → Type 0
IsWordAt input pos w =
    (w.start ≤ pos)
    × (pos ≤ w.end)
    × (w.end ≤ length input)
    × (take w.start input ++ (w.word ++ drop w.end input) ≡ input)
    × (length w.word ≡ w.end - w.start)
    × ((i : ℕ) → i < length w.word → space_at w.word i ≡ false)
    × ((w.start ≡ 0) ⊎ (space_at input (w.start - 1) ≡ true))
    × ((w.end ≡ length input) ⊎ (space_at input w.end ≡ true))

module _ (input : Text) (pos : ℕ) (bound : pos ≤ length input) where
  word_end-length : word_end pos (drop pos input) ≤ length input
  word_end-length = omega (arith, word_end-le pos (drop pos input), length-drop pos input, bound)

  word_end-clear : (i : ℕ) → pos ≤ i → i < word_end pos (drop pos input) → space_at input i ≡ false
  word_end-clear i h k =
      let e : pos + (i - pos) ≡ i = omega (arith, h) in
      let l : pos + (i - pos) < word_end pos (drop pos input) = omega (arith, h, k) in
      ap (λ (j : ℕ). space_at input j) (sym e)
      ∙ sym (space_at-drop pos input (i - pos))
      ∙ word_end-inside pos (drop pos input) (i - pos) l

  word_end-stops :
      (word_end pos (drop pos input) ≡ length input)
      ⊎ (space_at input (word_end pos (drop pos input)) ≡ true)
  word_end-stops = elim (word_end-edge pos (drop pos input)) [
    | inl h ↦ inl (omega (arith, h, length-drop pos input, bound))
    | inr (k, h, b) ↦ inr (ap (λ (j : ℕ). space_at input j) h ∙ sym (space_at-drop pos input k) ∙ b)
  ]

  word-clear :
      (i : ℕ)
      → word_start input pos ≤ i
      → i < word_end pos (drop pos input)
      → space_at input i ≡ false
  word-clear i h k = elim (Bool-cases (ltb i pos)) [
    | inl l ↦ word_start-inside input pos i h (ltb→lt i pos l)
    | inr g ↦ word_end-clear i (ltb→le i pos g) k
  ]

-- For a cursor inside the text or at its end: the returned word is what stands in the text between
-- the returned start and end, these have the cursor between them, no unit of the word is a space,
-- and at either end there is a space or the end of the text.
pub get_word_at_cursor-IsWordAt :
    (input : Text) (pos : ℕ)
    → pos ≤ length input
    → IsWordAt input pos (get_word_at_cursor input pos)
unfolding get_word_at_cursor IsWordAt
get_word_at_cursor-IsWordAt input pos bound =
    let start = word_start input pos in
    let end = word_end pos (drop pos input) in
    let inside : end ≤ length input = word_end-length input pos bound in
    let long = length-slice start end input inside in
    (
      word_start-le input pos,
      word_end-ge pos (drop pos input),
      inside,
      slice-between start end input
          (omega (arith, word_start-le input pos, word_end-ge pos (drop pos input))),
      long,
      (λ (i : ℕ) (h : i < length (slice start end input)).
          slice-clear start end input (word-clear input pos bound) i (omega (arith, h, long))),
      word_start-edge input pos,
      word_end-stops input pos bound,
    )
