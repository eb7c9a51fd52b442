-- ===== src/Formatting/Loop.antt =====
-- ircFormatting.ts: the loop of `parseIrcFormatting`, its fuel and the pieces that it appends.
use ircfiber_site.Common.{
  ℕ, zero, suc, ◌≤◌, ◌≡◌, refl, ap, inl, inr, Bool, false, some, List, [], ◌∷◌, ◌++◌, arith,
  Option-cases, length, All, All-append,
}
use ircfiber_site.Formatting.{
  when, make_open, emit_space, emit_char, close_all, open_style, reopen, State, iterate, prepend,
  parse_loop, is_art_like, parse_irc_formatting,
}
use ircfiber_site.Formatting.Safe.{
  IsSafe, IsSafeDeclaration, IsSafeStyle, unstyled-IsSafe, change_style-IsSafe, declarations-IsSafe,
}
use ircfiber_site.Formatting.Codes.{
  Piece, close, open_tag, wbr, entity, nbsp, plain, Style, unstyled, is_digit, is_hex_digit,
  read_units, read_second, read_arguments, change_style,
}

-- From `n` open spans to `m`: no span opens inside another, and none is closed that is not open.
unfoldable pub IsBalanced : ℕ → ℕ → List Piece → Type 0
IsBalanced n m [] = n ≡ m
IsBalanced n m (close ∷ ps) = (n ≡ 1) × IsBalanced 0 m ps
IsBalanced n m (open_tag _ _ ∷ ps) = (n ≡ 0) × IsBalanced 1 m ps
IsBalanced n m (wbr ∷ ps) = IsBalanced n m ps
IsBalanced n m (entity _ ∷ ps) = IsBalanced n m ps
IsBalanced n m (nbsp ∷ ps) = IsBalanced n m ps
IsBalanced n m (plain _ ∷ ps) = IsBalanced n m ps

-- No unit that HTML reads as markup is appended as it is, and none stands in a style attribute. The
-- class names are constants of the source, and numbers.
unfoldable pub IsEscaped : Piece → Type 0
IsEscaped close = Unit
IsEscaped (open_tag classes declarations) = All IsSafeDeclaration declarations
IsEscaped wbr = Unit
IsEscaped (entity c) = Unit
IsEscaped nbsp = Unit
IsEscaped (plain c) = IsSafe c

length-read_units : (p : ℕ → Bool) (k : ℕ) (cs : List ℕ) → length (read_units p k cs).1 ≤ length cs
unfolding read_units
length-read_units p zero cs = omega arith
length-read_units p (suc k) [] = omega arith
length-read_units p (suc k) (c ∷ cs) = ground (arith, length-read_units p k cs)

length-read_second :
    (p : ℕ → Bool) (k : ℕ) (f cs : List ℕ) → length (read_second p k f cs).rest ≤ length cs
unfolding read_second
length-read_second p k f [] = omega arith
length-read_second p k f (c ∷ cs) = ground (arith, length-read_units p k cs)

length-read_arguments :
    (p : ℕ → Bool) (k : ℕ) (cs : List ℕ) → length (read_arguments p k cs).rest ≤ length cs
unfolding read_arguments
length-read_arguments p k cs =
    let r = read_units p k cs in
    omega (arith, length-read_units p k cs, length-read_second p k r.0 r.1)

-- An iteration reads at least one unit.
length-change_style :
    (ch : ℕ) (cs : List ℕ) (st : Style) {u : Style × List ℕ}
    → change_style ch cs st ≡ some u
    → length u.1 ≤ length cs
unfolding change_style
length-change_style ch cs st h =
    ground (arith, length-read_arguments is_digit 2 cs, length-read_arguments is_hex_digit 6 cs)

IsBalanced-append :
    (n m k : ℕ) (ps qs : List Piece)
    → IsBalanced n m ps
    → IsBalanced m k qs
    → IsBalanced n k (ps ++ qs)
unfolding IsBalanced
IsBalanced-append n m k [] qs h g = rw h g
IsBalanced-append n m k (close ∷ ps) qs (e, h) g = (e, IsBalanced-append 0 m k ps qs h g)
IsBalanced-append n m k (open_tag _ _ ∷ ps) qs (e, h) g = (e, IsBalanced-append 1 m k ps qs h g)
IsBalanced-append n m k (wbr ∷ ps) qs h g = IsBalanced-append n m k ps qs h g
IsBalanced-append n m k (entity _ ∷ ps) qs h g = IsBalanced-append n m k ps qs h g
IsBalanced-append n m k (nbsp ∷ ps) qs h g = IsBalanced-append n m k ps qs h g
IsBalanced-append n m k (plain _ ∷ ps) qs h g = IsBalanced-append n m k ps qs h g

-- Well-formed markup from `n` open spans to `m`.
pub record IsMarkup (n m : ℕ) (ps : List Piece) : Type 0 where
  pub balanced : IsBalanced n m ps
  pub escaped : All IsEscaped ps

IsMarkup-append :
    (n m k : ℕ) (ps qs : List Piece) → IsMarkup n m ps → IsMarkup m k qs → IsMarkup n k (ps ++ qs)
IsMarkup-append n m k ps qs h g = record {
  balanced = IsBalanced-append n m k ps qs h.balanced g.balanced;
  escaped = All-append IsEscaped ps qs h.escaped g.escaped;
}

emit_char-IsMarkup :
    (art : Bool) (st : Style) (n : ℕ) (after_space : Bool) (c : ℕ) (cs : List ℕ)
    → IsMarkup n n (emit_char art st after_space c cs ∷ [])
unfolding emit_char emit_space IsBalanced IsEscaped IsSafe
emit_char-IsMarkup art st n after_space c cs = ground arith

close_all-IsMarkup : (n : ℕ) → n ≤ 1 → IsMarkup n 0 (close_all n)
unfolding close_all IsBalanced IsEscaped
close_all-IsMarkup zero h = ground arith
close_all-IsMarkup (suc zero) h = ground arith
close_all-IsMarkup (suc (suc n)) h = absurd (omega arith)

open_style-IsMarkup :
    (st : Style)
    → IsSafeStyle st
    → IsMarkup 0 (open_style st (make_open st)).1 (open_style st (make_open st)).0
      × ((open_style st (make_open st)).1 ≤ 1)
unfolding open_style make_open when IsBalanced IsEscaped
open_style-IsMarkup st safe = ground (arith, declarations-IsSafe st safe)

reopen-IsMarkup :
    (n : ℕ) (st : Style)
    → n ≤ 1
    → IsSafeStyle st
    → IsMarkup n (reopen n st).1 (reopen n st).0 × ((reopen n st).1 ≤ 1)
unfolding reopen
reopen-IsMarkup n st h safe =
    let (o, l) = open_style-IsMarkup st safe in
    (IsMarkup-append n 0 _ (close_all n) _ (close_all-IsMarkup n h) o, l)

-- What an iteration keeps: the markup it appends, at most one open span, a style without markup in
-- its digits, and fewer units to read.
record Keeps (n : ℕ) (cs : List ℕ) (u : List Piece × State) : Type 0 where
  markup : IsMarkup n u.1.open_stack u.0
  one_span : u.1.open_stack ≤ 1
  safe_style : IsSafeStyle u.1.style
  shorter : length u.1.rest ≤ length cs

iterate-Keeps :
    (art : Bool) (st : Style) (n : ℕ) (after_space : Bool) (ch : ℕ) (cs : List ℕ)
    → n ≤ 1
    → IsSafeStyle st
    → Keeps n cs (iterate art st n after_space ch cs)
unfolding iterate
iterate-Keeps art st n after_space ch cs h safe = elim (Option-cases (change_style ch cs st)) [
  | inl e ↦
      rw (iterate, e)
        (record {
          markup = emit_char-IsMarkup art st n after_space ch cs;
          one_span = h;
          safe_style = safe;
          shorter = omega arith;
        })
  | inr (u, e) ↦
      rw (iterate, e)
        (record {
          markup = (reopen-IsMarkup n u.0 h (change_style-IsSafe ch cs st safe e)).0;
          one_span = (reopen-IsMarkup n u.0 h (change_style-IsSafe ch cs st safe e)).1;
          safe_style = change_style-IsSafe ch cs st safe e;
          shorter = length-change_style ch cs st e;
        })
]

pub parse_loop-IsMarkup :
    (art : Bool) (fuel : ℕ) (st : Style) (n : ℕ) (after_space : Bool) (cs : List ℕ)
    → n ≤ 1
    → IsSafeStyle st
    → length cs ≤ fuel
    → (ps : List Piece) × (parse_loop art fuel st n after_space cs ≡ some ps) × IsMarkup n 0 ps
unfolding parse_loop prepend
parse_loop-IsMarkup art fuel st n after_space [] h safe l =
    (close_all n, refl, close_all-IsMarkup n h)
parse_loop-IsMarkup art zero st n after_space (ch ∷ cs) h safe l = absurd (omega arith)
parse_loop-IsMarkup art (suc fuel) st n after_space (ch ∷ cs) h safe l =
    let k = iterate-Keeps art st n after_space ch cs h safe in
    let s = (iterate art st n after_space ch cs).1 in
    let enough : length s.rest ≤ fuel = omega (arith, k.shorter) in
    let (ps, e, g) =
      parse_loop-IsMarkup art fuel s.style s.open_stack s.after_space s.rest k.one_span k.safe_style
        enough in
    (
      _,
      ap (prepend (iterate art st n after_space ch cs).0) e,
      IsMarkup-append n _ 0 _ ps k.markup g,
    )

-- Every text is parsed: its length is enough iterations. In the markup every span is closed before
-- the next one opens and none is left open, and no `&`, `<`, `>` or quote of the text is appended
-- as it is, neither between the tags nor in the style attribute of a span, which takes the digits
-- of a hex colour from the text.
pub parse_irc_formatting-IsMarkup :
    (text : List ℕ) → (ps : List Piece) × (parse_irc_formatting text ≡ some ps) × IsMarkup 0 0 ps
unfolding parse_irc_formatting
parse_irc_formatting-IsMarkup text =
    parse_loop-IsMarkup (is_art_like text) (length text) unstyled 0 false text (omega arith)
      unstyled-IsSafe (omega arith)
