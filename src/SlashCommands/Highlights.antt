-- ===== src/SlashCommands/Highlights.antt =====
-- frontend/src/lib/slashCommands.ts: the highlight words as a set of texts.
use ircfiber_site.Common.{
  ◌≡◌, refl, ap, true, false, not, ◌&&◌, ◌||◌, List, [], ◌∷◌, ◌++◌, arith, map, is_empty,
}
use ircfiber_site.Ignore.{Text, same_text}
use ircfiber_site.FuzzyMatch.Tiers.{same_text_iff}
use ircfiber_site.SlashCommands.{Session, ◌>>◌, after, throw_if, modify, reads, pure, throw}
use ircfiber_site.SlashCommands.Handlers.{Environment, has_text, add_text}
use ircfiber_site.SlashCommands.Buffers.{
  add_words, remove_word, remove_words, highlight, unhighlight,
}

-- No word is listed twice.
abbrev pub IsUnique : List Text → Type 0
IsUnique [] = Unit
IsUnique (x ∷ xs) = (has_text x xs ≡ false) × IsUnique xs

has_text-same : (a b : Text) (xs : List Text) → same_text a b ≡ true → has_text a xs ≡ has_text b xs
has_text-same a b xs e = ap (λ (t : Text). has_text t xs) ((same_text_iff a b).0 e)

has_text-append :
    (t : Text) (xs ys : List Text) → has_text t (xs ++ ys) ≡ (has_text t xs || has_text t ys)
unfolding has_text
has_text-append t [] ys = refl
has_text-append t (x ∷ xs) ys = ground (arith, has_text-append t xs ys)

has_text-add_text :
    (w t : Text) (xs : List Text) → has_text w (add_text t xs) ≡ (has_text w xs || same_text t w)
unfolding add_text has_text
has_text-add_text w t xs = ground (arith, has_text-append w xs (t ∷ []), has_text-same t w xs)

same_text_comm : (a b : Text) → same_text a b ≡ same_text b a
unfolding same_text
same_text_comm [] [] = refl
same_text_comm [] (d ∷ ds) = refl
same_text_comm (c ∷ cs) [] = refl
same_text_comm (c ∷ cs) (d ∷ ds) = ground (arith, same_text_comm cs ds)

snoc-IsUnique :
    (t : Text) (xs : List Text) → has_text t xs ≡ false → IsUnique xs → IsUnique (xs ++ t ∷ [])
unfolding has_text
snoc-IsUnique t [] h u = (refl, tt)
snoc-IsUnique t (x ∷ xs) h u =
    ground (arith, snoc-IsUnique t xs, has_text-append x xs (t ∷ []), same_text_comm x t)

add_text-IsUnique : (t : Text) (xs : List Text) → IsUnique xs → IsUnique (add_text t xs)
unfolding add_text
add_text-IsUnique t xs u = ground (arith, snoc-IsUnique t xs)

has_text-remove_word :
    (w t : Text) (xs : List Text)
    → IsUnique xs
    → has_text w (remove_word t xs) ≡ (has_text w xs && not (same_text t w))
unfolding remove_word has_text
has_text-remove_word w t [] u = refl
has_text-remove_word w t (x ∷ xs) u = ground (
  arith,
  has_text-remove_word w t xs,
  has_text-same x w xs,
  (same_text_iff x t),
  (same_text_iff t w),
  (same_text_iff x w),
)

remove_word-IsUnique : (t : Text) (xs : List Text) → IsUnique xs → IsUnique (remove_word t xs)
unfolding remove_word
remove_word-IsUnique t [] u = tt
remove_word-IsUnique t (x ∷ xs) u =
    ground (arith, remove_word-IsUnique t xs, has_text-remove_word x t xs)

-- `add_words` is the union.
add_words-lem :
    (ws xs : List Text)
    → IsUnique xs
    → IsUnique (add_words ws xs)
      × ((w : Text) → has_text w (add_words ws xs) ≡ (has_text w xs || has_text w ws))
unfolding add_words has_text
add_words-lem [] xs u = (u, λ w. ground arith)
add_words-lem (t ∷ ws) xs u =
    let (v, h) = add_words-lem ws (add_text t xs) (add_text-IsUnique t xs u) in
    (v, λ w. ground (arith, h w, has_text-add_text w t xs))

-- `remove_words` is the difference.
remove_words-lem :
    (ws xs : List Text)
    → IsUnique xs
    → IsUnique (remove_words ws xs)
      × ((w : Text) → has_text w (remove_words ws xs) ≡ (has_text w xs && not (has_text w ws)))
unfolding remove_words has_text
remove_words-lem [] xs u = (u, λ w. ground arith)
remove_words-lem (t ∷ ws) xs u =
    let (v, h) = remove_words-lem ws (remove_word t xs) (remove_word-IsUnique t xs u) in
    (v, λ w. ground (arith, h w, has_text-remove_word w t xs u))

highlight-words :
    (env : Environment) (args : List Text) (target : Text) (s : Session)
    → is_empty args ≡ false
    → (highlight env args target s).1.highlight_words
      ≡ add_words (map env.lower args) s.highlight_words
unfolding highlight ◌>>◌ after throw_if modify reads pure throw
highlight-words env args target s h = ground arith

unhighlight-words :
    (env : Environment) (args : List Text) (target : Text) (s : Session)
    → is_empty args ≡ false
    → (unhighlight env args target s).1.highlight_words
      ≡ remove_words (map env.lower args) s.highlight_words
unfolding unhighlight ◌>>◌ after throw_if modify pure throw
unhighlight-words env args target s h = ground arith

-- For a list of highlight words without duplicates and at least one argument: after /highlight the
-- words are those before and the arguments in lower case, after /unhighlight they are those before
-- that are no argument in lower case, and neither list has a duplicate.
pub highlight-unhighlight :
    (env : Environment) (args : List Text) (target : Text) (s : Session)
    → is_empty args ≡ false
    → IsUnique s.highlight_words
    → let on = (highlight env args target s).1.highlight_words in
      let off = (unhighlight env args target s).1.highlight_words in
      let given = map env.lower args in
      IsUnique on
      × IsUnique off
      × ((w : Text) → has_text w on ≡ (has_text w s.highlight_words || has_text w given))
      × ((w : Text) → has_text w off ≡ (has_text w s.highlight_words && not (has_text w given)))
highlight-unhighlight env args target s h u =
    let (v, a) = add_words-lem (map env.lower args) s.highlight_words u in
    let (x, r) = remove_words-lem (map env.lower args) s.highlight_words u in
    rw (highlight-words env args target s h, unhighlight-words env args target s h) (v, x, a, r)
