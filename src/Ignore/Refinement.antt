-- ===== src/Ignore/Refinement.antt =====
-- ignore.ts: the three levels of the map beside the list of patterns.
use ircfiber_site.Common.{
  ℕ, ◌≡◌, refl, ap, ◌∙◌, Bool, true, not, ◌&&◌, ◌||◌, List, [], ◌∷◌, ◌++◌, map, arith, is_empty,
}
use ircfiber_site.Ignore.{
  Text, same_text, star_text, IgnoreEntry, NickSet, UserMap, HostMap, add_nick, add_user, add_entry,
  any, entry_of, parse, tokens, check_wildcard, collect_exact, collect_any, collect_wildcard,
  collect_maps, check_nicks, check_users, check, upgrade_legacy_pattern, parse_ignore_list,
}

pub same_text-eq : (a b : Text) → same_text a b ≡ true → a ≡ b
unfolding same_text
same_text-eq [] [] h = refl
same_text-eq [] (d ∷ ds) h = cc
same_text-eq (c ∷ cs) [] h = cc
same_text-eq (c ∷ cs) (d ∷ ds) h = ground (arith, same_text-eq cs ds)

same_text-ap : (p : Text → Bool) (a b : Text) → same_text a b ≡ true → p a ≡ p b
same_text-ap p a b h = ap p (same_text-eq a b h)

any-append {ℓ} :
    {A : Type ℓ} (p : A → Bool) (xs ys : List A) → any p (xs ++ ys) ≡ (any p xs || any p ys)
unfolding any
any-append p [] ys = refl
any-append p (x ∷ xs) ys = ground (arith, any-append p xs ys)

any-add_nick :
    (p : Text → Bool) (nick : Text) (ns : NickSet) → any p (add_nick nick ns) ≡ (any p ns || p nick)
unfolding any add_nick
any-add_nick p nick [] = ground arith
any-add_nick p nick (n ∷ ns) = ground (arith, any-add_nick p nick ns, same_text-ap p n nick)

module _ (same_letter : ℕ → ℕ → Bool) where
  -- A key of the map matches a token: they are equal, the key is `*`, or it is a wildcard.
  unfoldable pub key_matches : Text → Text → Bool
  key_matches token key =
      same_text key token || same_text key star_text || check_wildcard same_letter key token

  any-collect_maps {ℓ} :
      {V : Type ℓ} (f : V → Bool) (token : Text) (m : List (Text × V))
      → (any f (collect_exact same_letter token m)
          || any f (collect_wildcard same_letter token m)
          || any f (collect_any same_letter token m))
        ≡ any (λ e. key_matches token e.0 && f e.1) m
  unfolding any collect_exact collect_wildcard collect_any key_matches
  any-collect_maps f token [] = refl
  any-collect_maps f token (e ∷ m) = ground (arith, any-collect_maps f token m)

  any-collected {ℓ} :
      {V : Type ℓ} (f : V → Bool) (token : Text) (m : List (Text × V))
      → any f (collect_maps same_letter token m) ≡ any (λ e. key_matches token e.0 && f e.1) m
  unfolding collect_maps
  any-collected f token m = ground (
    arith,
    any-append f (collect_exact same_letter token m ++ collect_wildcard same_letter token m)
        (collect_any same_letter token m),
    any-append f (collect_exact same_letter token m) (collect_wildcard same_letter token m),
    any-collect_maps f token m,
  )

  check_nicks-any :
      (target : Text) (ns : NickSet)
      → check_nicks same_letter target ns ≡ any (key_matches target) ns
  unfolding check_nicks key_matches any check_wildcard
  check_nicks-any target [] = refl
  check_nicks-any target (n ∷ ns) = ground (arith, check_nicks-any target ns)

  -- An entry as the levels are asked about it.
  unfoldable pub entry_matches : Text → Text → Text → IgnoreEntry → Bool
  entry_matches host user target a =
      key_matches host a.host && key_matches user a.user && key_matches target a.nick

  check_users-add_user :
      (user target : Text) (u n : Text) (es : UserMap)
      → any (λ e. key_matches user e.0 && check_nicks same_letter target e.1) (add_user u n es) ≡ (
          any (λ e. key_matches user e.0 && check_nicks same_letter target e.1) es
          || key_matches user u && key_matches target n)
  unfolding any add_user
  check_users-add_user user target u n [] = ground (arith, check_nicks-any target (n ∷ []))
  check_users-add_user user target u n (e ∷ es) = ground (
    arith,
    check_users-add_user user target u n es,
    same_text-ap (key_matches user) e.0 u,
    check_nicks-any target e.1,
    check_nicks-any target (add_nick n e.1),
    any-add_nick (key_matches target) n e.1,
  )

  check_users-any :
      (user target : Text) (users : UserMap)
      → check_users same_letter user target users
        ≡ any (λ e. key_matches user e.0 && check_nicks same_letter target e.1) users
  unfolding check_users
  check_users-any user target users = any-collected (check_nicks same_letter target) user users

  -- What the map says of a token of each level.
  lookup : Text → Text → Text → HostMap → Bool
  lookup host user target root =
      any (λ e. key_matches host e.0 && check_users same_letter user target e.1) root

  lookup-add_entry :
      (host user target : Text) (a : IgnoreEntry) (root : HostMap)
      → lookup host user target (add_entry a root)
        ≡ (lookup host user target root || entry_matches host user target a)
  unfolding lookup any add_entry entry_matches
  lookup-add_entry host user target a [] = ground (
    arith,
    check_users-any user target ((a.user, a.nick ∷ []) ∷ []),
    check_nicks-any target (a.nick ∷ []),
  )
  lookup-add_entry host user target a (e ∷ root) = ground (
    arith,
    lookup-add_entry host user target a root,
    same_text-ap (key_matches host) e.0 a.host,
    check_users-any user target e.1,
    check_users-any user target (add_user a.user a.nick e.1),
    check_users-add_user user target a.user a.nick e.1,
  )

  lookup-parse :
      (lower : Text → Text) (host user target : Text) (patterns : List Text) (root : HostMap)
      → lookup host user target (parse lower patterns root) ≡ (
          lookup host user target root
          || any (entry_matches host user target) (map (entry_of lower) patterns))
  unfolding parse any
  lookup-parse lower host user target [] root = ground arith
  lookup-parse lower host user target (p ∷ patterns) root = ground (
    arith,
    lookup-parse lower host user target patterns (add_entry (entry_of lower p) root),
    lookup-add_entry host user target (entry_of lower p) root,
  )

  -- A nick that is not empty is ignored exactly if one of the patterns, upgraded, matches it at all
  -- three levels, whatever the order of the patterns and of the lookups; an empty nick never is.
  pub check-parse_ignore_list :
      (lower : Text → Text) (patterns : List Text) (target hostmask : Text)
      → check lower same_letter (parse_ignore_list lower patterns) target hostmask ≡ (
          not (is_empty target)
          && any
              (entry_matches (tokens lower hostmask).1 (tokens lower hostmask).0 (lower target))
              (map (entry_of lower) (map upgrade_legacy_pattern patterns)))
  unfolding check parse_ignore_list lookup any
  check-parse_ignore_list lower patterns [] hostmask = refl
  check-parse_ignore_list lower patterns (c ∷ cs) hostmask =
      let t = tokens lower hostmask in
      let upgraded = map upgrade_legacy_pattern patterns in
      any-collected (check_users same_letter t.0 (lower (c ∷ cs))) t.1 (parse lower upgraded [])
      ∙ lookup-parse lower t.1 t.0 (lower (c ∷ cs)) upgraded []
