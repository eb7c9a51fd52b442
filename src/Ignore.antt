-- ===== src/Ignore.antt =====
-- frontend/src/lib/ignore.ts: the ignore list as a map from hosts to users to nicks. A text is the
-- list of its code units. `lower` is `toLowerCase`, and `same_letter` says when a letter of a
-- regular expression with the flag `i` matches a unit.
pub mod Refinement
pub mod Wildcard
mod Tests
use ircfiber_site.Common.{
  ℕ, Bool, true, false, not, ◌&&◌, ◌||◌, List, [], ◌∷◌, ◌++◌, map, reverse, leb, ◌==◌,
  if◌then◌else◌, length, is_empty,
}

abbrev pub Text : Type 0
Text = List ℕ

-- `a === b`
unfoldable pub same_text : Text → Text → Bool
same_text [] [] = true
same_text [] (d ∷ ds) = false
same_text (c ∷ cs) [] = false
same_text (c ∷ cs) (d ∷ ds) = c == d && same_text cs ds

abbrev pub star_text : Text
star_text = b'*' ∷ []

-- `text.includes(c)`
unfoldable pub includes_unit : ℕ → Text → Bool
includes_unit c [] = false
includes_unit c (d ∷ ds) = d == c || includes_unit c ds

-- The unit before the first part, in front of it.
unfoldable pub prepend_unit : ℕ → List Text → List Text
prepend_unit c [] = (c ∷ []) ∷ []
prepend_unit c (part ∷ parts) = (c ∷ part) ∷ parts

-- `text.split(c)`
unfoldable pub split_at : ℕ → Text → List Text
split_at c [] = [] ∷ []
split_at c (d ∷ ds) =
    let parts = split_at c ds in if d == c then [] ∷ parts else prepend_unit d parts

-- The lower-case parts of a pattern, or of what is checked.
pub record IgnoreEntry : Type 0 where
  pub host : Text
  pub user : Text
  pub nick : Text

-- `text.replace(/^~/, '')`
unfoldable pub strip_tilde : Text → Text
strip_tilde [] = []
strip_tilde (c ∷ cs) = if c == b'~' then cs else c ∷ cs

-- The part before the `@`, and the host behind it.
unfoldable pub before_at : Text → Text → List Text → IgnoreEntry
before_at left host (nick ∷ user ∷ []) = record { host = host; user = user; nick = nick }
before_at left host _ = record { host = host; user = left; nick = star_text }

-- A pattern without a single `@`.
unfoldable pub without_at : Text → List Text → IgnoreEntry
without_at pattern (nick ∷ host ∷ []) = record { host = host; user = star_text; nick = nick }
without_at pattern _ = record { host = star_text; user = star_text; nick = pattern }

unfoldable pub split_pattern : Text → List Text → IgnoreEntry
split_pattern pattern (left ∷ host ∷ []) = before_at left host (split_at b'!' left)
split_pattern pattern _ = without_at pattern (split_at b'!' pattern)

-- The maps, in the order of insertion.
abbrev pub NickSet : Type 0
NickSet = List Text

abbrev pub UserMap : Type 0
UserMap = List (Text × NickSet)

abbrev pub HostMap : Type 0
HostMap = List (Text × UserMap)

-- `set.add(nick)`
unfoldable pub add_nick : Text → NickSet → NickSet
add_nick nick [] = nick ∷ []
add_nick nick (n ∷ ns) =
    let rest = add_nick nick ns in if same_text n nick then n ∷ ns else n ∷ rest

-- The set of the user, made when there is none, gets the nick.
unfoldable pub add_user : Text → Text → UserMap → UserMap
add_user user nick [] = (user, nick ∷ []) ∷ []
add_user user nick (e ∷ es) =
    let rest = add_user user nick es in
    if same_text e.0 user then (e.0, add_nick nick e.1) ∷ es else e ∷ rest

-- The map of the host, made when there is none, gets the user.
unfoldable pub add_entry : IgnoreEntry → HostMap → HostMap
add_entry a [] = (a.host, (a.user, a.nick ∷ []) ∷ []) ∷ []
add_entry a (e ∷ es) =
    let rest = add_entry a es in
    if same_text e.0 a.host then (e.0, add_user a.user a.nick e.1) ∷ es else e ∷ rest

-- What `.` does not match.
unfoldable pub is_line_break : ℕ → Bool
is_line_break c = c == 10 || c == 13 || c == 8232 || c == 8233

-- `.*` before what the rest of a pattern matches.
unfoldable pub match_star : (Text → Bool) → Text → Bool
match_star m [] = m []
match_star m (d ∷ ds) = m (d ∷ ds) || not (is_line_break d) && match_star m ds

unfoldable pub any {ℓ} : {A : Type ℓ} → (A → Bool) → List A → Bool
any p [] = false
any p (x ∷ xs) = p x || any p xs

module _ (lower : Text → Text) where
  unfoldable pub entry_of : Text → IgnoreEntry
  entry_of pattern =
      let e = split_pattern pattern (split_at b'@' pattern) in
      record { host = lower e.host; user = lower (strip_tilde e.user); nick = lower e.nick }

  -- `parse`
  unfoldable pub parse : List Text → HostMap → HostMap
  parse [] root = root
  parse (pattern ∷ patterns) root = parse patterns (add_entry (entry_of pattern) root)

  -- The user and host of a hostmask, by its parts at the first `@`.
  unfoldable pub token_of : Text → Text → Text × Text
  token_of seen [] = (lower (reverse seen), star_text)
  token_of seen (c ∷ cs) = elim (c == b'@') [
    | true ↦ (lower (strip_tilde (reverse seen)), lower cs)
    | false ↦ token_of (c ∷ seen) cs
  ]

  -- A missing hostmask is the empty one.
  unfoldable pub tokens : Text → Text × Text
  tokens [] = (star_text, star_text)
  tokens (c ∷ cs) = token_of [] (c ∷ cs)

module _ (same_letter : ℕ → ℕ → Bool) where
  -- A unit of a pattern before the rest of it.
  unfoldable pub match_unit : ℕ → (Text → Bool) → Text → Bool
  match_unit c m [] = false
  match_unit c m (d ∷ ds) = (if c == b'?' then not (is_line_break d) else same_letter c d) && m ds

  -- The regular expression made from a pattern, between `^` and `$`.
  unfoldable pub matches : Text → Text → Bool
  matches [] = is_empty
  matches (c ∷ cs) =
      let rest = matches cs in if c == b'*' then match_star rest else match_unit c rest

  unfoldable pub check_wildcard : Text → Text → Bool
  check_wildcard pattern token =
      not (leb (length pattern) 1)
      && (includes_unit b'*' pattern || includes_unit b'?' pattern)
      && matches pattern token

  module _ {ℓ} {V : Type ℓ} where
    -- The three lists of `collectMaps`.
    unfoldable pub collect_exact : Text → List (Text × V) → List V
    collect_exact token [] = []
    collect_exact token (e ∷ es) =
        let rest = collect_exact token es in if same_text e.0 token then e.1 ∷ rest else rest

    unfoldable pub collect_any : Text → List (Text × V) → List V
    collect_any token [] = []
    collect_any token (e ∷ es) =
        let rest = collect_any token es in
        if not (same_text e.0 token) && same_text e.0 star_text then e.1 ∷ rest else rest

    unfoldable pub collect_wildcard : Text → List (Text × V) → List V
    collect_wildcard token [] = []
    collect_wildcard token (e ∷ es) =
        let rest = collect_wildcard token es in
        if not (same_text e.0 token) && not (same_text e.0 star_text) && check_wildcard e.0 token
        then e.1 ∷ rest
        else rest

    unfoldable pub collect_maps : Text → List (Text × V) → List V
    collect_maps token m = collect_exact token m ++ collect_wildcard token m ++ collect_any token m

  -- A user of `check`'s loops: one set of nicks, and one map of users.
  unfoldable pub check_nicks : Text → NickSet → Bool
  check_nicks target nicks =
      any (λ n. same_text n target) nicks
      || any (λ n. same_text n star_text) nicks
      || any (λ n. (includes_unit b'*' n || includes_unit b'?' n) && check_wildcard n target) nicks

  unfoldable pub check_users : Text → Text → UserMap → Bool
  check_users user target users = any (check_nicks target) (collect_maps user users)

module _ (lower : Text → Text) (same_letter : ℕ → ℕ → Bool) where
  unfoldable pub check : HostMap → Text → Text → Bool
  check root [] hostmask = false
  check root (c ∷ cs) hostmask =
      let t = tokens lower hostmask in
      any (check_users same_letter t.0 (lower (c ∷ cs))) (collect_maps same_letter t.1 root)

-- `upgradeLegacyPattern`
unfoldable pub upgrade_legacy_pattern : Text → Text
upgrade_legacy_pattern pattern =
    if includes_unit b'!' pattern
      || includes_unit b'@' pattern
      || includes_unit b'*' pattern
      || includes_unit b'?' pattern
    then pattern
    else pattern ++ (b'!' ∷ b'*' ∷ b'@' ∷ b'*' ∷ [])

module _ (lower : Text → Text) where
  unfoldable pub parse_ignore_list : List Text → HostMap
  parse_ignore_list patterns = parse lower (map upgrade_legacy_pattern patterns) []
