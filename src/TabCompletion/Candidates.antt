-- ===== src/TabCompletion/Candidates.antt =====
-- frontend/src/lib/tabCompletion.ts: the candidates for the word under the cursor. `lower` is
-- `toLowerCase`, and `natural_after` says when `naturalCompare` puts its first text behind its
-- second.
pub mod Offered
pub mod Choice
pub mod Commands
use ircfiber_site.Common.{
  ℕ, Bool, true, false, not, ◌&&◌, ◌||◌, Option, none, some, List, [], ◌∷◌, map, ltb, ◌==◌,
  if◌then◌else◌, drop, filter,
}
use ircfiber_site.Formatting.Strip.{strip_irc_formatting}
use ircfiber_site.FuzzyMatch.{starts_with}
use ircfiber_site.Ignore.{same_text}
use ircfiber_site.TabCompletion.{Text, CandidateType, Candidate}

-- The fields of a member that completion reads.
pub record Member : Type 0 where
  pub nick : Text
  pub is_away : Bool
  pub last_spoke : ℕ
  pub last_highlighted : ℕ

-- `/[*!~&@%+]/`
unfoldable pub is_prefix_unit : ℕ → Bool
is_prefix_unit c = c == 42 || c == 33 || c == 126 || c == 38 || c == 64 || c == 37 || c == 43

-- `nick.replace(/^[*!~&@%+]+/, '')`
unfoldable pub strip_run : Text → Text
strip_run [] = []
strip_run (c ∷ nick) = let rest = strip_run nick in if is_prefix_unit c then rest else c ∷ nick

-- The units before the first `!`.
unfoldable pub before_bang : Text → Text
before_bang [] = []
before_bang (c ∷ nick) = let rest = before_bang nick in if c == 33 then [] else c ∷ rest

-- A `!` at the start is kept.
unfoldable pub cut_at_bang : Text → Text
cut_at_bang [] = []
cut_at_bang (c ∷ nick) = c ∷ (if c == 33 then nick else before_bang nick)

unfoldable pub strip_prefix : Text → Text
strip_prefix nick = cut_at_bang (strip_run nick)

unfoldable pub plain_nick : Text → Text
plain_nick nick = strip_irc_formatting (strip_prefix nick)

-- `sort`, which is stable.
unfoldable pub insert_member : (Member → Member → Bool) → Member → List Member → List Member
insert_member after m [] = m ∷ []
insert_member after m (n ∷ ns) =
    let rest = insert_member after m ns in if after m n then n ∷ rest else m ∷ n ∷ ns

unfoldable pub sort_members : (Member → Member → Bool) → List Member → List Member
sort_members after [] = []
sort_members after (m ∷ ms) = insert_member after m (sort_members after ms)

unfoldable pub nick_candidate : Member → Candidate
nick_candidate m = record {
  value = strip_prefix m.nick;
  kind = CandidateType.nick;
  display = some (plain_nick m.nick);
  is_away = some m.is_away;
  last_spoke = some m.last_spoke;
}

-- The `@` in front of a display; without a display the template reads `@undefined`.
unfoldable pub at_display : Option Text → Text
at_display none = b'@' ∷ b'u' ∷ b'n' ∷ b'd' ∷ b'e' ∷ b'f' ∷ b'i' ∷ b'n' ∷ b'e' ∷ b'd' ∷ []
at_display (some t) = b'@' ∷ t

unfoldable pub as_mention : Candidate → Candidate
as_mention c = record c {
  kind = CandidateType.mention;
  value = b'@' ∷ c.value;
  display = some (at_display c.display);
}

unfoldable pub channel_candidate : Text → Candidate
channel_candidate name = record {
  value = name;
  kind = CandidateType.channel;
  display = some name;
  is_away = none;
  last_spoke = none;
}

unfoldable pub begins_at : Text → Bool
begins_at [] = false
begins_at (c ∷ _) = c == 64

module _ (lower : Text → Text) (natural_after : Text → Text → Bool) where
  -- The test of the filter.
  unfoldable pub completes : Text → Text → Member → Bool
  completes word my_nick m =
      starts_with (lower word) (lower (plain_nick m.nick))
      && not (same_text (lower (plain_nick m.nick)) (lower (plain_nick my_nick)))

  -- The comparison of the sort is above 0.
  unfoldable pub comes_after : Member → Member → Bool
  comes_after a b =
      if not (a.last_spoke == b.last_spoke)
      then ltb a.last_spoke b.last_spoke
      else if not (a.last_highlighted == b.last_highlighted)
      then ltb a.last_highlighted b.last_highlighted
      else natural_after (plain_nick a.nick) (plain_nick b.nick)

  unfoldable pub nick_candidates : Text → List Member → Text → List Candidate
  nick_candidates word members my_nick =
      map nick_candidate (sort_members comes_after (filter (completes word my_nick) members))

  unfoldable pub mention_candidates : Text → List Member → Text → List Candidate
  mention_candidates fragment members my_nick =
      if begins_at fragment
      then map as_mention (nick_candidates (drop 1 fragment) members my_nick)
      else []

  unfoldable pub channel_candidates : Text → List Text → List Candidate
  channel_candidates word buffers =
      map channel_candidate (filter (λ b. starts_with (lower word) (lower b)) buffers)
