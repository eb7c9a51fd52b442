-- ===== src/TabCompletion/Candidates/Choice.antt =====
-- frontend/src/lib/tabCompletion.ts: `getCandidates`, which chooses the list for the word under the
-- cursor, and the list of commands.
use ircfiber_site.Common.{
  ℕ, ◌==◌, Bool, true, false, ◌&&◌, ◌||◌, List, [], ◌∷◌, map, filter, leb, ltb, length, drop,
  is_empty, if◌then◌else◌, none, some,
}
use ircfiber_site.FuzzyMatch.{starts_with}
use ircfiber_site.SlashCommands.{codes}
use ircfiber_site.TabCompletion.{Text, CandidateType, Candidate, Engine, Word, get_word_at_cursor}
use ircfiber_site.TabCompletion.Candidates.{
  Member, begins_at, nick_candidates, mention_candidates, channel_candidates,
}

abbrev pub commands : List Text
commands =
    codes "nick"
    ∷ codes "topic"
    ∷ codes "away"
    ∷ codes "back"
    ∷ codes "invite"
    ∷ codes "whois"
    ∷ codes "ignore"
    ∷ codes "unignore"
    ∷ codes "op"
    ∷ codes "deop"
    ∷ codes "voice"
    ∷ codes "devoice"
    ∷ codes "kick"
    ∷ codes "ban"
    ∷ codes "unban"
    ∷ codes "kickban"
    ∷ codes "raw"
    ∷ codes "umode"
    ∷ codes "quit"
    ∷ codes "part"
    ∷ codes "me"
    ∷ codes "cycle"
    ∷ codes "clear"
    ∷ codes "archive"
    ∷ codes "unarchive"
    ∷ codes "delete"
    ∷ codes "reconnect"
    ∷ codes "highlight"
    ∷ codes "unhighlight"
    ∷ codes "join"
    ∷ codes "msg"
    ∷ codes "notice"
    ∷ codes "query"
    ∷ codes "list"
    ∷ []

-- `a > b`, by code units
unfoldable pub text_after : Text → Text → Bool
text_after [] b = false
text_after (c ∷ a) [] = true
text_after (c ∷ a) (d ∷ b) = ltb d c || c == d && text_after a b

-- `sort()`
unfoldable pub insert_name : Text → List Text → List Text
insert_name t [] = t ∷ []
insert_name t (x ∷ xs) =
    let more = insert_name t xs in if text_after t x then x ∷ more else t ∷ x ∷ xs

unfoldable pub sort_names : List Text → List Text
sort_names [] = []
sort_names (t ∷ ts) = insert_name t (sort_names ts)

unfoldable pub command_candidate : Text → Candidate
command_candidate name = record {
  value = 47 ∷ name;
  kind = CandidateType.command;
  display = some (47 ∷ name);
  is_away = none;
  last_spoke = none;
}

-- `word.startsWith(...)`, of one unit
unfoldable pub begins_with : ℕ → Text → Bool
begins_with u [] = false
begins_with u (c ∷ _) = c == u

module _ (lower : Text → Text) (natural_after : Text → Text → Bool) where
  unfoldable pub get_command_candidates : Text → List Candidate
  get_command_candidates partial =
      map command_candidate (sort_names (filter (starts_with (lower partial)) commands))

  -- `getEmojiCandidates`
  unfoldable pub get_emoji_candidates : Text → List Candidate
  get_emoji_candidates partial = []

  unfoldable pub choose : Word → List Member → List Text → Text → List Candidate
  choose w members buffers my_nick =
      if is_empty w.word
      then []
      else if begins_with 47 w.word && w.start == 0
      then get_command_candidates (drop 1 w.word)
      else if begins_with 58 w.word && leb 3 (length w.word)
      then get_emoji_candidates (drop 1 w.word)
      else if begins_with 35 w.word
      then channel_candidates lower natural_after w.word buffers
      else if begins_at w.word
      then mention_candidates lower natural_after w.word members my_nick
      else nick_candidates lower natural_after w.word members my_nick

  unfoldable pub get_candidates :
      Text → ℕ → List Member → List Text → Text → Engine → List Candidate × Engine
  get_candidates input pos members buffers my_nick e =
      let w = get_word_at_cursor input pos in
      (
        choose w members buffers my_nick,
        record e { original_word = w.word; word_start = w.start; word_end = w.end },
      )
