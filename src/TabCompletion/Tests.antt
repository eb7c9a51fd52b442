-- ===== src/TabCompletion/Tests.antt =====
-- A word and a walk, and the theorems at them.
use ircfiber_site.Common.{
  All, ◌≡◌, refl, Bool, true, false, none, some, List, [], ◌∷◌, map, arith, ltb, length,
}
use ircfiber_site.Formatting.Strip.{
  is_toggle, is_kept, match_second, match_arguments, remove_codes, strip_irc_formatting,
}
use ircfiber_site.FuzzyMatch.{starts_with}
use ircfiber_site.Ignore.{same_text}
use ircfiber_site.TabCompletion.{
  Text, is_space, space_at, word_start, word_end, slice, Word, get_word_at_cursor,
  mention_fragment_at, CandidateType, Candidate, Engine, next, step_index, cycle, replacement_for,
}
use ircfiber_site.TabCompletion.Candidates.Choice.{
  commands, text_after, insert_name, sort_names, command_candidate, begins_with,
  get_command_candidates, choose, get_candidates,
}
use ircfiber_site.TabCompletion.Candidates.Commands.{OffersCommand, get_candidates-OffersCommand}
use ircfiber_site.SlashCommands.Handlers.{Environment}
use ircfiber_site.TabCompletion.Cursor.{IsWordAt, get_word_at_cursor-IsWordAt}
use ircfiber_site.TabCompletion.Candidates.{
  Member, is_prefix_unit, strip_run, before_bang, cut_at_bang, strip_prefix, plain_nick,
  insert_member, sort_members, nick_candidate, completes, comes_after, nick_candidates,
}
use ircfiber_site.TabCompletion.Candidates.Offered.{Entry, member, entry_text, IsMask, IsEntry}
use ircfiber_site.TabCompletion.Candidates.Offered.Ranks.{IsOffered, nick_candidates-IsOffered}
use ircfiber_site.TabCompletion.Cycle.{}

-- `hi @amy !`
abbrev line : Text
line = b'h' ∷ b'i' ∷ 32 ∷ b'@' ∷ b'a' ∷ b'm' ∷ b'y' ∷ 32 ∷ b'!' ∷ []

abbrev mention_of_amy : Word
mention_of_amy = record { word = b'@' ∷ b'a' ∷ b'm' ∷ b'y' ∷ []; start = 3; end = 7 }

word_at_5 : get_word_at_cursor line 5 ≡ mention_of_amy
unfolding get_word_at_cursor word_start word_end slice space_at is_space
word_at_5 = refl

mention_at_5 : mention_fragment_at line 5 ≡ some mention_of_amy
unfolding mention_fragment_at word_start word_end slice space_at is_space
mention_at_5 = refl

no_mention_at_1 : mention_fragment_at line 1 ≡ none
unfolding mention_fragment_at word_start word_end slice space_at is_space
no_mention_at_1 = refl

get_word_at_cursor-IsWordAt_example : IsWordAt line 5 (get_word_at_cursor line 5)
get_word_at_cursor-IsWordAt_example = get_word_at_cursor-IsWordAt line 5 (omega arith)

abbrev amy : Candidate
amy = record {
  value = b'a' ∷ [];
  kind = CandidateType.nick;
  display = none;
  is_away = none;
  last_spoke = none;
}

abbrev room : Candidate
room = record amy { value = b'#' ∷ []; kind = CandidateType.channel }

abbrev at_the_end : Engine
at_the_end = record {
  candidates = amy ∷ room ∷ [];
  current_index = some 1;
  original_word = [];
  word_start = 0;
  word_end = 0;
}

amy_inserted : replacement_for amy 0 ≡ b'a' ∷ 58 ∷ 32 ∷ []
unfolding replacement_for
amy_inserted = refl

wraps : (cycle next at_the_end).0 ≡ some amy
unfolding cycle step_index
wraps = refl

-- `@amy`, `~ann!u` and `bob`
-- `@amy` with a bold `amy`.
abbrev amy_entry : Entry
amy_entry = record {
  prefixes = b'@' ∷ [];
  first = 2;
  later = b'a' ∷ b'm' ∷ b'y' ∷ [];
  mask = [];
  is_away = false;
  last_spoke = 0;
  last_highlighted = 0;
}

-- `~ann!u`
abbrev ann_entry : Entry
ann_entry = record {
  prefixes = b'~' ∷ [];
  first = b'a';
  later = b'n' ∷ b'n' ∷ [];
  mask = b'!' ∷ b'u' ∷ [];
  is_away = true;
  last_spoke = 7;
  last_highlighted = 0;
}

abbrev bob_entry : Entry
bob_entry = record {
  prefixes = [];
  first = b'b';
  later = b'o' ∷ b'b' ∷ [];
  mask = [];
  is_away = false;
  last_spoke = 9;
  last_highlighted = 0;
}

abbrev entries : List Entry
entries = amy_entry ∷ ann_entry ∷ bob_entry ∷ []

abbrev people : List Member
people = map member entries

amy_entry-IsEntry : IsEntry amy_entry
unfolding is_prefix_unit IsMask
amy_entry-IsEntry = record {
  prefixes_are = (refl, tt);
  first_is = refl;
  later_is = (omega arith, (omega arith, (omega arith, tt)));
  mask_is = tt;
}

ann_entry-IsEntry : IsEntry ann_entry
unfolding is_prefix_unit IsMask
ann_entry-IsEntry = record {
  prefixes_are = (refl, tt);
  first_is = refl;
  later_is = (omega arith, (omega arith, tt));
  mask_is = refl;
}

bob_entry-IsEntry : IsEntry bob_entry
unfolding is_prefix_unit IsMask
bob_entry-IsEntry = record {
  prefixes_are = tt;
  first_is = refl;
  later_is = (omega arith, (omega arith, tt));
  mask_is = tt;
}

abbrev small : Text → Text
small t = t

abbrev never_after : Text → Text → Bool
never_after s t = false

-- An order of nicks: the longer one behind.
abbrev longer : Text → Text → Bool
longer s t = ltb (length t) (length s)

longer_asymmetric : (s t : Text) → longer s t ≡ true → longer t s ≡ false
longer_asymmetric s t h = ground arith

longer_transitive : (s t u : Text) → longer s t ≡ false → longer t u ≡ false → longer s u ≡ false
longer_transitive s t u h k = ground arith

offered :
    map
      (λ (c : Candidate). c.value)
      (nick_candidates small never_after (b'a' ∷ []) people (b'b' ∷ []))
    ≡ (b'a' ∷ b'n' ∷ b'n' ∷ []) ∷ (2 ∷ b'a' ∷ b'm' ∷ b'y' ∷ []) ∷ []
unfolding nick_candidates nick_candidate sort_members insert_member comes_after completes plain_nick
    strip_prefix strip_run before_bang cut_at_bang is_prefix_unit starts_with same_text
    strip_irc_formatting match_arguments match_second is_kept is_toggle remove_codes
offered = refl

nick_candidates-IsOffered_example :
    IsOffered small longer
      (b'a' ∷ [])
      bob_entry
      entries
      (nick_candidates small longer (b'a' ∷ []) people (entry_text bob_entry))
nick_candidates-IsOffered_example =
    nick_candidates-IsOffered small longer longer_asymmetric longer_transitive (b'a' ∷ []) bob_entry
      entries bob_entry-IsEntry (amy_entry-IsEntry, (ann_entry-IsEntry, (bob_entry-IsEntry, tt)))

abbrev typing : Environment
typing = record {
  lower = small;
  upper = small;
  network_id = [];
  now = 0;
  label = [];
  cleared = true;
}

-- `/unb`
abbrev unban_begun : Text
unban_begun = 47 ∷ b'u' ∷ b'n' ∷ b'b' ∷ []

unban_offered :
    map
      (λ (c : Candidate). c.value)
      (get_candidates small never_after unban_begun 4 people [] [] at_the_end).0
    ≡ (47 ∷ b'u' ∷ b'n' ∷ b'b' ∷ b'a' ∷ b'n' ∷ []) ∷ []
unfolding get_candidates choose get_command_candidates command_candidate sort_names insert_name
    text_after begins_with get_word_at_cursor word_start word_end slice space_at is_space
    starts_with
unban_offered = refl

small_fixed : (ts : List Text) → All (λ (t : Text). typing.lower t ≡ t) ts
small_fixed [] = tt
small_fixed (t ∷ ts) = (refl, small_fixed ts)

get_candidates-OffersCommand_example :
    All
      (OffersCommand typing)
      (get_candidates small never_after unban_begun 4 people [] [] at_the_end).0
get_candidates-OffersCommand_example =
    get_candidates-OffersCommand typing never_after (small_fixed commands) unban_begun 4 people []
      [] at_the_end
