-- ===== src/TabCompletion/Candidates/Offered.antt =====
-- tabCompletion.ts: the nicks that are offered, described by the parts of an entry of the member
-- list.
mod Chosen
pub mod Ranks
use mathlib.Core.List.{Perm}
use ircfiber_site.Common.{
  ℕ, ◌≡◌, ◌≢◌, ◌<◌, refl, ap, ◌∙◌, ◌⊎◌, Bool, true, false, some, List, [], ◌∷◌, ◌++◌, map, arith,
  All,
}
use ircfiber_site.Formatting.Strip.{strip_irc_formatting}
use ircfiber_site.FuzzyMatch.Order.{Begins}
use ircfiber_site.TabCompletion.{Text, CandidateType, Candidate}
use ircfiber_site.TabCompletion.Candidates.{
  Member, is_prefix_unit, strip_run, before_bang, cut_at_bang, strip_prefix, plain_nick,
  nick_candidate,
}

-- An entry of the member list by its parts: mode prefixes, the nick with its formatting bytes, which
-- is `first` and `later`, and the mask from the first `!` on, or none.
pub record Entry : Type 0 where
  pub prefixes : Text
  pub first : ℕ
  pub later : Text
  pub mask : Text
  pub is_away : Bool
  pub last_spoke : ℕ
  pub last_highlighted : ℕ

abbrev pub raw_nick : Entry → Text
raw_nick e = e.first ∷ e.later

abbrev pub entry_text : Entry → Text
entry_text e = e.prefixes ++ (e.first ∷ (e.later ++ e.mask))

-- The nick as it reads.
abbrev pub shown_nick : Entry → Text
shown_nick e = strip_irc_formatting (raw_nick e)

abbrev pub member : Entry → Member
member e = record {
  nick = entry_text e;
  is_away = e.is_away;
  last_spoke = e.last_spoke;
  last_highlighted = e.last_highlighted;
}

unfoldable pub IsMask : Text → Type 0
IsMask [] = Unit
IsMask (c ∷ mask) = c ≡ 33

-- The parts are what they are called.
pub record IsEntry (e : Entry) : Type 0 where
  pub prefixes_are : All (λ c. is_prefix_unit c ≡ true) e.prefixes
  pub first_is : is_prefix_unit e.first ≡ false
  pub later_is : All (λ c. c ≢ 33) e.later
  pub mask_is : IsMask e.mask

-- What is shown in the list and inserted in the line.
abbrev pub offer : Entry → Candidate
offer e = record {
  value = raw_nick e;
  kind = CandidateType.nick;
  display = some (shown_nick e);
  is_away = some e.is_away;
  last_spoke = some e.last_spoke;
}

-- The nick as it reads begins with the word, and is not the user's own, in lower case.
abbrev pub Completes : (Text → Text) → Text → Entry → Entry → Type 0
Completes lower word mine e =
    Begins (lower word) (lower (shown_nick e)) × (lower (shown_nick e) ≢ lower (shown_nick mine))

-- Not behind: who spoke later, then who was highlighted later, then the order of the nicks.
abbrev pub IsAtLeast : (Text → Text → Bool) → Entry → Entry → Type 0
IsAtLeast natural_after a b =
    (b.last_spoke < a.last_spoke)
    ⊎ (b.last_spoke ≡ a.last_spoke)
      × ((b.last_highlighted < a.last_highlighted)
          ⊎ (b.last_highlighted ≡ a.last_highlighted)
            × (natural_after (shown_nick a) (shown_nick b) ≡ false))

abbrev pub IsRanked : (Text → Text → Bool) → List Entry → Type 0
IsRanked natural_after [] = Unit
IsRanked natural_after (e ∷ es) = All (IsAtLeast natural_after e) es × IsRanked natural_after es

strip_run_first :
    (p : Text) (c : ℕ) (rest : Text)
    → All (λ c. is_prefix_unit c ≡ true) p
    → is_prefix_unit c ≡ false
    → strip_run (p ++ (c ∷ rest)) ≡ c ∷ rest
unfolding strip_run
strip_run_first [] c rest h k = rw k refl
strip_run_first (d ∷ p) c rest (e, h) k = rw e (strip_run_first p c rest h k)

before_bang-mask :
    (later mask : Text)
    → All (λ c. c ≢ 33) later
    → IsMask mask
    → before_bang (later ++ mask) ≡ later
unfolding before_bang IsMask
before_bang-mask [] [] h k = refl
before_bang-mask [] (c ∷ mask) h k = ground arith
before_bang-mask (c ∷ later) mask (e, h) k = ground (arith, before_bang-mask later mask h k)

cut_at_bang-first :
    (c : ℕ) (later mask : Text)
    → is_prefix_unit c ≡ false
    → All (λ c. c ≢ 33) later
    → IsMask mask
    → cut_at_bang (c ∷ (later ++ mask)) ≡ c ∷ later
unfolding cut_at_bang is_prefix_unit
cut_at_bang-first c later mask f h k = ground (arith, before_bang-mask later mask h k)

-- The mode prefixes and the mask are taken off, and nothing else.
pub strip_prefix-entry_text : (e : Entry) → IsEntry e → strip_prefix (entry_text e) ≡ raw_nick e
unfolding strip_prefix
strip_prefix-entry_text e h =
    ap cut_at_bang
      (strip_run_first e.prefixes e.first (e.later ++ e.mask) h.prefixes_are h.first_is)
    ∙ cut_at_bang-first e.first e.later e.mask h.first_is h.later_is h.mask_is

pub plain_nick-entry_text : (e : Entry) → IsEntry e → plain_nick (entry_text e) ≡ shown_nick e
unfolding plain_nick
plain_nick-entry_text e h = ap strip_irc_formatting (strip_prefix-entry_text e h)

pub nick_candidate-member : (e : Entry) → IsEntry e → nick_candidate (member e) ≡ offer e
unfolding nick_candidate
nick_candidate-member e h = rw (strip_prefix-entry_text e h, plain_nick-entry_text e h) refl
