-- ===== src/TabCompletion/Candidates/Commands.antt =====
-- frontend/src/lib/tabCompletion.ts: the command names among the candidates, and the handlers that are
-- registered under them.
use ircfiber_site.Common.{
  ℕ, ◌≡◌, refl, ap, ◌∙◌, ◌⊎◌, inl, inr, Bool, true, false, ◌&&◌, ◌||◌, none, some, List, [], ◌∷◌,
  map, filter, arith, All, if◌then◌else◌, Bool-cases, Option-cases, drop,
}
use ircfiber_site.FuzzyMatch.{starts_with}
use ircfiber_site.FuzzyMatch.Tiers.{same_text_iff}
use ircfiber_site.Ignore.{same_text}
use ircfiber_site.SlashCommands.{codes, Handler}
use ircfiber_site.SlashCommands.Handlers.{Environment, has_text}
use ircfiber_site.SlashCommands.Registry.{find_handler, registered, get_slash_handler}
use ircfiber_site.TabCompletion.{Text, CandidateType, Candidate, Engine, Word, get_word_at_cursor}
use ircfiber_site.TabCompletion.Candidates.{
  Member, sort_members, nick_candidate, as_mention, channel_candidate, begins_at, comes_after,
  completes, nick_candidates, mention_candidates, channel_candidates,
}
use ircfiber_site.TabCompletion.Candidates.Choice.{
  commands, text_after, insert_name, sort_names, command_candidate, get_command_candidates,
  get_emoji_candidates, choose, get_candidates,
}

-- A name that some handler is registered under, or `join`, which the input line handles itself.
unfoldable pub IsCommand : Environment → Text → Type 0
IsCommand env name = (name ≡ codes "join") ⊎ (h : Handler) × (get_slash_handler env name ≡ some h)

-- A candidate that is a command is the line that begins with one.
unfoldable pub OffersCommand : Environment → Candidate → Type 0
OffersCommand env c =
    c.kind ≡ CandidateType.command → (name : Text) × (c.value ≡ 47 ∷ name) × IsCommand env name

is_handled : Environment → Text → Bool
is_handled env name =
    same_text name (codes "join")
    || elim (find_handler name (registered env)) [ none ↦ false | some h ↦ true ]

all_handled : Environment → List Text → Bool
all_handled env [] = true
all_handled env (t ∷ ts) = is_handled env t && all_handled env ts

commands-handled : (env : Environment) → all_handled env commands ≡ true
unfolding all_handled is_handled find_handler registered has_text same_text
commands-handled env = refl

All-mapped {ℓ κ} :
    {A : Type ℓ} {B : Type κ} (P : B → Type 0) (f : A → B)
    → ((a : A) → P (f a))
    → (xs : List A) → All P (map f xs)
All-mapped P f h [] = tt
All-mapped P f h (x ∷ xs) = (h x, All-mapped P f h xs)

All-map_of :
    (P : Text → Type 0) (Q : Candidate → Type 0) (f : Text → Candidate)
    → ((t : Text) → P t → Q (f t))
    → (ts : List Text) → All P ts
    → All Q (map f ts)
All-map_of P Q f h [] p = tt
All-map_of P Q f h (t ∷ ts) p = (h t p.0, All-map_of P Q f h ts p.1)

All-filter : (P : Text → Type 0) (q : Text → Bool) (ts : List Text) → All P ts → All P (filter q ts)
All-filter P q [] h = tt
All-filter P q (t ∷ ts) h =
    let more = All-filter P q ts h.1 in
    elim (q t) as (λ b. All P (elim b [ true ↦ t ∷ filter q ts | false ↦ filter q ts ])) [
      | true ↦ (h.0, more)
      | false ↦ more
    ]

All-insert_name :
    (P : Text → Type 0) (t : Text) (ts : List Text) → P t → All P ts → All P (insert_name t ts)
unfolding insert_name
All-insert_name P t [] p h = (p, tt)
All-insert_name P t (x ∷ xs) p h =
    let more = All-insert_name P t xs p h.1 in
    elim (text_after t x) as (λ b. All P (if b then x ∷ insert_name t xs else t ∷ x ∷ xs)) [
      | true ↦ (h.0, more)
      | false ↦ (p, h)
    ]

All-sort_names : (P : Text → Type 0) (ts : List Text) → All P ts → All P (sort_names ts)
unfolding sort_names
All-sort_names P [] h = tt
All-sort_names P (t ∷ ts) h = All-insert_name P t (sort_names ts) h.0 (All-sort_names P ts h.1)

module _ (env : Environment) where
  handled-IsCommand :
      (name : Text) → is_handled env name ≡ true → env.lower name ≡ name → IsCommand env name
  unfolding is_handled IsCommand get_slash_handler
  handled-IsCommand name h e = elim (Bool-cases (same_text name (codes "join"))) [
    | inl s ↦ inl ((same_text_iff name (codes "join")).0 s)
    | inr s ↦ elim (Option-cases (find_handler name (registered env))) [
      | inl q ↦ let no : false ≡ true = ground arith in cc
      | inr (g, q) ↦ inr (g, ap (λ (t : Text). find_handler t (registered env)) e ∙ q)
    ]
  ]

  handled-All :
      (ts : List Text)
      → all_handled env ts ≡ true
      → All (λ (t : Text). env.lower t ≡ t) ts
      → All (IsCommand env) ts
  unfolding all_handled
  handled-All [] h e = tt
  handled-All (t ∷ ts) h e =
      (handled-IsCommand t (ground arith) e.0, handled-All ts (ground arith) e.1)

  command_candidate-OffersCommand :
      (name : Text) → IsCommand env name → OffersCommand env (command_candidate name)
  unfolding OffersCommand command_candidate
  command_candidate-OffersCommand name h e = (name, refl, h)

  nick_candidate-OffersCommand : (m : Member) → OffersCommand env (nick_candidate m)
  unfolding OffersCommand nick_candidate
  nick_candidate-OffersCommand m e = cc

  as_mention-OffersCommand : (c : Candidate) → OffersCommand env (as_mention c)
  unfolding OffersCommand as_mention
  as_mention-OffersCommand c e = cc

  channel_candidate-OffersCommand : (t : Text) → OffersCommand env (channel_candidate t)
  unfolding OffersCommand channel_candidate
  channel_candidate-OffersCommand t e = cc

  AllOffer : List Candidate → Type 0
  AllOffer cs = All (OffersCommand env) cs

  if-AllOffer :
      (b : Bool) (xs ys : List Candidate)
      → AllOffer xs
      → AllOffer ys
      → AllOffer (if b then xs else ys)
  if-AllOffer true xs ys h k = h
  if-AllOffer false xs ys h k = k

  nil-AllOffer : AllOffer []
  unfolding AllOffer
  nil-AllOffer = tt

  module _ (natural_after : Text → Text → Bool)
      (fixed : All (λ (t : Text). env.lower t ≡ t) commands) where
    get_command_candidates-AllOffer :
        (partial : Text) → AllOffer (get_command_candidates env.lower natural_after partial)
    unfolding get_command_candidates AllOffer
    get_command_candidates-AllOffer partial =
        let names = filter (starts_with (env.lower partial)) commands in
        All-map_of (IsCommand env) (OffersCommand env) command_candidate
          command_candidate-OffersCommand (sort_names names)
          (All-sort_names (IsCommand env) names (
            All-filter (IsCommand env) (starts_with (env.lower partial)) commands
              (handled-All commands (commands-handled env) fixed)))

    nick_candidates-AllOffer :
        (word : Text) (members : List Member) (my_nick : Text)
        → AllOffer (nick_candidates env.lower natural_after word members my_nick)
    unfolding nick_candidates AllOffer
    nick_candidates-AllOffer word members my_nick =
        All-mapped (OffersCommand env) nick_candidate nick_candidate-OffersCommand (
          sort_members (comes_after env.lower natural_after)
            (filter (completes env.lower natural_after word my_nick) members))

    mention_candidates-AllOffer :
        (word : Text) (members : List Member) (my_nick : Text)
        → AllOffer (mention_candidates env.lower natural_after word members my_nick)
    unfolding mention_candidates AllOffer
    mention_candidates-AllOffer word members my_nick =
        if-AllOffer (begins_at word)
          (map as_mention (nick_candidates env.lower natural_after (drop 1 word) members my_nick))
          []
          (All-mapped (OffersCommand env) as_mention as_mention-OffersCommand
            (nick_candidates env.lower natural_after (drop 1 word) members my_nick))
          tt

    channel_candidates-AllOffer :
        (word : Text) (buffers : List Text)
        → AllOffer (channel_candidates env.lower natural_after word buffers)
    unfolding channel_candidates AllOffer
    channel_candidates-AllOffer word buffers =
        All-mapped (OffersCommand env) channel_candidate channel_candidate-OffersCommand
          (filter (λ b. starts_with (env.lower word) (env.lower b)) buffers)

    choose-AllOffer :
        (w : Word) (members : List Member) (buffers : List Text) (my_nick : Text)
        → AllOffer (choose env.lower natural_after w members buffers my_nick)
    unfolding choose get_emoji_candidates
    choose-AllOffer w members buffers my_nick =
        search
          (
            if-AllOffer, nil-AllOffer, get_command_candidates-AllOffer, nick_candidates-AllOffer,
            mention_candidates-AllOffer, channel_candidates-AllOffer,
          )
          depth 9

-- Whatever is typed and wherever the cursor is: a candidate that is a command is a slash and the
-- name of a command, one that a handler is registered under or /join, which the input line handles.
-- The names offered have to be in lower case.
pub get_candidates-OffersCommand :
    (env : Environment) (natural_after : Text → Text → Bool)
    → All (λ (t : Text). env.lower t ≡ t) commands
    → (input : Text) (pos : ℕ) (members : List Member) (buffers : List Text) (my_nick : Text)
      (e : Engine)
    → All
        (OffersCommand env)
        (get_candidates env.lower natural_after input pos members buffers my_nick e).0
unfolding get_candidates AllOffer
get_candidates-OffersCommand env natural_after fixed input pos members buffers my_nick e =
    choose-AllOffer env natural_after fixed (get_word_at_cursor input pos) members buffers my_nick
