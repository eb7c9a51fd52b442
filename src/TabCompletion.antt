-- ===== src/TabCompletion.antt =====
-- frontend/src/lib/tabCompletion.ts: the word under the cursor, the walk through the candidates and
-- what a chosen one inserts. A text is the list of its UTF-16 code units, and the state of the class
-- TabCompletionEngine is the record Engine.
pub mod Cursor
pub mod Cycle
pub mod Candidates
mod Tests
use ircfiber_site.Common.{
  ℕ, zero, suc, ◌-◌, Bool, false, ◌&&◌, ◌||◌, Option, none, some, List, [], ◌∷◌, ◌++◌, leb, ◌==◌,
  if◌then◌else◌, length, get_elem?, take, drop, is_empty,
}

abbrev pub Text : Type 0
Text = List ℕ

-- `/\s/`
unfoldable pub is_space : ℕ → Bool
is_space c =
    leb 9 c && leb c 13
    || c == 32
    || c == 160
    || c == 5760
    || leb 8192 c && leb c 8202
    || c == 8232
    || c == 8233
    || c == 8239
    || c == 8287
    || c == 12288
    || c == 65279

-- `/\s/.test(input[i])`
unfoldable pub space_at : Text → ℕ → Bool
space_at input i = elim (get_elem? input i) [ none ↦ false | some c ↦ is_space c ]

-- The loop that moves `start` back.
unfoldable pub word_start : Text → ℕ → ℕ
word_start input zero = 0
word_start input (suc start) =
    let earlier = word_start input start in if space_at input start then suc start else earlier

-- The loop that moves `end` on, over the units from there.
unfoldable pub word_end : ℕ → Text → ℕ
word_end end [] = end
word_end end (c ∷ rest) = let later = word_end (suc end) rest in if is_space c then end else later

-- `input.slice(start, end)`
unfoldable pub slice : ℕ → ℕ → Text → Text
slice start end input = take (end - start) (drop start input)

pub record Word : Type 0 where
  pub word : Text
  pub start : ℕ
  pub end : ℕ

unfoldable pub get_word_at_cursor : Text → ℕ → Word
get_word_at_cursor input pos =
    let start = word_start input pos in
    let end = word_end pos (drop pos input) in
    record { word = slice start end input; start = start; end = end }

unfoldable pub mention_fragment_at : Text → ℕ → Option Word
mention_fragment_at input pos =
    let start = word_start input pos in
    let end = word_end pos (drop pos input) in
    elim (get_elem? input start) [
      | none ↦ none
      | some c ↦
          if c == b'@'
          then some (record { word = slice start end input; start = start; end = end })
          else none
    ]

pub data CandidateType : Type 0 where
  nick : CandidateType
  channel : CandidateType
  command : CandidateType
  emoji : CandidateType
  mention : CandidateType

pub record Candidate : Type 0 where
  pub value : Text
  pub kind : CandidateType
  pub display : Option Text
  pub is_away : Option Bool
  pub last_spoke : Option ℕ

-- The `currentIndex` -1 is `none`.
pub record Engine : Type 0 where
  pub candidates : List Candidate
  pub current_index : Option ℕ
  pub original_word : Text
  pub word_start : ℕ
  pub word_end : ℕ

-- The direction of a step.
pub data Direction : Type 0 where
  next : Direction
  previous : Direction

-- The index after a step, in a list of `n`.
unfoldable pub step_index : Direction → ℕ → Option ℕ → ℕ
step_index next n none = 0
step_index next n (some i) = if leb n (suc i) then 0 else suc i
step_index previous n none = n - 1
step_index previous n (some zero) = n - 1
step_index previous n (some (suc i)) = if leb n i then 0 else i

unfoldable pub cycle : Direction → Engine → Option Candidate × Engine
cycle direction e =
    let i = step_index direction (length e.candidates) e.current_index in
    if is_empty e.candidates
    then (none, e)
    else (get_elem? e.candidates i, record e { current_index = some i })

unfoldable pub set_candidates : List Candidate → Engine → Engine
set_candidates candidates e = record e { candidates = candidates; current_index = none }

unfoldable pub reset : Engine → Engine
reset e = record e { candidates = []; current_index = none; original_word = [] }

-- What a chosen candidate inserts.
unfoldable pub replacement_for : Candidate → ℕ → Text
replacement_for candidate start = elim candidate.kind [
  | nick ↦ candidate.value ++ (if start == 0 then 58 ∷ 32 ∷ [] else 32 ∷ [])
  | emoji ↦ candidate.value ++ 58 ∷ 32 ∷ []
  | _ ↦ candidate.value ++ 32 ∷ []
]
