-- ===== src/Store/Message.antt =====
-- ircStore.svelte.ts and types.ts: a message row, and the array operations on rows.
use Prim.Native.String.{String}
use text.Mathlib.Text.{◌==◌ as str_eq}
use ircfiber_site.Common.{
  ℕ, zero, suc, Bool, false, not, ◌&&◌, ◌||◌, Option, none, some, List, [], ◌∷◌, if◌then◌else◌,
}

-- The fields of `IRCMessage` that the store reads or writes. The code tests texts for truth, so
-- an absent text is the empty one; an absent `t` is 0 in the same way.
pub record IrcMessage : Type 0 where
  pub t : ℕ
  pub eid : Option ℕ
  pub msgid : String
  pub label : String
  pub nick : String
  pub command : String
  pub params : List String
  pub text : String
  pub self_echo : Bool
  pub redacted : Bool
  pub redact_reason : String
  pub redacted_by : String
  pub edited : Bool
  pub edit_of : String
  pub reply_to : String
  pub reaction : Option (String × Bool)
  pub reactions : List (String × List String)

-- `Boolean(text)`
abbrev pub truthy : String → Bool
truthy s = not (str_eq s "")

-- `list.findIndex(test)`
unfoldable pub find_index {ℓ} : {A : Type ℓ} → (A → Bool) → List A → Option ℕ
find_index p [] = none
find_index p (x ∷ xs) =
    let rest = find_index p xs in
    if p x then some 0 else elim rest [ none ↦ none | some i ↦ some (suc i) ]

-- `list[i] = x`
unfoldable pub set_at {ℓ} : {A : Type ℓ} → ℕ → A → List A → List A
set_at i x [] = []
set_at zero x (y ∷ ys) = x ∷ ys
set_at (suc i) x (y ∷ ys) = y ∷ set_at i x ys

-- The row that a msgid names; no row is named by the empty one.
abbrev pub named : String → IrcMessage → Bool
named msgid m = truthy m.msgid && str_eq m.msgid msgid

-- The last index whose row passes, as a loop from the end finds it.
unfoldable pub find_last_index {ℓ} : {A : Type ℓ} → (A → Bool) → List A → Option ℕ
find_last_index p [] = none
find_last_index p (x ∷ xs) =
    let rest = find_last_index p xs in
    elim rest [ none ↦ if p x then some 0 else none | some i ↦ some (suc i) ]

-- `list.some(test)`
unfoldable pub some_row {ℓ} : {A : Type ℓ} → (A → Bool) → List A → Bool
some_row p [] = false
some_row p (x ∷ xs) = p x || some_row p xs
