-- ===== src/Store/Fail.antt =====
-- ircStore.svelte.ts: the stored FAIL rows of a page become the rows that the live branch shows.
use Prim.Native.String.{String, ◌++◌ as str_append}
use text.Mathlib.Text.{◌==◌ as str_eq, starts_with}
use ircfiber_site.Common.{
  ℕ, Bool, not, ◌&&◌, ◌||◌, none, some, List, [], ◌∷◌, if◌then◌else◌, get_elem?,
}
use ircfiber_site.Store.Message.{IrcMessage, truthy}

abbrev pub fail_redact_prefix : String
fail_redact_prefix = "Could not delete message: "

abbrev pub fail_edit_prefix : String
fail_edit_prefix = "Could not edit message: "

-- `params[i] || ''`
abbrev pub param : ℕ → List String → String
param i params = elim (get_elem? params i) [ none ↦ "" | some s ↦ s ]

abbrev pub prefix_for : IrcMessage → String
prefix_for msg = if str_eq (param 0 msg.params) "EDIT" then fail_edit_prefix else fail_redact_prefix

abbrev pub fail_body : IrcMessage → String
fail_body msg =
    if truthy msg.text
    then msg.text
    else if truthy (param 1 msg.params)
    then param 1 msg.params
    else "unknown error"

-- `failRedactText`
unfoldable pub fail_redact_text : IrcMessage → String
fail_redact_text msg =
    let text = fail_body msg in
    if starts_with text (prefix_for msg)
    then text
    else if not (str_eq (param 0 msg.params) "EDIT") && starts_with text fail_edit_prefix
    then text
    else if str_eq (param 0 msg.params) "EDIT" && starts_with text fail_redact_prefix
    then text
    else str_append (prefix_for msg) text

abbrev pub is_fail_row : IrcMessage → Bool
is_fail_row m =
    str_eq m.command "FAIL"
    && (str_eq (param 0 m.params) "REDACT" || str_eq (param 0 m.params) "EDIT")

-- `foldFailRedacts`
unfoldable pub fold_fail_redacts : List IrcMessage → List IrcMessage
fold_fail_redacts [] = []
fold_fail_redacts (m ∷ ms) =
    let rest = fold_fail_redacts ms in
    if is_fail_row m then record m { nick = ""; text = fail_redact_text m } ∷ rest else m ∷ rest
