-- ===== src/Store/Append/Echo.antt =====
-- ircStore.svelte.ts, `appendMessage`: what the fallback for the sender's own messages replaces.
use Prim.Native.String.{String}
use ircfiber_site.Common.{
  ℕ, ◌+◌, ◌<◌, ◌≡◌, refl, Bool, true, some, List, [], ◌∷◌, ◌++◌, arith, length, get_elem?,
}
use ircfiber_site.Store.Message.{IrcMessage, set_at, find_last_index}
use ircfiber_site.Store.Append.{
  Chat, or_label, by_label, replace_row, replace_found, looks_same, is_self, echo_loop,
  is_synthetic, by_echo, append_unlabelled, append_message,
}

pub find_last_index-snoc {ℓ} :
    {A : Type ℓ} (p : A → Bool) (xs : List A) (x : A)
    → p x ≡ true
    → find_last_index p (xs ++ x ∷ []) ≡ some (length xs)
unfolding find_last_index
find_last_index-snoc p [] x h = ground arith
find_last_index-snoc p (y ∷ ys) x h = ground (arith, find_last_index-snoc p ys x h)

pub set_at-snoc {ℓ} :
    {A : Type ℓ} (xs : List A) (x y : A) → set_at (length xs) y (xs ++ x ∷ []) ≡ xs ++ y ∷ []
unfolding set_at
set_at-snoc [] x y = refl
set_at-snoc (z ∷ zs) x y = rw (set_at-snoc zs x y) refl

pub get_elem?-snoc {ℓ} :
    {A : Type ℓ} (xs : List A) (x : A) → get_elem? (xs ++ x ∷ []) (length xs) ≡ some x
get_elem?-snoc [] x = refl
get_elem?-snoc (y ∷ ys) x = get_elem?-snoc ys x

module _ (lower trim : String → String) (locale_gt : String → String → Bool) where
  -- A second message of the user with the text of the last row, within 30 seconds of it, takes
  -- that row's place, even if the row is a message that the server confirmed: that one is gone.
  -- The message has no label, and no message waits for its echo.
  pub append_message-swallows :
      (now : ℕ) (cur_nick : String) (before : List IrcMessage) (old msg : IrcMessage) (c : Chat)
      → c.rows ≡ before ++ old ∷ []
      → c.optimistic ≡ []
      → msg.label ≡ ""
      → is_self lower trim cur_nick msg ≡ true
      → looks_same lower trim msg old ≡ true
      → now < old.t + 30_000
      → (append_message lower trim locale_gt now cur_nick msg c).rows
        ≡ before ++ or_label old.label msg ∷ []
  unfolding append_message append_unlabelled by_label by_echo echo_loop replace_found replace_row
  append_message-swallows now cur_nick before old msg c rows alone unlabelled self same recent =
      let p = is_synthetic lower trim now msg in
      let chosen : p old ≡ true = ground (arith, same) in
      rw
        (
          rows,
          alone,
          unlabelled,
          self,
          find_last_index-snoc p before old chosen,
          get_elem?-snoc before old,
        )
        (set_at-snoc before old (record msg { label = old.label }))
