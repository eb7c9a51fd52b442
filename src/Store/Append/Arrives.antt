-- ===== src/Store/Append/Arrives.antt =====
-- ircStore.svelte.ts, `appendMessage`: the row that a message has afterwards.
use Prim.Native.String.{String}
use ircfiber_site.Common.{
  ℕ, zero, suc, ◌-◌, ◌≤◌, ◌<◌, ◌≡◌, refl, inl, inr, Bool, true, false, Option, none, some, List, [],
  ◌∷◌, ◌++◌, arith, Option-cases, length, get_elem?, drop, length-append,
}
use ircfiber_site.Store.Message.{IrcMessage, find_index, set_at, find_last_index, some_row}
use ircfiber_site.Store.Place.{max_js_messages, cap, insert_row, place}
use ircfiber_site.Store.Append.{
  Chat, forget, has_label, or_label, by_label, is_duplicate, replace_row, replace_found, echo_loop,
  is_synthetic, by_echo, is_near_pending, place_row, append_new, append_unlabelled, append_message,
}

find_index-lt {ℓ} :
    {A : Type ℓ} (q : A → Bool) (xs : List A) (i : ℕ) → find_index q xs ≡ some i → i < length xs
unfolding find_index
find_index-lt q [] i h = cc
find_index-lt q (x ∷ xs) i h = elim (Option-cases (find_index q xs)) [
  | inl missing ↦ ground (arith, missing)
  | inr (j, found) ↦ ground (arith, found, find_index-lt q xs j found)
]

get_elem?-lt :
    (rows : List IrcMessage) (i : ℕ) (m : IrcMessage) → get_elem? rows i ≡ some m → i < length rows
get_elem?-lt [] i m h = cc
get_elem?-lt (x ∷ xs) zero m h = omega arith
get_elem?-lt (x ∷ xs) (suc i) m h = omega (arith, get_elem?-lt xs i m h)

module _ (p : IrcMessage → Bool) where
  some_row-set_at :
      (i : ℕ) (x : IrcMessage) (rows : List IrcMessage)
      → i < length rows
      → p x ≡ true
      → some_row p (set_at i x rows) ≡ true
  unfolding some_row set_at
  some_row-set_at i x [] h e = absurd (omega arith)
  some_row-set_at zero x (y ∷ ys) h e = ground arith
  some_row-set_at (suc i) x (y ∷ ys) h e = ground (arith, some_row-set_at i x ys)

  some_row-snoc :
      (k : ℕ) (x : IrcMessage) (rows : List IrcMessage)
      → k ≤ length rows
      → p x ≡ true
      → some_row p (drop k (rows ++ x ∷ [])) ≡ true
  unfolding some_row
  some_row-snoc zero x [] h e = ground arith
  some_row-snoc (suc k) x [] h e = absurd (omega arith)
  some_row-snoc zero x (y ∷ ys) h e = ground (arith, some_row-snoc zero x ys)
  some_row-snoc (suc k) x (y ∷ ys) h e = some_row-snoc k x ys (omega arith) e

  some_row-insert_row :
      (locale_gt : String → String → Bool) (x : IrcMessage) (rows : List IrcMessage)
      → p x ≡ true
      → some_row p (insert_row locale_gt x rows) ≡ true
  unfolding some_row insert_row
  some_row-insert_row locale_gt x [] e = ground arith
  some_row-insert_row locale_gt x (y ∷ ys) e = ground (arith, some_row-insert_row locale_gt x ys e)

  some_row-place :
      (locale_gt : String → String → Bool) (x : IrcMessage) (rows : List IrcMessage)
      → p x ≡ true
      → some_row p (place locale_gt x rows) ≡ true
  unfolding place cap
  some_row-place locale_gt x rows e = ground (
    arith,
    some_row-insert_row locale_gt x rows e,
    some_row-snoc 0 x rows,
    some_row-snoc (length (rows ++ x ∷ []) - max_js_messages) x rows,
    length-append rows (x ∷ []),
  )

  -- A test that a message passes whichever label it has or takes over.
  abbrev pub KnowsRow : IrcMessage → Type 0
  KnowsRow msg = (p msg ≡ true) × ((label : String) → p (or_label label msg) ≡ true)

  by_label-arrives :
      (msg : IrcMessage) (c c' : Chat)
      → KnowsRow msg
      → by_label msg c ≡ some c'
      → some_row p c'.rows ≡ true
  unfolding by_label
  by_label-arrives msg c c' k h = elim (Option-cases (find_index (has_label msg.label) c.rows)) [
    | inl missing ↦ ground (arith, missing)
    | inr (i, found) ↦ ground (
      arith,
      found,
      some_row-set_at i msg c.rows (find_index-lt (has_label msg.label) c.rows i found) k.0,
    )
  ]

  replace_found-arrives :
      (msg : IrcMessage) (o : Option ℕ) (c c' : Chat)
      → KnowsRow msg
      → replace_found msg o c ≡ some c'
      → some_row p c'.rows ≡ true
  unfolding replace_found replace_row
  replace_found-arrives msg none c c' k h = cc
  replace_found-arrives msg (some i) c c' k h = elim (Option-cases (get_elem? c.rows i)) [
    | inl missing ↦ ground (arith, missing)
    | inr (m, found) ↦ ground (
      arith,
      found,
      some_row-set_at i (or_label m.label msg) c.rows (get_elem?-lt c.rows i m found) (k.1 m.label),
    )
  ]

module _ (lower trim : String → String) (p : IrcMessage → Bool) where
  echo_loop-arrives :
      (msg : IrcMessage) (os : List (String × IrcMessage)) (c : Chat)
      → KnowsRow p msg
      → (echo_loop lower trim msg os c).1 ≡ true
      → some_row p (echo_loop lower trim msg os c).0.rows ≡ true
  unfolding echo_loop
  echo_loop-arrives msg [] c k h = cc
  echo_loop-arrives msg ((label, o) ∷ os) c k h =
      let forgotten = record c { optimistic = forget label c.optimistic } in
      elim (Option-cases (find_index (has_label label) c.rows)) [
        | inl missing ↦
            ground
              (arith, missing, echo_loop-arrives msg os c k, echo_loop-arrives msg os forgotten k)
        | inr (i, found) ↦ ground (
          arith,
          found,
          echo_loop-arrives msg os c k,
          some_row-set_at p i (or_label label msg) c.rows
              (find_index-lt (has_label label) c.rows i found) (k.1 label),
        )
      ]

  by_echo-arrives :
      (now : ℕ) (msg : IrcMessage) (c : Chat)
      → KnowsRow p msg
      → (by_echo lower trim now msg c).1 ≡ true
      → some_row p (by_echo lower trim now msg c).0.rows ≡ true
  unfolding by_echo
  by_echo-arrives now msg c k h =
      let looped = (echo_loop lower trim msg c.optimistic c).0 in
      let at = find_last_index (is_synthetic lower trim now msg) looped.rows in
      elim (Option-cases (replace_found msg at looped)) [
        | inl missing ↦ ground (arith, missing, echo_loop-arrives msg c.optimistic c k)
        | inr (c', found) ↦ ground (
          arith,
          found,
          echo_loop-arrives msg c.optimistic c k,
          replace_found-arrives p msg at looped c' k found,
        )
      ]

  -- The echo tests leave the rows as they are when they replace none.
  echo_loop-missed :
      (msg : IrcMessage) (os : List (String × IrcMessage)) (c : Chat)
      → (echo_loop lower trim msg os c).1 ≡ false
      → (echo_loop lower trim msg os c).0.rows ≡ c.rows
  unfolding echo_loop
  echo_loop-missed msg [] c h = refl
  echo_loop-missed msg ((label, o) ∷ os) c h =
      let forgotten = record c { optimistic = forget label c.optimistic } in
      elim (Option-cases (find_index (has_label label) c.rows)) [
        | inl missing ↦
            ground (arith, missing, echo_loop-missed msg os c, echo_loop-missed msg os forgotten)
        | inr (i, found) ↦ ground (arith, found, echo_loop-missed msg os c)
      ]

  by_echo-missed :
      (now : ℕ) (msg : IrcMessage) (c : Chat)
      → (by_echo lower trim now msg c).1 ≡ false
      → (by_echo lower trim now msg c).0.rows ≡ c.rows
  unfolding by_echo
  by_echo-missed now msg c h =
      let looped = (echo_loop lower trim msg c.optimistic c).0 in
      let at = find_last_index (is_synthetic lower trim now msg) looped.rows in
      elim (Option-cases (replace_found msg at looped)) [
        | inl missing ↦ ground (arith, missing, echo_loop-missed msg c.optimistic c)
        | inr (c', found) ↦ ground (arith, found)
      ]

  module _ (locale_gt : String → String → Bool) where
    append_new-arrives :
        (msg : IrcMessage) (c : Chat)
        → KnowsRow p msg
        → is_duplicate msg c.rows ≡ false
        → some_row p (append_new lower trim locale_gt msg c).rows ≡ true
    unfolding append_new place_row
    append_new-arrives msg c k new =
        let at = find_last_index (is_near_pending lower trim msg) c.rows in
        elim (Option-cases (replace_found msg at c)) [
          | inl missing ↦ ground (arith, missing, some_row-place p locale_gt msg c.rows k.0)
          | inr (c', found) ↦ ground (arith, found, replace_found-arrives p msg at c c' k found)
        ]

    append_unlabelled-arrives :
        (now : ℕ) (cur_nick : String) (msg : IrcMessage) (c : Chat)
        → KnowsRow p msg
        → is_duplicate msg c.rows ≡ false
        → some_row p (append_unlabelled lower trim locale_gt now cur_nick msg c).rows ≡ true
    unfolding append_unlabelled
    append_unlabelled-arrives now cur_nick msg c k new =
        let echoed = (by_echo lower trim now msg c).0 in
        ground (
          arith,
          by_echo-arrives now msg c k,
          by_echo-missed now msg c,
          append_new-arrives msg c k new,
          append_new-arrives msg echoed k,
        )

    -- `appendMessage` loses no message: unless a row with its eid or its msgid is there already,
    -- the message that it is given has a row afterwards, its own or that of the message it
    -- replaces. The row has all that a test can see that does not look at the label, which a
    -- message without one takes over.
    pub append_message-arrives :
        (now : ℕ) (cur_nick : String) (msg : IrcMessage) (c : Chat)
        → (p msg ≡ true) × ((label : String) → p (or_label label msg) ≡ true)
        → is_duplicate msg c.rows ≡ false
        → some_row p (append_message lower trim locale_gt now cur_nick msg c).rows ≡ true
    unfolding append_message
    append_message-arrives now cur_nick msg c k new =
        let forgotten = record c { optimistic = forget msg.label c.optimistic } in
        elim (Option-cases (by_label msg c)) [
          | inl missing ↦ ground (
            arith,
            missing,
            append_unlabelled-arrives now cur_nick msg c k new,
            append_unlabelled-arrives now cur_nick msg forgotten k new,
          )
          | inr (c', found) ↦ ground (arith, found, by_label-arrives p msg c c' k found)
        ]
