-- ===== src/FormatCache/Laws.antt =====
-- formatCache.ts: a lookup through the memo table beside the function itself.
use Prim.Native.String.{String}
use text.Mathlib.Text.{◌==◌ as str_eq}
use text.Mathlib.TextEquality.{eq_iff}
use ircfiber_site.Common.{
  suc, ◌+◌, ◌≤◌, ◌<◌, ◌≡◌, refl, sym, ◌≢◌, inl, inr, Option, none, some, List, [], ◌∷◌, ◌++◌, arith,
  leb, if◌then◌else◌, Bool-cases, length, length-append, All, All-append,
}
use ircfiber_site.FormatCache.{max_entries, lookup, evict_oldest, store, memo_hit, memo}

module _ {ℓ} {V : Type ℓ} where
  -- No key of the table is `key`.
  abbrev pub IsFresh : String → List (String × V) → Type 0
  IsFresh key [] = Unit {0}
  IsFresh key ((k, v) ∷ m) = (k ≢ key) × IsFresh key m

  abbrev pub HasDistinctKeys : List (String × V) → Type 0
  HasDistinctKeys [] = Unit {0}
  HasDistinctKeys ((k, v) ∷ m) = IsFresh k m × HasDistinctKeys m

  lookup-none : (key : String) (m : List (String × V)) → lookup key m ≡ none → IsFresh key m
  unfolding lookup
  lookup-none key [] e = tt
  lookup-none key ((k, v) ∷ m) e = ground (arith, eq_iff k key, lookup-none key m)

  pub lookup_of_IsFresh :
      (key : String) (m : List (String × V)) → IsFresh key m → lookup key m ≡ none
  unfolding lookup
  lookup_of_IsFresh key [] h = refl
  lookup_of_IsFresh key ((k, v) ∷ m) h = ground (arith, eq_iff k key, lookup_of_IsFresh key m h.1)

  pub snoc-IsFresh :
      (key k : String) (v : V) (m : List (String × V))
      → IsFresh key m
      → k ≢ key
      → IsFresh key (m ++ (k, v) ∷ [])
  snoc-IsFresh key k v [] h ne = (ne, tt)
  snoc-IsFresh key k v ((j, w) ∷ m) h ne = (h.0, snoc-IsFresh key k v m h.1 ne)

  snoc-HasDistinctKeys :
      (k : String) (v : V) (m : List (String × V))
      → HasDistinctKeys m
      → IsFresh k m
      → HasDistinctKeys (m ++ (k, v) ∷ [])
  snoc-HasDistinctKeys k v [] d h = (tt, tt)
  snoc-HasDistinctKeys k v ((j, w) ∷ m) d h =
      (snoc-IsFresh j k v m d.0 (λ e. h.0 (sym e)), snoc-HasDistinctKeys k v m d.1 h.1)

  -- The table's invariant for the function that it memoizes.
  pub record IsMemo (compute : String → V) (m : List (String × V)) : Type ℓ where
    pub coherent : All (λ entry. entry.1 ≡ compute entry.0) m
    pub distinct : HasDistinctKeys m
    pub bounded : length m ≤ max_entries

module _ {ℓ} {V : Type ℓ} (compute : String → V) where
  lookup-coherent :
      (text : String) (m : List (String × V)) (v : V)
      → All (λ entry. entry.1 ≡ compute entry.0) m
      → lookup text m ≡ some v
      → v ≡ compute text
  unfolding lookup
  lookup-coherent text [] v h e = cc
  lookup-coherent text ((k, w) ∷ m) v h e =
      ground (arith, eq_iff k text, lookup-coherent text m v h.1)

  -- The table with room for one more entry.
  make_room : List (String × V) → List (String × V)
  make_room m = if leb max_entries (length m) then evict_oldest m else m

  make_room_lem :
      (m : List (String × V))
      → IsMemo compute m
      → IsMemo compute (make_room m) × (length (make_room m) < max_entries)
  unfolding make_room evict_oldest
  make_room_lem [] v = (v, omega arith)
  make_room_lem ((k, w) ∷ m) v = elim (Bool-cases (leb 500 (suc (length m)))) [
    | inl full ↦
        let shorter : suc (length m) ≤ 500 = v.bounded in
        rw full (
          record { coherent = v.coherent.1; distinct = v.distinct.1; bounded = omega arith },
          shorter,
        )
    | inr room ↦ rw room (v, ground arith)
  ]

  make_room-IsFresh :
      (text : String) (m : List (String × V)) → IsFresh text m → IsFresh text (make_room m)
  unfolding make_room evict_oldest
  make_room-IsFresh text [] h = tt
  make_room-IsFresh text ((k, w) ∷ m) h = elim (Bool-cases (leb 500 (suc (length m)))) [
    | inl full ↦ rw full h.1
    | inr room ↦ rw room h
  ]

  store-IsMemo :
      (text : String) (m : List (String × V))
      → IsMemo compute m
      → IsFresh text m
      → IsMemo compute (store text (compute text) m)
  unfolding store make_room
  store-IsMemo text m v h =
      let (kept, room) = make_room_lem m v in
      let fresh = make_room-IsFresh text m h in
      record {
        coherent =
            All-append (λ (entry : String × V). entry.1 ≡ compute entry.0) _
              ((text, compute text) ∷ []) kept.coherent (refl, tt);
        distinct = snoc-HasDistinctKeys text (compute text) _ kept.distinct fresh;
        bounded = omega (arith, length-append (make_room m) ((text, compute text) ∷ []));
      }

  memo_hit_lem :
      (text : String) (m : List (String × V)) (o : Option V)
      → lookup text m ≡ o
      → IsMemo compute m
      → IsMemo compute (memo_hit text (compute text) m o).0
        × ((memo_hit text (compute text) m o).1 ≡ compute text)
  unfolding memo_hit
  memo_hit_lem text m none e v = (store-IsMemo text m v (lookup-none text m e), refl)
  memo_hit_lem text m (some hit) e v = (v, lookup-coherent text m hit v.coherent e)

  -- Memoization is transparent: with a table of at most 500 distinct texts and their results, the
  -- result is the function's, and the table stays such a table.
  pub memo-IsMemo :
      (text : String) (m : List (String × V))
      → IsMemo compute m
      → IsMemo compute (memo compute text m).0 × ((memo compute text m).1 ≡ compute text)
  unfolding memo
  memo-IsMemo text m v = elim (Bool-cases (str_eq text "")) [
    | inl blank ↦ rw blank (v, refl)
    | inr more ↦ rw more (memo_hit_lem text m (lookup text m) refl v)
  ]

  memo_known :
      (old : String) (v : V) (m : List (String × V))
      → (memo compute old ((old, v) ∷ m)).0 ≡ (old, v) ∷ m
  unfolding memo memo_hit lookup
  memo_known old v m = ground (arith, eq_iff old old)

  memo_full :
      (old text : String) (v : V) (m : List (String × V))
      → length m + 1 ≡ max_entries
      → text ≢ ""
      → old ≢ text
      → lookup text m ≡ none
      → (memo compute text ((old, v) ∷ m)).0 ≡ m ++ (text, compute text) ∷ []
  unfolding memo memo_hit lookup store
  memo_full old text v m full ne other miss = ground (arith, eq_iff text "", eq_iff old text, miss)

  -- A hit does not refresh its entry, so the table drops what was inserted first and not what was
  -- used least recently: a full table loses its oldest entry at the next miss, even if the call
  -- just before was a hit on that entry.
  pub memo-evicts_oldest :
      (old text : String) (v : V) (m : List (String × V))
      → IsMemo compute ((old, v) ∷ m)
      → length m + 1 ≡ max_entries
      → text ≢ ""
      → old ≢ text
      → lookup text m ≡ none
      → lookup old (memo compute text (memo compute old ((old, v) ∷ m)).0).0 ≡ none
  memo-evicts_oldest old text v m d full ne other miss = rw (memo_known old v m) (
      rw (memo_full old text v m full ne other miss) (
        lookup_of_IsFresh old (m ++ (text, compute text) ∷ [])
          (snoc-IsFresh old text (compute text) m d.distinct.0 (λ e. other (sym e)))))
