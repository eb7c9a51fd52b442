-- ===== src/Splitter/Break/Cases.antt =====
-- messageSplitter.ts: the branches of one round of `breakLine`, as case lemmas for any
-- predicate.
use ircfiber_site.Common.{
  ℕ, ◌+◌, ◌≤◌, ◌<◌, ◌≡◌, ◌≢◌, inl, inr, true, false, [], ◌∷◌, arith, ltb, ltb→lt, ltb→le,
  Bool-cases, is_empty,
}
use ircfiber_site.Splitter.Bytes.{Text, char_bytes}
use ircfiber_site.Splitter.Break.{
  Breaking, emit, append_char, cut_chunk, flush_fragment, place, break_step,
}

pub is_empty-eq : (s : Text) → is_empty s ≡ true → s ≡ []
is_empty-eq s h = ground arith

pub is_empty-ne : (s : Text) → is_empty s ≡ false → s ≢ []
is_empty-ne s h = ground arith

module _ {ℓ} (P : Breaking → Type ℓ) (limit ch : ℕ) (st : Breaking) where
  pub place_cases :
      (limit < st.bytes + char_bytes ch → P (emit (ch ∷ []) st))
      → (st.bytes + char_bytes ch ≤ limit → P (append_char ch st))
      → P (place limit ch st)
  unfolding place
  place_cases alone more = elim (Bool-cases (ltb limit (st.bytes + char_bytes ch))) [
    | inl wide ↦ rw wide (alone (ltb→lt _ _ wide))
    | inr fits ↦ rw fits (more (ltb→le _ _ fits))
  ]

  pub break_step_cases :
      (limit < st.bytes + char_bytes ch → st.chunk ≡ [] → P (emit (ch ∷ []) st))
      → (limit < st.bytes + char_bytes ch
          → st.chunk ≢ []
          → P (place limit ch (flush_fragment limit (char_bytes ch) (cut_chunk st))))
      → (st.bytes + char_bytes ch ≤ limit → P (append_char ch st))
      → P (break_step limit ch st)
  unfolding break_step
  break_step_cases alone cut more = elim (Bool-cases (ltb limit (st.bytes + char_bytes ch))) [
    | inr fits ↦ rw fits (more (ltb→le _ _ fits))
    | inl wide ↦ rw wide (elim (Bool-cases (is_empty st.chunk)) [
      | inl e ↦ rw e (alone (ltb→lt _ _ wide) (is_empty-eq st.chunk e))
      | inr e ↦ rw e (cut (ltb→lt _ _ wide) (is_empty-ne st.chunk e))
    ])
  ]
