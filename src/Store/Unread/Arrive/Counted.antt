-- ===== src/Store/Unread/Arrive/Counted.antt =====
-- ircStore.svelte.ts, `applyAddMessageUnseen`: which arriving messages are counted, and which
-- are highlights.
use mathlib.Core.Path.{subst}
use Prim.Native.String.{String}
use ircfiber_site.Common.{
  ℕ, ◌+◌, ◌≡◌, refl, sym, ap, ◌∙◌, inl, inr, Bool, false, not, ◌&&◌, ◌||◌, Option, List, [], ◌∷◌,
  ◌++◌, append-nil, append_assoc, arith, ltb, ◌==◌, if◌then◌else◌, Bool-cases,
}
use ircfiber_site.Store.Unread.{Unread}
use ircfiber_site.Store.Unread.Arrive.{
  Arrival, Setting, is_message_unseen, has_time, set_unseen_highlights, Pass, finish_arrivals,
  is_important_message, is_highlightable_message, count_arrival, arrive, arrive_all,
  apply_add_message_unseen,
}
use ircfiber_site.Store.Unread.Arrive.Merged.{set_unseen_highlights-has_time}

module _ (lower : String → String) (s : Setting) where
  -- Neither seen before, nor ignored, nor of a kind that does not count.
  unfoldable pub is_counted : Option ℕ → Arrival → Bool
  is_counted seen a =
      is_message_unseen a.message.t seen && not a.ignored && is_important_message lower s a

  unfoldable pub count_arrivals : Option ℕ → List Arrival → ℕ
  count_arrivals seen [] = 0
  count_arrivals seen (a ∷ msgs) = (if is_counted seen a then 1 else 0) + count_arrivals seen msgs

  -- The times of the highlights among them.
  unfoldable pub highlight_times : Option ℕ → List Arrival → List ℕ
  highlight_times seen [] = []
  highlight_times seen (a ∷ msgs) =
      let rest = highlight_times seen msgs in
      if is_counted seen a && is_highlightable_message lower s a && not (a.message.t == 0)
      then a.message.t ∷ rest
      else rest

  -- The loop leaves the buffer as it is, and counts.
  record Counts (msgs : List Arrival) (p q : Pass) : Type 0 where
    unread_eq : q.unread ≡ p.unread
    added_eq : q.added ≡ p.added + count_arrivals p.unread.last_seen msgs
    highlights_eq : q.highlights ≡ p.highlights ++ highlight_times p.unread.last_seen msgs

  arrive-Counts :
      (a : Arrival) (p : Pass)
      → (s.boot_complete && not p.unread.unseen) ≡ false
      → Counts (a ∷ []) p (arrive lower s a p)
  unfolding arrive count_arrival count_arrivals highlight_times is_counted
  arrive-Counts a p h = record {
    unread_eq = ground (arith, h);
    added_eq = ground (arith, h);
    highlights_eq = ground (arith, h, append-nil p.highlights);
  }

  highlight_times-cons :
      (seen : Option ℕ) (a : Arrival) (msgs : List Arrival)
      → highlight_times seen (a ∷ msgs) ≡ highlight_times seen (a ∷ []) ++ highlight_times seen msgs
  unfolding highlight_times
  highlight_times-cons seen a msgs = ground arith

  arrive_all-Counts :
      (msgs : List Arrival) (p : Pass)
      → (s.boot_complete && not p.unread.unseen) ≡ false
      → Counts msgs p (arrive_all lower s msgs p)
  unfolding arrive_all count_arrivals highlight_times
  arrive_all-Counts [] p h = record {
    unread_eq = refl;
    added_eq = omega arith;
    highlights_eq = sym (append-nil p.highlights);
  }
  arrive_all-Counts (a ∷ msgs) p h =
      let q = arrive lower s a p in
      let c = arrive-Counts a p h in
      let still : (s.boot_complete && not q.unread.unseen) ≡ false =
        subst (λ u. (s.boot_complete && not u.unseen) ≡ false) (sym c.unread_eq) h in
      let r = arrive_all-Counts msgs q still in
      record {
        unread_eq = r.unread_eq ∙ c.unread_eq;
        added_eq = omega (
          arith,
          r.added_eq,
          c.added_eq,
          ap (λ (u : Unread). count_arrivals u.last_seen msgs) c.unread_eq,
        );
        highlights_eq =
            r.highlights_eq
            ∙ ap (λ (u : Unread). q.highlights ++ highlight_times u.last_seen msgs) c.unread_eq
            ∙ ap (λ hs. hs ++ highlight_times p.unread.last_seen msgs) c.highlights_eq
            ∙ append_assoc p.highlights (highlight_times p.unread.last_seen (a ∷ []))
                (highlight_times p.unread.last_seen msgs)
            ∙ ap (λ hs. p.highlights ++ hs) (sym (highlight_times-cons p.unread.last_seen a msgs));
      }

  highlight_times-none :
      (seen : Option ℕ) (msgs : List Arrival)
      → count_arrivals seen msgs ≡ 0
      → highlight_times seen msgs ≡ []
  unfolding count_arrivals highlight_times
  highlight_times-none seen [] h = refl
  highlight_times-none seen (a ∷ msgs) h = ground (arith, highlight_times-none seen msgs)

-- What the end of the pass makes of the buffer.
record Finishes (p : Pass) (u : Unread) : Type 0 where
  count_eq : u.unseen_count ≡ p.unread.unseen_count + p.added
  marker_eq : u.last_seen ≡ p.unread.last_seen
  highlights_eq :
      (t : ℕ)
      → has_time t u.unseen_highlights
        ≡ (has_time t p.unread.unseen_highlights || has_time t p.highlights)

set_unseen_highlights-count :
    (count : ℕ) (ts : List ℕ) (u : Unread)
    → ((set_unseen_highlights count ts u).unseen_count ≡ count)
      × ((set_unseen_highlights count ts u).last_seen ≡ u.last_seen)
unfolding set_unseen_highlights
set_unseen_highlights-count count ts u = ground arith

finish_arrivals-Finishes :
    (p : Pass) → (p.added ≡ 0 → p.highlights ≡ []) → Finishes p (finish_arrivals p).unread
unfolding finish_arrivals has_time
finish_arrivals-Finishes p none_yet =
    let count = p.unread.unseen_count + p.added in
    elim (Bool-cases (ltb 0 p.added)) [
      | inl e ↦
          let (c, l) = set_unseen_highlights-count count p.highlights p.unread in
          rw (finish_arrivals, e)
            (record {
              count_eq = c;
              marker_eq = l;
              highlights_eq = λ t. set_unseen_highlights-has_time t count p.highlights p.unread;
            })
      | inr e ↦
          let zero_added : p.added ≡ 0 = ground (arith, e) in
          rw (finish_arrivals, e)
            (record {
              count_eq = omega (arith, zero_added);
              marker_eq = refl;
              highlights_eq = λ t. ground (arith, ap (has_time t) (none_yet zero_added));
            })
    ]

apply_add_message_unseen_lem :
    (lower : String → String) (s : Setting) (msgs : List Arrival) (recent : List String)
    (u : Unread)
    → s.is_server ≡ false
    → apply_add_message_unseen lower s msgs recent u
      ≡ finish_arrivals (
          arrive_all lower s msgs
            (record { unread = u; added = 0; highlights = []; recent = recent; done = [] }))
unfolding apply_add_message_unseen
apply_add_message_unseen_lem lower s msgs recent u n = ground (arith, n)

-- While the start is not complete, or when something is unseen already, in a buffer that is not
-- the server log: the unread count grows by the number of messages that are later than the read
-- marker, not ignored and important, the marker stays, and a time is a highlight afterwards
-- exactly if it was one or is that of a counted message that is highlightable.
pub apply_add_message_unseen-counts :
    (lower : String → String) (s : Setting) (msgs : List Arrival) (recent : List String)
    (u : Unread) (t : ℕ)
    → (s.boot_complete && not u.unseen) ≡ false
    → s.is_server ≡ false
    → ((apply_add_message_unseen lower s msgs recent u).unread.unseen_count
        ≡ u.unseen_count + count_arrivals lower s u.last_seen msgs)
      × ((apply_add_message_unseen lower s msgs recent u).unread.last_seen ≡ u.last_seen)
      × (has_time t (apply_add_message_unseen lower s msgs recent u).unread.unseen_highlights ≡ (
          has_time t u.unseen_highlights || has_time t (highlight_times lower s u.last_seen msgs)))
apply_add_message_unseen-counts lower s msgs recent u t h n =
    let p : Pass = record { unread = u; added = 0; highlights = []; recent = recent; done = [] } in
    let c = arrive_all-Counts lower s msgs p h in
    let q = arrive_all lower s msgs p in
    let none_yet : q.added ≡ 0 → q.highlights ≡ [] = λ z.
      c.highlights_eq
      ∙ highlight_times-none lower s u.last_seen msgs (omega (arith, c.added_eq, z)) in
    let f = finish_arrivals-Finishes q none_yet in
    subst
      (λ (r : Pass).
        (r.unread.unseen_count ≡ u.unseen_count + count_arrivals lower s u.last_seen msgs)
        × (r.unread.last_seen ≡ u.last_seen)
        × (has_time t r.unread.unseen_highlights ≡ (
            has_time t u.unseen_highlights
            || has_time t (highlight_times lower s u.last_seen msgs))))
      (sym (apply_add_message_unseen_lem lower s msgs recent u n))
      (
        omega (arith, f.count_eq, c.added_eq, ap (λ (v : Unread). v.unseen_count) c.unread_eq),
        f.marker_eq ∙ ap (λ (v : Unread). v.last_seen) c.unread_eq,
        f.highlights_eq t
            ∙ ap (λ (v : Unread). has_time t v.unseen_highlights || has_time t q.highlights)
                c.unread_eq
            ∙ ap (λ hs. has_time t u.unseen_highlights || has_time t hs) c.highlights_eq,
      )
