-- ===== src/Store/Unread/Arrive/Settled.antt =====
-- ircStore.svelte.ts, `applyAddMessageUnseen`: the unseen state over the arriving messages.
use mathlib.Core.Path.{subst}
use Prim.Native.String.{String}
use ircfiber_site.Common.{
  ℕ, ◌+◌, ◌≡◌, refl, sym, inl, inr, true, ◌||◌, Option, none, some, List, [], ◌∷◌, ◌++◌, arith,
  ◌==◌, ltb→lt, Bool-cases, length, is_empty,
}
use ircfiber_site.Store.Unread.{Unread}
use ircfiber_site.Store.Unread.Arrive.{
  Arrival, Setting, is_message_unseen, merge_times, sort_times, set_unseen_highlights, Pass,
  see_own, finish_arrivals, is_highlightable_message, count_arrival, arrive, arrive_all,
  apply_add_message_unseen,
}
use ircfiber_site.Store.Unread.Arrive.Sorted.{
  snoc-IsAbove, merge_times-IsAbove, sort_times-IsAbove, merged-IsAscending,
}
use ircfiber_site.Store.Unread.Arrive.Orderly.{
  AreUnseen, IsSettled, set_last_seen_message-IsSettled,
}

-- What holds in the loop.
record IsPass (p : Pass) : Type 0 where
  settled : IsSettled p.unread
  unread : AreUnseen p.unread.last_seen p.highlights
  none_yet : p.added ≡ 0 → p.highlights ≡ []

snoc-AreUnseen :
    (t : ℕ) (seen : Option ℕ) (hs : List ℕ)
    → is_message_unseen t seen ≡ true
    → AreUnseen seen hs
    → AreUnseen seen (hs ++ t ∷ [])
unfolding AreUnseen is_message_unseen
snoc-AreUnseen t none hs h a = tt
snoc-AreUnseen t (some s) hs h a = snoc-IsAbove s t hs (ltb→lt s t h) a

merged-AreUnseen :
    (seen : Option ℕ) (ts hs : List ℕ)
    → AreUnseen seen ts
    → AreUnseen seen hs
    → AreUnseen seen (sort_times (merge_times ts hs))
unfolding AreUnseen
merged-AreUnseen none ts hs a b = tt
merged-AreUnseen (some s) ts hs a b =
    sort_times-IsAbove s (merge_times ts hs) (merge_times-IsAbove s ts hs a b)

set_unseen_highlights-IsSettled :
    (count : ℕ) (ts : List ℕ) (u : Unread)
    → IsSettled u
    → AreUnseen u.last_seen ts
    → IsSettled (set_unseen_highlights count ts u)
unfolding set_unseen_highlights
set_unseen_highlights-IsSettled count ts u s a =
    let merged = merge_times ts u.unseen_highlights in
    elim (Bool-cases (is_empty ts || length merged == length u.unseen_highlights)) [
      | inl e ↦
          rw (set_unseen_highlights, e)
            (record {
              orderly = record { flag = refl; ascending = s.orderly.ascending };
              unread = s.unread;
            })
      | inr e ↦
          rw (set_unseen_highlights, e)
            (record {
              orderly = record {
                flag = refl;
                ascending = merged-IsAscending ts u.unseen_highlights s.orderly.ascending;
              };
              unread = merged-AreUnseen u.last_seen ts u.unseen_highlights a s.unread;
            })
    ]

see_own-IsSettled : (t : ℕ) (u : Unread) → IsSettled u → IsSettled (see_own t u)
unfolding see_own
see_own-IsSettled t u s = ground (arith, s, set_last_seen_message-IsSettled t u s)

AreUnseen-nil : (o : Option ℕ) → AreUnseen o []
unfolding AreUnseen
AreUnseen-nil none = tt
AreUnseen-nil (some s) = tt

module _ (lower : String → String) where
  count_arrival-IsPass :
      (s : Setting) (a : Arrival) (p : Pass)
      → is_message_unseen a.message.t p.unread.last_seen ≡ true
      → IsPass p
      → IsPass (count_arrival lower s a p)
  unfolding count_arrival
  count_arrival-IsPass s a p u i =
      let later = snoc-AreUnseen a.message.t p.unread.last_seen p.highlights u i.unread in
      elim (Bool-cases (is_highlightable_message lower s a)) [
        | inl e ↦
            rw (count_arrival, e)
              (record {
                settled = i.settled;
                unread = ground (arith, later, i.unread);
                none_yet = λ z. absurd (omega (arith, z));
              })
        | inr e ↦
            rw (count_arrival, e)
              (record {
                settled = i.settled;
                unread = i.unread;
                none_yet = λ z. absurd (omega (arith, z));
              })
      ]

  own-IsPass :
      (t : ℕ) (done : List Arrival) (p : Pass)
      → p.added ≡ 0
      → IsPass p
      → IsPass (record p { unread = see_own t p.unread; done = done })
  own-IsPass t done p z i = record {
    settled = see_own-IsSettled t p.unread i.settled;
    unread =
        subst (λ hs. AreUnseen (see_own t p.unread).last_seen hs) (sym (i.none_yet z))
          (AreUnseen-nil (see_own t p.unread).last_seen);
    none_yet = i.none_yet;
  }

  arrive-IsPass : (s : Setting) (a : Arrival) (p : Pass) → IsPass p → IsPass (arrive lower s a p)
  unfolding arrive
  arrive-IsPass s a p i =
      let keep : IsPass (record p { done = p.done ++ a ∷ [] }) = record {
        settled = i.settled;
        unread = i.unread;
        none_yet = i.none_yet;
      } in
      ground
        (arith, keep, own-IsPass a.message.t (p.done ++ a ∷ []) p, count_arrival-IsPass s a p, i)

  arrive_all-IsPass :
      (s : Setting) (msgs : List Arrival) (p : Pass) → IsPass p → IsPass (arrive_all lower s msgs p)
  unfolding arrive_all
  arrive_all-IsPass s [] p i = i
  arrive_all-IsPass s (a ∷ msgs) p i =
      arrive_all-IsPass s msgs (arrive lower s a p) (arrive-IsPass s a p i)

  finish_arrivals-IsSettled : (p : Pass) → IsPass p → IsSettled (finish_arrivals p).unread
  unfolding finish_arrivals
  finish_arrivals-IsSettled p i = ground (
    arith,
    i.settled,
    set_unseen_highlights-IsSettled (p.unread.unseen_count + p.added) p.highlights p.unread
        i.settled i.unread,
  )

  -- Whatever messages arrive, and whoever sent them: if before them the unseen flag says whether
  -- something is counted, and the highlights are ascending, each once, and later than the read
  -- marker, then so it is after them.
  pub apply_add_message_unseen-IsSettled :
      (s : Setting) (msgs : List Arrival) (recent : List String) (u : Unread)
      → IsSettled u
      → IsSettled (apply_add_message_unseen lower s msgs recent u).unread
  unfolding apply_add_message_unseen
  apply_add_message_unseen-IsSettled s msgs recent u i =
      let p : Pass = record {
        unread = u;
        added = 0;
        highlights = [];
        recent = recent;
        done = [];
      } in
      let start : IsPass p = record {
        settled = i;
        unread = AreUnseen-nil u.last_seen;
        none_yet = λ z. refl;
      } in
      let done : IsSettled (finish_arrivals (arrive_all lower s msgs p)).unread =
        finish_arrivals-IsSettled (arrive_all lower s msgs p) (arrive_all-IsPass s msgs p start) in
      ground (arith, i, done)
