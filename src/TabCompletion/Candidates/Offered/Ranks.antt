-- ===== src/TabCompletion/Candidates/Offered/Ranks.antt =====
-- tabCompletion.ts: which members `nickCandidates` offers, and in which order.
use mathlib.Core.List.{Perm, perm_middle}
use mathlib.Core.List.Perm
use ircfiber_site.Common.{
  ◌≡◌, ◌↔◌, refl, ap, ◌∙◌, inl, inr, Bool, true, false, List, [], ◌∷◌, ◌++◌, map, arith, All,
  All-map, Bool-cases,
}
use ircfiber_site.TabCompletion.{Text, Candidate}
use ircfiber_site.TabCompletion.Candidates.{
  Member, insert_member, sort_members, nick_candidate, comes_after, nick_candidates,
}
use ircfiber_site.TabCompletion.Candidates.Offered.{
  Entry, entry_text, shown_nick, member, IsEntry, offer, Completes, IsAtLeast, IsRanked,
  plain_nick-entry_text, nick_candidate-member,
}
use ircfiber_site.TabCompletion.Candidates.Offered.Chosen.{filter-Split}

-- The candidates are the offers of some entries, ranked; the entries that are left out are those
-- that do not complete the word.
pub record IsOffered (lower : Text → Text) (natural_after : Text → Text → Bool) (word : Text)
    (mine : Entry) (es : List Entry) (cs : List Candidate) : Type 0 where
  pub offered : List Entry
  pub left_out : List Entry
  pub shown : cs ≡ map offer offered
  pub all : Perm (offered ++ left_out) es
  pub complete : All (Completes lower word mine) offered
  pub incomplete : All (λ e. ¬ Completes lower word mine e) left_out
  pub ranked : IsRanked natural_after offered

-- The members are those of an entry and of others, ranked.
record Placed (natural_after : Text → Text → Bool) (e : Entry) (es : List Entry) (ms : List Member)
    : Type 1 where
  placed : List Entry
  same : ms ≡ map member placed
  perm : Perm placed (e ∷ es)
  kept : (Q : Entry → Type 0) → Q e → All Q es → All Q placed
  in_order : IsRanked natural_after placed

record Sorted (natural_after : Text → Text → Bool) (es : List Entry) (ms : List Member)
    : Type 1 where
  sorted : List Entry
  same : ms ≡ map member sorted
  perm : Perm sorted es
  kept : (Q : Entry → Type 0) → All Q es → All Q sorted
  in_order : IsRanked natural_after sorted

map-offer : (es : List Entry) → All IsEntry es → map nick_candidate (map member es) ≡ map offer es
map-offer [] h = refl
map-offer (e ∷ es) (k, h) = rw (nick_candidate-member e k, map-offer es h) refl

module _ (lower : Text → Text) (natural_after : Text → Text → Bool) where
  behind_iff :
      (a b : Entry)
      → IsEntry a
      → IsEntry b
      → (comes_after lower natural_after (member a) (member b) ≡ false)
        ↔ IsAtLeast natural_after a b
  unfolding comes_after
  behind_iff a b h k = rw (plain_nick-entry_text a h, plain_nick-entry_text b k) (ground arith)

  module _ (asymmetric : (s t : Text) → natural_after s t ≡ true → natural_after t s ≡ false)
      (transitive : (s t u : Text)
        → natural_after s t ≡ false
        → natural_after t u ≡ false
        → natural_after s u ≡ false) where
    IsAtLeast-trans :
        (a b c : Entry)
        → IsAtLeast natural_after a b
        → IsAtLeast natural_after b c
        → IsAtLeast natural_after a c
    IsAtLeast-trans a b c h k =
        ground (arith, transitive (shown_nick a) (shown_nick b) (shown_nick c))

    -- What comes behind is not at least as high.
    behind-IsAtLeast :
        (a b : Entry)
        → IsEntry a
        → IsEntry b
        → comes_after lower natural_after (member a) (member b) ≡ true
        → IsAtLeast natural_after b a
    unfolding comes_after
    behind-IsAtLeast a b h k e = ground (
      arith,
      plain_nick-entry_text a h,
      plain_nick-entry_text b k,
      asymmetric (shown_nick a) (shown_nick b),
    )

    insert_member-Placed :
        (e : Entry) (es : List Entry)
        → IsEntry e
        → All IsEntry es
        → IsRanked natural_after es
        → Placed natural_after e es
            (insert_member (comes_after lower natural_after) (member e) (map member es))
    unfolding insert_member
    insert_member-Placed e [] k ks r = record {
      placed = e ∷ [];
      same = refl;
      perm = Perm.rfl;
      kept = λ Q q qs. (q, tt);
      in_order = (tt, tt);
    }
    insert_member-Placed e (n ∷ ns) k (l, ls) (above, r) =
        elim (Bool-cases (comes_after lower natural_after (member e) (member n))) [
          | inl behind ↦
              let more = insert_member-Placed e ns k ls r in
              record {
                placed = n ∷ more.placed;
                same = rw behind (ap (λ ms. member n ∷ ms) more.same);
                perm = Perm.trans (Perm.cons n more.perm) (perm_middle (n ∷ []) ns);
                kept = λ Q q qs. (qs.0, more.kept Q q qs.1);
                in_order = (
                  more.kept (IsAtLeast natural_after n) (behind-IsAtLeast e n k l behind) above,
                  more.in_order,
                );
              }
          | inr before ↦
              let first = (behind_iff e n k l).0 before in
              record {
                placed = e ∷ n ∷ ns;
                same = rw before refl;
                perm = Perm.rfl;
                kept = λ Q q qs. (q, qs);
                in_order = (
                  (
                    first,
                    All-map (IsAtLeast natural_after n) (IsAtLeast natural_after e)
                        (λ x h. IsAtLeast-trans e n x first h) ns above,
                  ),
                  (above, r),
                );
              }
        ]

    sort_members-Sorted :
        (es : List Entry)
        → All IsEntry es
        → Sorted natural_after es (sort_members (comes_after lower natural_after) (map member es))
    unfolding sort_members
    sort_members-Sorted [] h = record {
      sorted = [];
      same = refl;
      perm = Perm.rfl;
      kept = λ Q qs. tt;
      in_order = tt;
    }
    sort_members-Sorted (e ∷ es) (k, h) =
        let tail = sort_members-Sorted es h in
        let whole = insert_member-Placed e tail.sorted k (tail.kept IsEntry h) tail.in_order in
        record {
          sorted = whole.placed;
          same =
              ap (insert_member (comes_after lower natural_after) (member e)) tail.same
              ∙ whole.same;
          perm = Perm.trans whole.perm (Perm.cons e tail.perm);
          kept = λ Q qs. whole.kept Q qs.0 (tail.kept Q qs.1);
          in_order = whole.in_order;
        }

-- Each entry of the member list whose nick as it reads begins with the word, in lower case, and is
-- not the user's own is offered once for each time that it is listed, and no other entry is. What is
-- offered inserts the nick with its formatting bytes, without mode prefixes and mask, and shows it
-- as it reads. Each one is ranked at least as high as all that are behind it: who spoke last comes
-- first, among these who was highlighted last, and then the order of the nicks decides. The entries
-- and the user's own consist of mode prefixes, a nick without `!` that does not begin with a prefix,
-- and a mask behind a `!` or none; the order of the nicks is asymmetric, and not to be behind is
-- transitive.
pub nick_candidates-IsOffered :
    (lower : Text → Text) (natural_after : Text → Text → Bool)
    → ((s t : Text) → natural_after s t ≡ true → natural_after t s ≡ false)
    → ((s t u : Text)
        → natural_after s t ≡ false
        → natural_after t u ≡ false
        → natural_after s u ≡ false)
    → (word : Text) (mine : Entry) (es : List Entry) → IsEntry mine
    → All IsEntry es
    → IsOffered lower natural_after word mine es
        (nick_candidates lower natural_after word (map member es) (entry_text mine))
unfolding nick_candidates
nick_candidates-IsOffered lower natural_after asymmetric transitive word mine es m h =
    let s = filter-Split lower natural_after word mine es m h in
    let r = sort_members-Sorted lower natural_after asymmetric transitive s.passed s.entries in
    let after = comes_after lower natural_after in
    record {
      offered = r.sorted;
      left_out = s.failed;
      shown =
          ap (λ ms. map nick_candidate (sort_members after ms)) s.same
          ∙ ap (map nick_candidate) r.same
          ∙ map-offer r.sorted (r.kept IsEntry s.entries);
      all = Perm.trans (Perm.append r.perm (Perm.refl s.failed)) s.perm;
      complete = r.kept (Completes lower word mine) s.complete;
      incomplete = s.incomplete;
      ranked = r.in_order;
    }
