-- ===== src/TabCompletion/Candidates/Offered/Chosen.antt =====
-- tabCompletion.ts: which entries pass the filter of `nickCandidates`.
use mathlib.Core.Logic.Iff.{trans}
use mathlib.Core.List.{Perm, perm_middle}
use mathlib.Core.List.Perm
use ircfiber_site.Common.{
  ◌≡◌, ◌≢◌, ◌↔◌, refl, ap, inl, inr, Bool, true, not, ◌&&◌, List, [], ◌∷◌, ◌++◌, map, arith, All,
  Bool-cases, filter,
}
use ircfiber_site.Ignore.{same_text}
use ircfiber_site.FuzzyMatch.{starts_with}
use ircfiber_site.FuzzyMatch.Order.{starts_with→Begins, Begins→starts_with}
use ircfiber_site.FuzzyMatch.Tiers.{same_text_iff}
use ircfiber_site.TabCompletion.{Text}
use ircfiber_site.TabCompletion.Candidates.{Member, completes}
use ircfiber_site.TabCompletion.Candidates.Offered.{
  Entry, entry_text, shown_nick, member, IsEntry, Completes, plain_nick-entry_text,
}

-- The members that pass the test of the filter, and the entries that do not.
pub record Split (lower : Text → Text) (word : Text) (mine : Entry) (es : List Entry)
    (ms : List Member) : Type 0 where
  pub passed : List Entry
  pub failed : List Entry
  pub same : ms ≡ map member passed
  pub perm : Perm (passed ++ failed) es
  pub entries : All IsEntry passed
  pub complete : All (Completes lower word mine) passed
  pub incomplete : All (λ e. ¬ Completes lower word mine e) failed

and_iff : (a b : Bool) → ((a && not b) ≡ true) ↔ ((a ≡ true) × (b ≢ true))
and_iff a b = ground arith

module _ (lower : Text → Text) (natural_after : Text → Text → Bool) where
  completes-Completes_iff :
      (word : Text) (mine e : Entry)
      → IsEntry mine
      → IsEntry e
      → (completes lower natural_after word (entry_text mine) (member e) ≡ true)
        ↔ Completes lower word mine e
  unfolding completes
  completes-Completes_iff word mine e m k =
      let q = lower word in
      let t = lower (shown_nick e) in
      let own = lower (shown_nick mine) in
      let s = same_text_iff t own in
      rw (plain_nick-entry_text e k, plain_nick-entry_text mine m)
        (trans (and_iff (starts_with q t) (same_text t own)) (
          (λ h. (starts_with→Begins q t h.0, λ e. h.1 (s.1 e))),
          (λ h. (Begins→starts_with q t h.0, λ e. h.1 (s.0 e))),
        ))

  pub filter-Split :
      (word : Text) (mine : Entry) (es : List Entry)
      → IsEntry mine
      → All IsEntry es
      → Split lower word mine es
          (filter (completes lower natural_after word (entry_text mine)) (map member es))
  filter-Split word mine [] m h = record {
    passed = [];
    failed = [];
    same = refl;
    perm = Perm.rfl;
    entries = tt;
    complete = tt;
    incomplete = tt;
  }
  filter-Split word mine (e ∷ es) m (k, h) =
      let more = filter-Split word mine es m h in
      let test = completes-Completes_iff word mine e m k in
      elim (Bool-cases (completes lower natural_after word (entry_text mine) (member e))) [
        | inl pass ↦ record {
          passed = e ∷ more.passed;
          failed = more.failed;
          same = rw (filter, pass) (ap (λ ms. member e ∷ ms) more.same);
          perm = Perm.cons e more.perm;
          entries = (k, more.entries);
          complete = (test.0 pass, more.complete);
          incomplete = more.incomplete;
        }
        | inr miss ↦ record {
          passed = more.passed;
          failed = e ∷ more.failed;
          same = rw (filter, miss) more.same;
          perm = Perm.trans (perm_middle more.passed more.failed) (Perm.cons e more.perm);
          entries = more.entries;
          complete = more.complete;
          incomplete = ((λ c. let pass = test.1 c in cc), more.incomplete);
        }
      ]
