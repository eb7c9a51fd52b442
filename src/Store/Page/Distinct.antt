-- ===== src/Store/Page/Distinct.antt =====
-- ircStore.svelte.ts: the eids and msgids of the rows of a page, and of a flush after its
-- dedup.
use Prim.Native.String.{String}
use ircfiber_site.Common.{
  ℕ, ◌≡◌, inl, inr, true, false, not, ◌&&◌, Option, none, some, List, [], ◌∷◌, arith, ◌==◌,
  Bool-cases, Option-cases,
}
use ircfiber_site.Store.Message.{IrcMessage, truthy}
use ircfiber_site.Store.Batch.{has_nat, has_text, add_eid, add_msgid, is_seen, dedup}
use ircfiber_site.Store.Page.{Known, has_row_key, know, fresh_rows}

-- No row of the list has an eid or a msgid from those given, or from a row before it.
abbrev pub IsNew : List ℕ → List String → List IrcMessage → Type 0
IsNew eids msgids [] = Unit {0}
IsNew eids msgids (m ∷ ms) =
    (is_seen m eids msgids ≡ false) × IsNew (add_eid m.eid eids) (add_msgid m.msgid msgids) ms

abbrev pub Sub : List ℕ → List ℕ → Type 0
Sub xs ys = (n : ℕ) → has_nat n xs ≡ true → has_nat n ys ≡ true

abbrev pub SubText : List String → List String → Type 0
SubText xs ys = (s : String) → has_text s xs ≡ true → has_text s ys ≡ true

Sub-add_eid : (e : Option ℕ) (xs ys : List ℕ) → Sub xs ys → Sub (add_eid e xs) (add_eid e ys)
unfolding has_nat
Sub-add_eid none xs ys h n k = h n k
Sub-add_eid (some e) xs ys h n k = ground (arith, h n)

SubText-add_msgid :
    (s : String) (xs ys : List String) → SubText xs ys → SubText (add_msgid s xs) (add_msgid s ys)
unfolding has_text
SubText-add_msgid s xs ys h x k = ground (arith, h x)

is_seen-Sub :
    (m : IrcMessage) (xs ys : List ℕ) (ss ts : List String)
    → Sub xs ys
    → SubText ss ts
    → is_seen m ys ts ≡ false
    → is_seen m xs ss ≡ false
is_seen-Sub m xs ys ss ts h k e = elim (Option-cases m.eid) [
  | inl no_eid ↦ ground (arith, no_eid, k m.msgid)
  | inr (n, has) ↦ ground (arith, has, h n, k m.msgid)
]

pub IsNew-Sub :
    (xs ys : List ℕ) (ss ts : List String) (ms : List IrcMessage)
    → Sub xs ys
    → SubText ss ts
    → IsNew ys ts ms
    → IsNew xs ss ms
IsNew-Sub xs ys ss ts [] h k v = tt
IsNew-Sub xs ys ss ts (m ∷ ms) h k v = (
  is_seen-Sub m xs ys ss ts h k v.0,
  IsNew-Sub (add_eid m.eid xs) (add_eid m.eid ys) (add_msgid m.msgid ss) (add_msgid m.msgid ts) ms
      (Sub-add_eid m.eid xs ys h) (SubText-add_msgid m.msgid ss ts k) v.1,
)

pub add_eid-Sub : (e : Option ℕ) (xs : List ℕ) → Sub xs (add_eid e xs)
unfolding has_nat
add_eid-Sub none xs n h = h
add_eid-Sub (some e) xs n h = ground (arith, h)

-- The sort of a flush is followed by a dedup that leaves no two rows with one eid or one msgid.
pub dedup-IsNew :
    (ms : List IrcMessage) (eids : List ℕ) (msgids : List String)
    → IsNew eids msgids (dedup ms eids msgids)
unfolding dedup
dedup-IsNew [] eids msgids = tt
dedup-IsNew (m ∷ ms) eids msgids = elim (Bool-cases (is_seen m eids msgids)) [
  | inl seen ↦ rw seen (dedup-IsNew ms eids msgids)
  | inr new ↦ rw new (new, dedup-IsNew ms (add_eid m.eid eids) (add_msgid m.msgid msgids))
]

pub fresh_rows-IsNew :
    (lower trim prefix : String → String) (ms : List IrcMessage) (k : Known)
    → IsNew k.eids k.msgids (fresh_rows lower trim prefix ms k)
unfolding fresh_rows know
fresh_rows-IsNew lower trim prefix [] k = tt
fresh_rows-IsNew lower trim prefix (m ∷ ms) k =
    let row_seen =
      not (truthy m.msgid)
      && not (m.t == 0)
      && has_row_key m.t m.nick m.command (prefix m.text) k.row_keys in
    elim (Bool-cases (is_seen m k.eids k.msgids)) [
      | inl seen ↦ rw seen (fresh_rows-IsNew lower trim prefix ms k)
      | inr new ↦ elim (Bool-cases row_seen) [
        | inl repeated ↦
            rw (new, repeated)
              (IsNew-Sub k.eids (add_eid m.eid k.eids) k.msgids k.msgids _
                (add_eid-Sub m.eid k.eids) (λ s h. h)
                (fresh_rows-IsNew lower trim prefix ms (record k { eids = add_eid m.eid k.eids })))
        | inr kept ↦
            rw (new, kept) (new, fresh_rows-IsNew lower trim prefix ms (know lower trim prefix m k))
      ]
    ]
