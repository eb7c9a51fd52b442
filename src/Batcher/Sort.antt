-- ===== src/Batcher/Sort.antt =====
-- messageBatcher.ts, `compareBatch`, and the stable sort by it.
use Prim.Native.String.{String}
use ircfiber_site.Common.{
  ℕ, ◌+◌, ◌≡◌, refl, Bool, true, false, Option, none, some, List, [], ◌∷◌, ◌++◌, arith, ltb, ◌==◌,
  if◌then◌else◌,
}

-- The fields of `IRCMessage` that the batcher reads, and the message's text.
pub record Message : Type 0 where
  pub t : Option ℕ
  pub eid : Option ℕ
  pub msgid : Option String
  pub text : String

abbrev pub time : Message → ℕ
time m = elim m.t [ none ↦ 0 | some t ↦ t ]

abbrev pub id_text : Message → String
id_text m = elim m.msgid [ none ↦ "" | some s ↦ s ]

module _ (locale_lt : String → String → Bool) where
  unfoldable pub eid_before : Option ℕ → Option ℕ → Bool → Bool
  eid_before (some ea) (some eb) by_id = ltb ea eb
  eid_before (some ea) none by_id = true
  eid_before none (some eb) by_id = false
  eid_before none none by_id = by_id

  -- `compareBatch(a, b) < 0`
  unfoldable pub before : Message → Message → Bool
  unfolding eid_before
  before a b =
      if time a == time b
      then eid_before a.eid b.eid (locale_lt (id_text a) (id_text b))
      else ltb (time a) (time b)

  -- `msgs.sort(compareBatch)`: the sort is stable, so a message goes behind those equal to it.
  unfoldable pub insert : Message → List Message → List Message
  insert m [] = m ∷ []
  insert m (x ∷ xs) = if before m x then m ∷ x ∷ xs else x ∷ insert m xs

  unfoldable pub insert_all : List Message → List Message → List Message
  insert_all [] done = done
  insert_all (m ∷ ms) done = insert_all ms (insert m done)

  unfoldable pub sort : List Message → List Message
  sort ms = insert_all ms []

  -- No message comes right before one that it should follow.
  abbrev pub IsSorted : List Message → Type 0
  IsSorted [] = Unit {0}
  IsSorted (x ∷ []) = Unit {0}
  IsSorted (x ∷ y ∷ l) = (before y x ≡ false) × IsSorted (y ∷ l)

  module _ (asymmetric : (a b : String) → locale_lt a b ≡ true → locale_lt b a ≡ false) where
    before_asymmetric : (a b : Message) → before a b ≡ true → before b a ≡ false
    unfolding before
    before_asymmetric a b h = ground (arith, asymmetric (id_text a) (id_text b))

    insert-IsSorted : (m : Message) (l : List Message) → IsSorted l → IsSorted (insert m l)
    unfolding insert
    insert-IsSorted m [] s = tt
    insert-IsSorted m (x ∷ []) s = ground (arith, before_asymmetric m x)
    insert-IsSorted m (x ∷ y ∷ l) s =
        ground (arith, before_asymmetric m x, before_asymmetric m y, insert-IsSorted m (y ∷ l) s.1)

    insert_all-IsSorted : (ms done : List Message) → IsSorted done → IsSorted (insert_all ms done)
    unfolding insert_all
    insert_all-IsSorted [] done s = s
    insert_all-IsSorted (m ∷ ms) done s =
        insert_all-IsSorted ms (insert m done) (insert-IsSorted m done s)

    -- The messages of a flush are in order: by time, then by eid, messages without an eid behind
    -- those with one, then by message id, where the comparison of ids puts no two texts each before
    -- the other.
    pub sort-IsSorted : (ms : List Message) → IsSorted (sort ms)
    unfolding sort
    sort-IsSorted ms = insert_all-IsSorted ms [] tt

-- How many messages of a list have a property.
unfoldable pub count : (Message → Bool) → List Message → ℕ
count p [] = 0
count p (m ∷ ms) = (if p m then 1 else 0) + count p ms

pub count-append :
    (p : Message → Bool) (xs ys : List Message) → count p (xs ++ ys) ≡ count p xs + count p ys
unfolding count
count-append p [] ys = omega arith
count-append p (x ∷ xs) ys = omega (arith, count-append p xs ys)

module _ (locale_lt : String → String → Bool) (p : Message → Bool) where
  count-insert : (m : Message) (l : List Message) → count p (insert locale_lt m l) ≡ count p (m ∷ l)
  unfolding count insert
  count-insert m [] = refl
  count-insert m (x ∷ l) = ground (arith, count-insert m l)

  count-insert_all :
      (ms done : List Message) → count p (insert_all locale_lt ms done) ≡ count p ms + count p done
  unfolding insert_all count
  count-insert_all [] done = omega arith
  count-insert_all (m ∷ ms) done =
      omega (arith, count-insert_all ms (insert locale_lt m done), count-insert m done)

  pub count-sort : (ms : List Message) → count p (sort locale_lt ms) ≡ count p ms
  unfolding sort count
  count-sort ms = omega (arith, count-insert_all ms [])
