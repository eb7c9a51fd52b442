-- ===== src/ServerLog/Groups/Count.antt =====
-- serverLogGroups.ts: counting the messages in the buckets of attempts.
use Prim.Native.String.{String}
use ircfiber_site.Common.{
  ℕ, zero, suc, ◌+◌, ◌<◌, ◌≡◌, refl, Bool, true, false, ◌&&◌, Option, none, some, List, [], ◌∷◌,
  ◌++◌, map, arith, if◌then◌else◌, length,
}
use ircfiber_site.ServerLog.{
  ServerMessage, ServerLogKind, phased, motd, welcome, cap_kind, numeric, notice, lifecycle,
  self_kind, skip,
}
use ircfiber_site.ServerLog.Groups.{
  Status, ServerLogAttempt, modify_at, push_phase, set_disconnected, set_end,
}
use ircfiber_site.ServerLog.Groups.Step.{
  is_success, supersede, is_worded, distribute, set_success, supersede_others,
}

-- How many messages pass a test.
unfoldable pub count : (ServerMessage → Bool) → List ServerMessage → ℕ
count p [] = 0
count p (m ∷ ms) = (if p m then 1 else 0) + count p ms

-- Those in the buckets of an attempt.
unfoldable pub tally : (ServerMessage → Bool) → ServerLogAttempt → ℕ
tally p a =
    count p a.phases
    + count p a.motd
    + count p a.welcome
    + count p a.cap
    + count p a.notices
    + count p a.numeric

unfoldable pub total : (ServerMessage → Bool) → List ServerLogAttempt → ℕ
total p [] = 0
total p (a ∷ more) = tally p a + total p more

-- Whether a message of a kind goes to a bucket.
unfoldable pub is_bucketed : (String → String) → ServerLogKind → ServerMessage → Bool
is_bucketed trim skip msg = false
is_bucketed trim self_kind msg = false
is_bucketed trim notice msg = is_worded trim msg
is_bucketed trim _ msg = true

-- Attempts that keep their messages.
unfoldable pub Keeps : (ServerLogAttempt → ServerLogAttempt) → (ServerMessage → Bool) → ℕ → Type 0
Keeps f p d = (a : ServerLogAttempt) → tally p (f a) ≡ tally p a + d

module _ (p : ServerMessage → Bool) where
  count-snoc :
      (ms : List ServerMessage) (m : ServerMessage)
      → count p (ms ++ m ∷ []) ≡ count p ms + (if p m then 1 else 0)
  unfolding count
  count-snoc [] m = omega arith
  count-snoc (n ∷ ms) m = omega (arith, count-snoc ms m)

  pub push_phase-Keeps : (m : ServerMessage) → Keeps (push_phase m) p (if p m then 1 else 0)
  unfolding Keeps push_phase tally
  push_phase-Keeps m a = omega (arith, count-snoc a.phases m)

  pub set_disconnected-Keeps : (m : ServerMessage) → Keeps (set_disconnected m) p 0
  unfolding Keeps set_disconnected tally
  set_disconnected-Keeps m a = ground arith

  pub set_end-Keeps : (m : ServerMessage) → Keeps (set_end m) p 0
  unfolding Keeps set_end tally
  set_end-Keeps m a = omega arith

  supersede-Keeps : (q : Status → Bool) → Keeps (supersede q) p 0
  unfolding Keeps supersede tally
  supersede-Keeps q a = ground arith

  pub set_success-Keeps : Keeps set_success p 0
  unfolding Keeps set_success tally
  set_success-Keeps a = omega arith

  pub distribute-Keeps :
      (trim : String → String) (k : ServerLogKind) (m : ServerMessage)
      → Keeps (distribute trim k m) p (if is_bucketed trim k m && p m then 1 else 0)
  unfolding Keeps distribute is_bucketed set_disconnected push_phase tally
  distribute-Keeps trim phased m a = ground (arith, count-snoc a.phases m)
  distribute-Keeps trim motd m a = ground (arith, count-snoc a.motd m)
  distribute-Keeps trim welcome m a = ground (arith, count-snoc a.welcome m)
  distribute-Keeps trim cap_kind m a = ground (arith, count-snoc a.cap m)
  distribute-Keeps trim numeric m a = ground (arith, count-snoc a.numeric m)
  distribute-Keeps trim notice m a = ground (arith, count-snoc a.notices m)
  distribute-Keeps trim lifecycle m a = ground (arith, count-snoc a.phases m)
  distribute-Keeps trim self_kind m a = omega arith
  distribute-Keeps trim skip m a = omega arith

  pub total-append : (xs bs : List ServerLogAttempt) → total p (xs ++ bs) ≡ total p xs + total p bs
  unfolding total Keeps
  total-append [] bs = omega arith
  total-append (a ∷ more) bs = omega (arith, total-append more bs)

  pub total-modify_at :
      (i d : ℕ) (f : ServerLogAttempt → ServerLogAttempt) (xs : List ServerLogAttempt)
      → Keeps f p d
      → i < length xs
      → total p (modify_at i f xs) ≡ total p xs + d
  unfolding total modify_at Keeps
  total-modify_at i d f [] k h = absurd (omega arith)
  total-modify_at zero d f (a ∷ xs) k h = omega (arith, k a)
  total-modify_at (suc i) d f (a ∷ xs) k h = omega (arith, total-modify_at i d f xs k (omega arith))

  pub total-map-supersede :
      (q : Status → Bool) (xs : List ServerLogAttempt) → total p (map (supersede q) xs) ≡ total p xs
  unfolding total Keeps
  total-map-supersede q [] = refl
  total-map-supersede q (a ∷ xs) = omega (arith, supersede-Keeps q a, total-map-supersede q xs)

  pub total-supersede_others :
      (kept : Option ℕ) (xs : List ServerLogAttempt)
      → total p (supersede_others kept xs) ≡ total p xs
  unfolding total supersede_others Keeps
  total-supersede_others kept [] = refl
  total-supersede_others none (a ∷ xs) =
      omega (arith, supersede-Keeps is_success a, total-supersede_others none xs)
  total-supersede_others (some zero) (a ∷ xs) = omega (arith, total-supersede_others none xs)
  total-supersede_others (some (suc i)) (a ∷ xs) =
      omega (arith, supersede-Keeps is_success a, total-supersede_others (some i) xs)
