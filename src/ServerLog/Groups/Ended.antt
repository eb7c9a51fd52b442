-- ===== src/ServerLog/Groups/Ended.antt =====
-- serverLogGroups.ts: whether a reopened attempt has ended, over the steps of the grouping.
use Prim.Native.String.{String}
use ircfiber_site.Common.{
  ℕ, zero, suc, ◌<◌, ◌≡◌, refl, inl, inr, Bool, true, Option, none, some, List, [], ◌∷◌, arith,
  Option-cases, length, get_elem?,
}
use ircfiber_site.ServerLog.{ServerMessage, ServerLogKind}
use ircfiber_site.ServerLog.Groups.{
  Status, ServerLogAttempt, Current, nothing, fresh, reopened, Grouping, modify_at, push_phase,
  set_disconnected, set_end, is_ended, ended_last,
}
use ircfiber_site.ServerLog.Groups.Step.{
  is_success, supersede, distribute, set_success, supersede_others,
}

-- A reopened attempt is in the list, and has ended.
unfoldable pub IsReopened : Current → List ServerLogAttempt → Type 0
IsReopened (reopened i) xs = is_ended (get_elem? xs i) ≡ true
IsReopened _ xs = Unit

unfoldable pub IsValid : Grouping → Type 0
IsValid g = IsReopened g.current g.attempts

-- There is a current attempt.
unfoldable pub IsCurrent : Current → Type 0
IsCurrent nothing = ⊥
IsCurrent _ = Unit

pub is_ended-lt :
    (xs : List ServerLogAttempt) (i : ℕ) → is_ended (get_elem? xs i) ≡ true → i < length xs
unfolding is_ended
is_ended-lt [] i h = cc
is_ended-lt (x ∷ xs) zero h = omega arith
is_ended-lt (x ∷ xs) (suc i) h = omega (arith, is_ended-lt xs i h)

-- A change that leaves an ended attempt ended.
unfoldable pub KeepsEnd : (ServerLogAttempt → ServerLogAttempt) → Type 0
KeepsEnd f = (a : ServerLogAttempt) → is_ended (some a) ≡ true → is_ended (some (f a)) ≡ true

pub distribute-KeepsEnd :
    (trim : String → String) (k : ServerLogKind) (m : ServerMessage)
    → KeepsEnd (distribute trim k m)
unfolding KeepsEnd distribute set_disconnected push_phase is_ended
distribute-KeepsEnd trim k m a h = ground arith

pub push_phase-KeepsEnd : (m : ServerMessage) → KeepsEnd (push_phase m)
unfolding KeepsEnd push_phase is_ended
push_phase-KeepsEnd m a h = h

pub set_end-KeepsEnd : (m : ServerMessage) → KeepsEnd (set_end m)
unfolding KeepsEnd set_end is_ended
set_end-KeepsEnd m a h = refl

pub set_success-KeepsEnd : KeepsEnd set_success
unfolding KeepsEnd set_success is_ended
set_success-KeepsEnd a h = h

is_ended-supersede :
    (q : Status → Bool) (a : ServerLogAttempt) → is_ended (some (supersede q a)) ≡ is_ended (some a)
unfolding supersede is_ended
is_ended-supersede q a = ground arith

pub is_ended-modify_at :
    (i : ℕ) (f : ServerLogAttempt → ServerLogAttempt) (xs : List ServerLogAttempt)
    → KeepsEnd f
    → is_ended (get_elem? xs i) ≡ true
    → is_ended (get_elem? (modify_at i f xs) i) ≡ true
unfolding modify_at KeepsEnd
is_ended-modify_at i f [] k h = h
is_ended-modify_at zero f (x ∷ xs) k h = k x h
is_ended-modify_at (suc i) f (x ∷ xs) k h = is_ended-modify_at i f xs k h

pub is_ended-supersede_others :
    (kept : Option ℕ) (xs : List ServerLogAttempt) (i : ℕ)
    → is_ended (get_elem? (supersede_others kept xs) i) ≡ is_ended (get_elem? xs i)
unfolding supersede_others
is_ended-supersede_others kept [] i = refl
is_ended-supersede_others none (x ∷ xs) zero = is_ended-supersede is_success x
is_ended-supersede_others none (x ∷ xs) (suc i) = is_ended-supersede_others none xs i
is_ended-supersede_others (some zero) (x ∷ xs) zero = refl
is_ended-supersede_others (some zero) (x ∷ xs) (suc i) = is_ended-supersede_others none xs i
is_ended-supersede_others (some (suc k)) (x ∷ xs) zero = is_ended-supersede is_success x
is_ended-supersede_others (some (suc k)) (x ∷ xs) (suc i) = is_ended-supersede_others (some k) xs i

pub ended_last-is_ended :
    (g : Grouping) (i : ℕ) → ended_last g ≡ some i → is_ended (get_elem? g.attempts i) ≡ true
unfolding ended_last
ended_last-is_ended g i h = elim (Option-cases g.last_attempt) [
  | inl e ↦ ground arith
  | inr (j, e) ↦ ground arith
]

-- The current attempt is not in the list yet.
unfoldable pub IsUnlisted : Current → Type 0
IsUnlisted (fresh _) = Unit
IsUnlisted _ = ⊥
