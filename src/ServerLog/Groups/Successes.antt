-- ===== src/ServerLog/Groups/Successes.antt =====
-- serverLogGroups.ts: how many attempts have succeeded, before and after a change of one.
use Prim.Native.String.{String}
use ircfiber_site.Common.{
  ℕ, zero, suc, ◌+◌, ◌≤◌, ◌≡◌, refl, Bool, false, Option, none, some, List, [], ◌∷◌, ◌++◌, map,
  arith, if◌then◌else◌,
}
use ircfiber_site.ServerLog.{ServerMessage, ServerLogKind}
use ircfiber_site.ServerLog.Groups.{
  Status, ServerLogAttempt, Current, nothing, fresh, reopened, Grouping, modify_at, modify_current,
  push_current, push_phase, set_disconnected, set_end,
}
use ircfiber_site.ServerLog.Groups.Step.{is_success, supersede, distribute, supersede_others}

-- How many attempts have the status `success`.
unfoldable pub successes : List ServerLogAttempt → ℕ
successes [] = 0
successes (a ∷ more) = (if is_success a.status then 1 else 0) + successes more

unfoldable pub current_successes : Current → ℕ
current_successes (fresh a) = if is_success a.status then 1 else 0
current_successes _ = 0

unfoldable pub all_successes : Grouping → ℕ
all_successes g = successes g.attempts + current_successes g.current

-- A change that makes no attempt succeed.
pub NoSuccess : (ServerLogAttempt → ServerLogAttempt) → Type 0
NoSuccess f = (a : ServerLogAttempt) → is_success a.status ≡ false → is_success (f a).status ≡ false

pub push_phase-NoSuccess : (m : ServerMessage) → NoSuccess (push_phase m)
unfolding NoSuccess push_phase
push_phase-NoSuccess m a h = h

pub set_end-NoSuccess : (m : ServerMessage) → NoSuccess (set_end m)
unfolding NoSuccess set_end
set_end-NoSuccess m a h = h

supersede-NoSuccess : (q : Status → Bool) → NoSuccess (supersede q)
unfolding NoSuccess supersede is_success
supersede-NoSuccess q a h = ground arith

pub extend-NoSuccess :
    (m : ServerMessage) → NoSuccess (λ a. set_end m (set_disconnected m (push_phase m a)))
unfolding NoSuccess set_end set_disconnected push_phase is_success
extend-NoSuccess m a h = ground arith

pub distribute-NoSuccess :
    (trim : String → String) (k : ServerLogKind) (m : ServerMessage)
    → NoSuccess (distribute trim k m)
unfolding NoSuccess distribute set_disconnected push_phase is_success
distribute-NoSuccess trim k m a h = ground arith

successes-append :
    (xs ys : List ServerLogAttempt) → successes (xs ++ ys) ≡ successes xs + successes ys
unfolding successes
successes-append [] ys = omega arith
successes-append (x ∷ xs) ys = omega (arith, successes-append xs ys)

pub successes-modify_at :
    (i : ℕ) (f : ServerLogAttempt → ServerLogAttempt) (xs : List ServerLogAttempt)
    → NoSuccess f
    → successes (modify_at i f xs) ≤ successes xs
unfolding successes modify_at NoSuccess
successes-modify_at i f [] n = omega arith
successes-modify_at zero f (x ∷ xs) n = ground (arith, n x)
successes-modify_at (suc i) f (x ∷ xs) n = omega (arith, successes-modify_at i f xs n)

pub successes-map :
    (q : Status → Bool) (xs : List ServerLogAttempt)
    → successes (map (supersede q) xs) ≤ successes xs
unfolding successes NoSuccess
successes-map q [] = omega arith
successes-map q (x ∷ xs) = ground (arith, supersede-NoSuccess q x, successes-map q xs)

supersede-is_success : (a : ServerLogAttempt) → is_success (supersede is_success a).status ≡ false
unfolding supersede is_success
supersede-is_success a = ground arith

pub successes-supersede_none :
    (xs : List ServerLogAttempt) → successes (supersede_others none xs) ≡ 0
unfolding successes supersede_others
successes-supersede_none [] = refl
successes-supersede_none (x ∷ xs) =
    ground (arith, supersede-is_success x, successes-supersede_none xs)

pub successes-supersede_some :
    (i : ℕ) (xs : List ServerLogAttempt) → successes (supersede_others (some i) xs) ≤ 1
unfolding successes supersede_others
successes-supersede_some i [] = omega arith
successes-supersede_some zero (x ∷ xs) = ground (arith, successes-supersede_none xs)
successes-supersede_some (suc i) (x ∷ xs) =
    ground (arith, supersede-is_success x, successes-supersede_some i xs)

pub modify_current-all_successes :
    (f : ServerLogAttempt → ServerLogAttempt) (xs : List ServerLogAttempt) (c : Current)
    (last : Option ℕ)
    → NoSuccess f
    → all_successes (modify_current f (record { attempts = xs; current = c; last_attempt = last }))
      ≤ successes xs + current_successes c
unfolding modify_current all_successes current_successes NoSuccess
modify_current-all_successes f xs nothing last n = omega arith
modify_current-all_successes f xs (fresh a) last n = ground (arith, n a)
modify_current-all_successes f xs (reopened i) last n = omega (arith, successes-modify_at i f xs n)

pub push_current-all_successes :
    (xs : List ServerLogAttempt) (c : Current) (last : Option ℕ)
    → all_successes (push_current (record { attempts = xs; current = c; last_attempt = last }))
      ≤ successes xs + current_successes c
unfolding push_current all_successes current_successes successes
push_current-all_successes xs nothing last = omega arith
push_current-all_successes xs (fresh a) last = omega (arith, successes-append xs (a ∷ []))
push_current-all_successes xs (reopened i) last = omega arith
