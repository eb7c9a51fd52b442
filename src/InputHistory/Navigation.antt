-- ===== src/InputHistory/Navigation.antt =====
-- inputHistory.ts: where Up and Down lead.
use Prim.Native.String.{String}
use ircfiber_site.Common.{
  ℕ, ◌+◌, ◌-◌, ◌≤◌, ◌<◌, ◌≡◌, refl, sym, ◌≢◌, Option, none, some, List, arith, ◌==◌, if◌then◌else◌,
  length, get_elem?-some,
}
use ircfiber_site.InputHistory.Invariant.{get_from_end-le}
use ircfiber_site.InputHistory.{History, get_from_end, step_back, remember_input, get_earlier}

get_from_end-some :
    (k : ℕ) (es : List String) → 1 ≤ k → k ≤ length es → (e : String) × (get_from_end k es ≡ some e)
unfolding get_from_end
get_from_end-some k es low high =
    let (e, found) = get_elem?-some es (length es - k) (omega arith) in (e, ground arith)

-- The text in the input line at a place of the navigation: the remembered input at its start,
-- a history entry counted from the end elsewhere.
abbrev pub shown : History → Option String
shown h = if h.back == 0 then some h.current_value else get_from_end h.back h.history

get_earlier-step :
    (input : String) (h : History) (e : String)
    → get_from_end (h.back + 1) h.history ≡ some e
    → get_earlier input h ≡ (record (remember_input input h) { back = h.back + 1 }, some e)
unfolding get_earlier remember_input step_back
get_earlier-step input h e found = ground (arith, get_from_end-le (h.back + 1) h.history e found)

-- While entries are left, Up moves one entry back, remembers the input when it leaves it, and
-- returns the entry that it reaches.
pub get_earlier_lem :
    (input : String) (h : History)
    → h.back < length h.history
    → ((get_earlier input h).0 ≡ record (remember_input input h) { back = h.back + 1 })
      × ((get_earlier input h).1 ≡ get_from_end (h.back + 1) h.history)
      × ((get_earlier input h).1 ≢ none)
get_earlier_lem input h more =
    let (e, found) = get_from_end-some (h.back + 1) h.history (omega arith) (omega arith) in
    rw (get_earlier-step input h e found) (refl, sym found, λ no_entry. cc)
