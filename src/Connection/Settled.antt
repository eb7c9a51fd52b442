-- ===== src/Connection/Settled.antt =====
-- wsConnection.svelte.ts: the request numbers, pending and settled.
use Prim.Native.String.{String}
use ircfiber_site.Common.{
  ℕ, ◌+◌, ◌≤◌, ◌≡◌, refl, ap, inl, inr, true, ◌&&◌, Option, none, some, List, [], ◌∷◌, ◌++◌, map,
  arith, leb, ◌==◌, if◌then◌else◌, Bool-cases,
}
use ircfiber_site.Connection.State.{
  Outcome, timed_out, not_connected, cut_off, Response, Connection, is_connected,
}
use ircfiber_site.Connection.Requests.{
  remove, contains, settle, send_request, on_request_timeout, set_session, correlate,
  handle_response, on_message, reject_all,
}
pub mod Run

pub count : ℕ → List ℕ → ℕ
count id [] = 0
count id (p ∷ ps) = (if p == id then 1 else 0) + count id ps

abbrev pub settled_ids : Connection → List ℕ
settled_ids c = map (λ (s : ℕ × Outcome). s.0) c.settled

-- 1 for the numbers that were given out, 0 for all others.
abbrev pub numbered : ℕ → ℕ → ℕ
numbered counter id = if leb 1 id && leb id counter then 1 else 0

-- The promise of a number that was given out is pending or settled, and not twice.
abbrev pub IsCorrelated : Connection → Type 0
IsCorrelated c =
    (id : ℕ) → count id c.pending + count id (settled_ids c) ≡ numbered c.reqid_counter id

count-append : (id : ℕ) (xs ys : List ℕ) → count id (xs ++ ys) ≡ count id xs + count id ys
unfolding count
count-append id [] ys = omega arith
count-append id (x ∷ xs) ys = omega (arith, count-append id xs ys)

count-remove :
    (id j : ℕ) (ps : List ℕ) → count j (remove id ps) ≡ (if j == id then 0 else count j ps)
unfolding count remove
count-remove id j [] = ground arith
count-remove id j (p ∷ ps) = ground (arith, count-remove id j ps)

contains-pos : (id : ℕ) (ps : List ℕ) → contains id ps ≡ true → 1 ≤ count id ps
unfolding contains count
contains-pos id [] h = cc
contains-pos id (p ∷ ps) h = ground (arith, contains-pos id ps)

map_ids-snoc :
    (l : List (ℕ × Outcome)) (id : ℕ) (o : Outcome)
    → map (λ (s : ℕ × Outcome). s.0) (l ++ (id, o) ∷ [])
      ≡ map (λ (s : ℕ × Outcome). s.0) l ++ id ∷ []
map_ids-snoc [] id o = refl
map_ids-snoc (x ∷ l) id o = ap (◌∷◌ x.0) (map_ids-snoc l id o)

map_ids-cut_off :
    (l : List (ℕ × Outcome)) (ps : List ℕ)
    → map (λ (s : ℕ × Outcome). s.0) (l ++ map (λ id. (id, cut_off)) ps)
      ≡ map (λ (s : ℕ × Outcome). s.0) l ++ ps
map_ids-cut_off [] [] = refl
map_ids-cut_off [] (p ∷ ps) = ap (◌∷◌ p) (map_ids-cut_off [] ps)
map_ids-cut_off (x ∷ l) ps = ap (◌∷◌ x.0) (map_ids-cut_off l ps)

pub settle-IsCorrelated :
    (id : ℕ) (outcome : Outcome) (c : Connection)
    → contains id c.pending ≡ true
    → IsCorrelated c
    → IsCorrelated (settle id outcome c)
unfolding settle
settle-IsCorrelated id outcome c known v j = rw (map_ids-snoc c.settled id outcome) (
    rw (count-append j (settled_ids c) (id ∷ [])) (
      unfold count in
      ground (arith, v j, v id, count-remove id j c.pending, contains-pos id c.pending known)))

pub send_request-IsCorrelated :
    (cmd : String) (c : Connection) → IsCorrelated c → IsCorrelated (send_request cmd c)
unfolding send_request
send_request-IsCorrelated cmd c v j = elim (Bool-cases (is_connected c)) [
  | inl on ↦ rw on (
      rw (count-append j c.pending ((c.reqid_counter + 1) ∷ []))
        (unfold count in ground (arith, v j)))
  | inr off ↦ rw off (
      rw (map_ids-snoc c.settled (c.reqid_counter + 1) not_connected) (
        rw (count-append j (settled_ids c) ((c.reqid_counter + 1) ∷ []))
          (unfold count in ground (arith, v j))))
]

pub reject_all-IsCorrelated : (c : Connection) → IsCorrelated c → IsCorrelated (reject_all c)
unfolding reject_all
reject_all-IsCorrelated c v j =
    rw (map_ids-cut_off c.settled c.pending)
      (rw (count-append j (settled_ids c) c.pending) (unfold count in omega (arith, v j)))

pub on_request_timeout-IsCorrelated :
    (id : ℕ) (c : Connection) → IsCorrelated c → IsCorrelated (on_request_timeout id c)
unfolding on_request_timeout
on_request_timeout-IsCorrelated id c v = elim (Bool-cases (contains id c.pending)) [
  | inl known ↦ rw known (settle-IsCorrelated id timed_out c known v)
  | inr gone ↦ rw gone v
]

correlate-IsCorrelated :
    (reqid : Option ℕ) (r : Response) (c : Connection)
    → IsCorrelated c
    → IsCorrelated (correlate reqid r c)
unfolding correlate
correlate-IsCorrelated none r c v = v
correlate-IsCorrelated (some id) r c v = elim (Bool-cases (contains id c.pending)) [
  | inl known ↦ rw known (settle-IsCorrelated id _ c known v)
  | inr gone ↦ rw gone v
]

set_session-IsCorrelated :
    (session : Option String) (c : Connection)
    → IsCorrelated c
    → IsCorrelated (set_session session c)
unfolding set_session
set_session-IsCorrelated none c v = v
set_session-IsCorrelated (some session) c v = v

pub on_message-IsCorrelated :
    (rs : List Response) (c : Connection) → IsCorrelated c → IsCorrelated (on_message rs c)
unfolding on_message handle_response
on_message-IsCorrelated [] c v = v
on_message-IsCorrelated (r ∷ rs) c v = on_message-IsCorrelated rs (handle_response r c) (
    correlate-IsCorrelated r.reqid r (set_session r.session c)
      (set_session-IsCorrelated r.session c v))
