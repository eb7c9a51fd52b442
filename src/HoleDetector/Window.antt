-- ===== src/HoleDetector/Window.antt =====
-- wsHoleDetector.ts: the sliding window of eids.
use ircfiber_site.Common.{ℕ, ◌≤◌, ◌<◌, List, [], ◌∷◌, ◌++◌, arith, length, length-append}
use ircfiber_site.HoleDetector.{Detector, last_eid, trim_window, window_step, on_eid}

-- Strictly ascending, all above the bound.
abbrev pub Ascends : ℕ → List ℕ → Type 0
Ascends low [] = Unit {0}
Ascends low (e ∷ es) = (low < e) × Ascends e es

pub record IsWindow (es : List ℕ) : Type 0 where
  pub ascending : Ascends 0 es
  pub short : length es ≤ 20

Ascends-mono : (a b : ℕ) (es : List ℕ) → a ≤ b → Ascends b es → Ascends a es
Ascends-mono a b [] h k = tt
Ascends-mono a b (e ∷ es) h k = (omega arith, k.1)

last_eid-gt : (low e : ℕ) (es : List ℕ) → Ascends low (e ∷ es) → low < last_eid (e ∷ es)
unfolding last_eid
last_eid-gt low e [] h = h.0
last_eid-gt low e (f ∷ es) h = omega (arith, last_eid-gt e f es h.1)

pub Ascends-snoc :
    (low eid e : ℕ) (es : List ℕ)
    → Ascends low (e ∷ es)
    → last_eid (e ∷ es) < eid
    → Ascends low (e ∷ (es ++ eid ∷ []))
unfolding last_eid
Ascends-snoc low eid e [] h q = (h.0, (q, tt))
Ascends-snoc low eid e (f ∷ es) h q = (h.0, Ascends-snoc e eid f es h.1 q)

trim_window-IsWindow : (es : List ℕ) → Ascends 0 es → length es ≤ 21 → IsWindow (trim_window es)
unfolding trim_window
trim_window-IsWindow [] h n = ground arith
trim_window-IsWindow (e ∷ es) h n = ground (arith, Ascends-mono 0 e es)

window_step-IsWindow :
    (eid : ℕ) (es : List ℕ) → 0 < eid → IsWindow es → IsWindow (window_step eid es)
unfolding window_step
window_step-IsWindow eid [] p w = trim_window-IsWindow (eid ∷ []) (p, tt) (omega arith)
window_step-IsWindow eid (e ∷ es) p w = ground (
  arith,
  Ascends-snoc 0 eid e es w.ascending,
  length-append es (eid ∷ []),
  trim_window-IsWindow (e ∷ (es ++ eid ∷ [])),
)

-- Whatever eids arrive, in any order, the window holds at most 20 eids, positive and strictly
-- ascending.
pub on_eid-IsWindow :
    (eid : ℕ) (d : Detector) → IsWindow d.last_seen_eids → IsWindow (on_eid eid d).last_seen_eids
unfolding on_eid
on_eid-IsWindow eid d w = ground (arith, window_step-IsWindow eid d.last_seen_eids)
