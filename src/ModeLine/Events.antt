-- ===== src/ModeLine/Events.antt =====
-- modeSentence.ts: the letters of a mode line as a list of events, and which arguments they
-- take.
use Prim.Native.String.{String}
use ircfiber_site.Common.{
  ℕ, ◌≡◌, refl, ap, ◌∙◌, Bool, true, false, none, some, List, [], ◌∷◌, ◌++◌, append_assoc, arith,
  ◌==◌,
}
use ircfiber_site.ModeLine.{
  ChanModes, Event, user, list, flag, user_event, list_event, arg_event, next_event, Line,
  apply_event, read_modes,
}

-- What the letters do, one event for each that is no sign, and the arguments that none takes.
unfoldable pub events : ChanModes → Bool → List ℕ → List String → List Event × List String
events modes adding [] args = ([], args)
events modes adding (ch ∷ chs) args = elim (ch == b'+') [
  | true ↦ events modes true chs args
  | false ↦ elim (ch == b'-') [
    | true ↦ events modes false chs args
    | false ↦
        let e = next_event modes ch adding args in
        let rest = events modes adding chs e.1 in (e.0 ∷ rest.0, rest.1)
  ]
]

-- The argument that an event took.
unfoldable pub event_args : Event → List String
event_args (user _ _ nick) = nick ∷ []
event_args (list _ _ mask) = mask ∷ []
event_args (flag _ _ none) = []
event_args (flag _ _ (some arg)) = arg ∷ []

unfoldable pub args_of : List Event → List String
args_of [] = []
args_of (e ∷ es) = event_args e ++ args_of es

unfoldable pub apply_events : (String → String) → List Event → Line → Line
apply_events lower [] line = line
apply_events lower (e ∷ es) line = apply_events lower es (apply_event lower e line)

-- The loop applies the events one after the other.
pub read_modes-apply_events :
    (lower : String → String) (modes : ChanModes) (adding : Bool) (chs : List ℕ)
    (args : List String) (line : Line)
    → read_modes lower modes adding chs args line
      ≡ apply_events lower (events modes adding chs args).0 line
unfolding read_modes events apply_events
read_modes-apply_events lower modes adding [] args line = refl
read_modes-apply_events lower modes adding (ch ∷ chs) args line = ground (
  arith,
  read_modes-apply_events lower modes true chs args line,
  read_modes-apply_events lower modes false chs args line,
  read_modes-apply_events lower modes adding chs (next_event modes ch adding args).1
      (apply_event lower (next_event modes ch adding args).0 line),
)

next_event-args :
    (modes : ChanModes) (ch : ℕ) (adding : Bool) (args : List String)
    → event_args (next_event modes ch adding args).0 ++ (next_event modes ch adding args).1 ≡ args
unfolding next_event user_event list_event arg_event event_args
next_event-args modes ch adding [] = ground arith
next_event-args modes ch adding (arg ∷ args) = ground arith

append-join : (a b l x args : List String) → b ++ l ≡ x → a ++ x ≡ args → (a ++ b) ++ l ≡ args
append-join a b l x args h g = append_assoc a b l ∙ ap (λ t. a ++ t) h ∙ g

-- The arguments are handed out in order, each to one letter, and none is skipped.
pub events-args :
    (modes : ChanModes) (adding : Bool) (chs : List ℕ) (args : List String)
    → args_of (events modes adding chs args).0 ++ (events modes adding chs args).1 ≡ args
unfolding events args_of
events-args modes adding [] args = refl
events-args modes adding (ch ∷ chs) args =
    let e = next_event modes ch adding args in
    let joined =
      append-join (event_args e.0) (args_of (events modes adding chs e.1).0)
        (events modes adding chs e.1).1 e.1 args (events-args modes adding chs e.1)
        (next_event-args modes ch adding args) in
    ground (arith, events-args modes true chs args, events-args modes false chs args, joined)
