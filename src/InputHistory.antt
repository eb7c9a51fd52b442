-- ===== src/InputHistory.antt =====
-- frontend/src/lib/inputHistory.ts, the class `InputHistory`: sent messages for Up and Down.
pub mod Invariant
pub mod Navigation
mod Tests
use Prim.Native.String.{String}
use text.Mathlib.Text.{◌==◌ as str_eq}
use ircfiber_site.Common.{
  ℕ, ◌+◌, ◌-◌, Bool, false, ◌&&◌, Option, none, some, List, [], ◌∷◌, ◌++◌, ltb, leb, ◌==◌,
  if◌then◌else◌, length, get_elem?, drop, is_empty,
}

-- What `localStorage` holds under the history's key: nothing, text that is no JSON, JSON that is
-- no array, or an array of strings.
pub data Stored : Type 0 where
  absent invalid not_array : Stored
  array : List String → Stored

-- `history` is oldest first; `back` is the source's `index` negated, which never is positive.
pub record History : Type 0 where
  pub history : List String
  pub back : ℕ
  pub current_value : String
  pub stored : Stored

abbrev pub max_size : ℕ
max_size = 100

-- `load`, on what the storage holds.
unfoldable pub load : Stored → List String
load absent = []
load invalid = []
load not_array = []
load (array entries) = entries

-- The constructor.
unfoldable pub new_history : Stored → History
new_history stored = record { history = load stored; back = 0; current_value = ""; stored = stored }

-- `history.length > 0 && history[history.length - 1] === text`
unfoldable pub last_is : String → List String → Bool
last_is text [] = false
last_is text (e ∷ []) = str_eq e text
last_is text (e ∷ f ∷ es) = last_is text (f ∷ es)

-- `if (this.history.length > this.maxSize) this.history.shift();`
unfoldable pub shift_over : List String → List String
shift_over es = if ltb max_size (length es) then drop 1 es else es

-- `this.history.slice(-this.maxSize)` is stored, unless the storage throws.
unfoldable pub save : Bool → History → History
save can_store h =
    if can_store
    then record h { stored = array (drop (length h.history - max_size) h.history) }
    else h

unfoldable pub reset_index : History → History
reset_index h = record h { back = 0; current_value = "" }

unfoldable pub push : Bool → String → History → History
push can_store text h =
    if last_is text h.history
    then h
    else reset_index (save can_store (record h { history = shift_over (h.history ++ text ∷ []) }))

-- `getFromEnd(-k)`
unfoldable pub get_from_end : ℕ → List String → Option String
get_from_end k es = if leb 1 k && leb k (length es) then get_elem? es (length es - k) else none

-- What `getEarlier` does with the entry that it looks up.
unfoldable pub step_back : History → Option String → History × Option String
step_back h none = (h, none)
step_back h (some entry) = (record h { back = h.back + 1 }, some entry)

unfoldable pub remember_input : String → History → History
remember_input input h = if h.back == 0 then record h { current_value = input } else h

unfoldable pub get_earlier : String → History → History × Option String
get_earlier input h =
    if is_empty h.history
    then (h, none)
    else step_back (remember_input input h) (get_from_end (h.back + 1) h.history)

-- What `getLater` does with the entry that it looks up. The value is read after the reset.
unfoldable pub step_forth : History → Option String → History × Option String
step_forth h none = (reset_index h, some (reset_index h).current_value)
step_forth h (some entry) = (record h { back = h.back - 1 }, some entry)

unfoldable pub get_later : History → History × Option String
get_later h =
    if h.back == 0
    then (h, none)
    else if h.back == 1
    then (record h { back = 0 }, some h.current_value)
    else step_forth h (get_from_end (h.back - 1) h.history)
