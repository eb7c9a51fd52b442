-- ===== src/Batcher/Key.antt =====
-- messageBatcher.ts: the queue's keys, `networkId:bufferName`, over the texts' code units.
use ircfiber_site.Common.{
  ℕ, ◌≡◌, refl, ◌≢◌, Bool, true, false, ◌&&◌, List, [], ◌∷◌, ◌++◌, arith, ◌==◌, if◌then◌else◌,
}

-- `===` of two texts.
unfoldable pub text_eq : List ℕ → List ℕ → Bool
text_eq [] [] = true
text_eq [] (d ∷ t) = false
text_eq (c ∷ s) [] = false
text_eq (c ∷ s) (d ∷ t) = c == d && text_eq s t

unfoldable pub make_key : List ℕ → List ℕ → List ℕ
make_key network_id buffer_name = network_id ++ b':' ∷ buffer_name

abbrev to_front : ℕ → List ℕ × List ℕ → List ℕ × List ℕ
to_front c (s, t) = (c ∷ s, t)

-- `key.slice(0, idx)` and `key.slice(idx + 1)` at the first colon; a key has one.
unfoldable pub split_key : List ℕ → List ℕ × List ℕ
split_key [] = ([], [])
split_key (c ∷ s) = let rest = split_key s in if c == b':' then ([], s) else to_front c rest

abbrev pub HasNoColon : List ℕ → Type 0
HasNoColon [] = Unit {0}
HasNoColon (c ∷ s) = (c ≢ b':') × HasNoColon s

-- A flush goes to the network and buffer that the message was enqueued for, if the network's id
-- has no colon in it; the buffer's name may have.
pub split_key-make_key :
    (network_id buffer_name : List ℕ)
    → HasNoColon network_id
    → split_key (make_key network_id buffer_name) ≡ (network_id, buffer_name)
unfolding make_key split_key
split_key-make_key [] buffer_name h = refl
split_key-make_key (c ∷ s) buffer_name h = ground (arith, split_key-make_key s buffer_name h.1)

pub text_eq→eq : (s t : List ℕ) → text_eq s t ≡ true → s ≡ t
unfolding text_eq
text_eq→eq [] [] h = refl
text_eq→eq [] (d ∷ t) h = cc
text_eq→eq (c ∷ s) [] h = cc
text_eq→eq (c ∷ s) (d ∷ t) h = ground (arith, text_eq→eq s t)
