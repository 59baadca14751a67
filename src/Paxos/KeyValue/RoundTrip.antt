-- ===== src/Paxos/KeyValue/RoundTrip.antt =====
-- Encoding and decoding of log values.
use Prim.Native.Char.{Char, code}
use Prim.Native.String.{◌∷◌, ◌++◌}
use text.Mathlib.TextLemmas.{nil-append, cons-append, append_assoc}
use chubby.Prelude.{ℕ, ◌≡◌, refl, String, Bool, true, ◌&&◌, not, some, arith, nat_beq}
use chubby.Paxos.KeyValue.{split_at, get_key_value, key_value_of}

-- No character of the text has the given code.
unfoldable pub lacks : ℕ → String → Bool
lacks mark String.[] = true
lacks mark (String.◌∷◌ c s) = not (nat_beq (code c) mark) && lacks mark s

split_at_prefix :
    (mark : ℕ) (c : Char) (s t : String)
    → code c ≡ mark
    → lacks mark s ≡ true
    → split_at mark (s ++ (c ∷ t)) ≡ some (s, t)
unfolding split_at lacks
split_at_prefix mark c String.[] t e h = rw (nil-append (c ∷ t)) (ground arith)
split_at_prefix mark c (String.◌∷◌ d s) t e h =
    rw (cons-append d s (c ∷ t)) (ground (arith, split_at_prefix mark c s t e))

encoded : (path mode : String) → key_value_of path mode ≡ path ++ ("#" ∷ mode)
unfolding key_value_of
encoded path mode = rw (append_assoc path "#" mode, cons-append "#" String.[] mode, nil-append mode)

-- For a path without `#`, decoding the value that `Put` builds gives back the path and the mode,
-- whatever the mode holds.
pub get_key_value-key_value_of :
    (path mode : String)
    → lacks b'#' path ≡ true
    → get_key_value (key_value_of path mode) ≡ some (path, mode)
unfolding get_key_value
get_key_value-key_value_of path mode h =
    rw (encoded path mode) (split_at_prefix b'#' "#" path mode refl h)
