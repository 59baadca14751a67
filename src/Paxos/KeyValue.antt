-- ===== src/Paxos/KeyValue.antt =====
-- Log values are texts `key#value`: `getKeyValue` of src/paxos/paxos_server.cpp takes them apart,
-- and `ChubbyImpl::Put` of src/server/server.cpp builds them.
pub mod RoundTrip
use Prim.Native.Char.{Char, code}
use Prim.Native.String.{◌∷◌, ◌++◌}
use chubby.Prelude.{ℕ, String, Option, none, some, nat_beq, if◌then◌else◌}

-- A character put in front of the first part.
unfoldable pub in_front : Char → Option (String × String) → Option (String × String)
in_front c none = none
in_front c (some (before, after)) = some (c ∷ before, after)

-- The texts before and after the first character with the given code, `find` and two `substr`;
-- `none` is `npos`.
unfoldable pub split_at : ℕ → String → Option (String × String)
unfolding in_front
split_at mark String.[] = none
split_at mark (String.◌∷◌ c s) =
    let rest = split_at mark s in if nat_beq (code c) mark then some ("", s) else in_front c rest

-- `getKeyValue`; `none` is the exception `invalid_argument`.
unfoldable pub get_key_value : String → Option (String × String)
unfolding split_at
get_key_value key_value = split_at b'#' key_value

-- `path + "#" + locking_mode`
unfoldable pub key_value_of : String → String → String
key_value_of path locking_mode = (path ++ "#") ++ locking_mode
