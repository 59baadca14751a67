-- ===== src/Server.antt =====
-- The lock service, `ChubbyImpl` of src/server/server.cpp: its state and its handlers.
pub mod Service
pub mod Granting
pub mod Exclusion
pub mod Releasing
pub mod SlotNumber
pub mod OpenSlots
pub mod Leases
pub mod KeyLock
pub mod Cell
pub mod Startup
use chubby.Prelude.{
  ℕ, ◌+◌, ◌-◌, String, Bool, true, false, ◌&&◌, ◌||◌, Option, none, some, List, [], ◌∷◌,
  if◌then◌else◌, leb, ltb,
}
use chubby.Prelude.Int.{ℤ, pos, negsuc, ◌+ℤ◌, int_beq}
use chubby.Prelude.Map.{Map, lookup, insert, erase, ◌==◌, string_eq}
use chubby.Paxos.Messages.{Outcome, replied, refused, aborted}
use chubby.Paxos.KeyValue.{key_value_of}
use chubby.Paxos.Address.{address_of, int_max}
use Service.{Consensus}

-- `client_lock_map` is a set of pairs of a path and a client. Times are in milliseconds.
pub record ChubbyImpl : Type 0 where
  pub client_lock_map : List (String × String)
  pub client_lease_map : Map String ℕ
  pub slot_number : ℤ

pub record AcquireLockRequest : Type 0 where
  pub client_id : String
  pub path : String
  pub locking_mode : String

-- Also the form of `ReleaseLockResponse`.
pub record LockResponse : Type 0 where
  pub success : Bool
  pub error_message : String
  pub current_leader : String

pub record ReleaseLockRequest : Type 0 where
  pub client_id : String
  pub path : String

-- `slot_number++` on a `std::atomic<int>`, which wraps.
unfoldable pub next_slot : ℤ → ℤ
next_slot n = if int_beq n (pos int_max) then negsuc int_max else n +ℤ pos 1

pair_beq : String × String → String × String → Bool
pair_beq (a, b) (c, d) = a == c && b == d

-- `client_lock_map.insert({path, client_id})`
unfoldable pub insert_lock : String × String → List (String × String) → List (String × String)
unfolding pair_beq
insert_lock p [] = p ∷ []
insert_lock p (q ∷ rest) = if pair_beq q p then q ∷ rest else q ∷ insert_lock p rest

-- `client_lock_map.erase({path, client_id})`
unfoldable pub erase_lock : String × String → List (String × String) → List (String × String)
unfolding pair_beq
erase_lock p [] = []
erase_lock p (q ∷ rest) =
    let others = erase_lock p rest in if pair_beq q p then others else q ∷ others

-- What `AcquireLock` does about a path: write the mode and note the client, note the client, refuse
-- with a message, or leave the response as it is.
pub data Decision : Type 0 where
  take share : Decision
  deny : String → Decision
  ignore : Decision

-- The ladder over the requested mode and the value found.
unfoldable pub decision : String → String → Decision
decision mode value =
    if mode == "SHARED"
    then (if value == "FREE"
        then take
        else if value == "SHARED"
        then share
        else if value == "EXCLUSIVE"
        then deny "EXCLUSIVE_LOCK_HELD"
        else ignore)
    else if mode == "EXCLUSIVE"
    then (if value == "FREE"
        then take
        else if value == "SHARED"
        then deny "SHARED_LOCK_HELD"
        else if value == "EXCLUSIVE"
        then deny "EXCLUSIVE_LOCK_HELD"
        else ignore)
    else ignore

abbrev pub decision_at : String → Option String → Decision
decision_at mode none = take
decision_at mode (some value) = decision mode value

module _ (P : Consensus) where
  -- The server's state with that of the Paxos service beside it.
  abbrev pub World : Type 0
  World = ChubbyImpl × P.State

  -- `Put`
  unfoldable pub put_mode : String → String → World → World
  put_mode path mode (c, p) = (c, P.start c.slot_number (key_value_of path mode) p)

  -- The address that the responses name.
  unfoldable pub leader_address : P.State → String
  leader_address p = address_of (pos (P.first_port p) +ℤ P.turn p)

  abbrev note_lock : String → String → World → World
  note_lock path client (c, p) =
      (record c { client_lock_map = insert_lock (path, client) c.client_lock_map }, p)

  abbrev granted : LockResponse → LockResponse
  granted r = record r { success = true; error_message = "NO_ERROR" }

  abbrev denied : String → LockResponse → LockResponse
  denied message r = record r { success = false; error_message = message }

  unfoldable pub carry_out :
      Decision → AcquireLockRequest → LockResponse → World → LockResponse × World
  unfolding put_mode
  carry_out take request r w = (
    granted r,
    note_lock request.path request.client_id (put_mode request.path request.locking_mode w),
  )
  carry_out share request r w = (granted r, note_lock request.path request.client_id w)
  carry_out (deny message) request r w = (denied message r, w)
  carry_out ignore request r w = (r, w)

  abbrev pub with_leader : LockResponse × World → Outcome LockResponse × World
  with_leader (r, (c, p)) = (replied (record r { current_leader = leader_address p }), (c, p))

  abbrev in_session : Option ℕ → AcquireLockRequest → LockResponse → World → LockResponse × World
  in_session none request r w = (denied "NO_CLIENT_SESSION" r, w)
  in_session (some lease) request r (c, p) =
      carry_out (decision_at request.locking_mode (P.get p request.path)) request r (c, p)

  -- `AcquireLock`, between the lock and the unlock of the path's mutex. `before` is the response as
  -- the handler finds it: empty, or what the leader answered to the forwarded request if
  -- `leader_dead` holds; the handler goes on either way.
  unfoldable pub acquire_lock :
      LockResponse → AcquireLockRequest → World → Outcome LockResponse × World
  unfolding next_slot insert_lock decision carry_out leader_address
  acquire_lock before request (c, p) =
      if P.leader_election_happened p
      then (refused aborted, (c, p))
      else with_leader (
          in_session (lookup request.client_id c.client_lease_map) request before
            (record c { slot_number = next_slot c.slot_number }, p))

  abbrev is_held : String → Bool
  is_held value = value == "SHARED" || value == "EXCLUSIVE"

  abbrev drop_lock : String → String → World → World
  drop_lock path client (c, p) =
      (record c { client_lock_map = erase_lock (path, client) c.client_lock_map }, p)

  unfoldable pub release_at :
      Option String → ReleaseLockRequest → LockResponse → World → LockResponse × World
  unfolding put_mode
  release_at none request r w = (denied "TRYING_TO_RELEASE_UNACQUIRED_LOCK" r, w)
  release_at (some value) request r w =
      if value == "FREE"
      then (denied "TRYING_TO_RELEASE_UNACQUIRED_LOCK" r, w)
      else if is_held value
      then (granted r, drop_lock request.path request.client_id (put_mode request.path "FREE" w))
      else (r, w)

  -- `ReleaseLock`, with `before` as in `acquire_lock`.
  unfoldable pub release_lock :
      LockResponse → ReleaseLockRequest → World → Outcome LockResponse × World
  unfolding erase_lock release_at leader_address
  release_lock before request (c, p) =
      if P.leader_election_happened p
      then (refused aborted, (c, p))
      else with_leader (release_at (P.get p request.path) request before (c, p))
