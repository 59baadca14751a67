-- ===== src/Client.antt =====
-- The client library, `ClientLib` of client/client_interface.h and client/client_interface.cpp: locks,
-- unlocks, and the keep-alive with its grace period. Times are in whole seconds.
pub mod Unlocking
pub mod Excluding
pub mod OnCell
pub mod KeepingAlive
pub mod Setup
pub mod Performance
use chubby.Prelude.{
  ℕ, ◌+◌, String, Bool, true, false, ◌&&◌, not, Option, none, some, List, [], ◌∷◌, if◌then◌else◌,
  ltb,
}
use chubby.Prelude.Int.{ℤ, pos, negsuc, ltb_ℤ, ◌%ℤ◌, ◌+ℤ◌, ◌-ℤ◌}
use chubby.Prelude.Map.{◌==◌, string_eq}
use chubby.Paxos.Address.{to_string}
use chubby.Server.{AcquireLockRequest, ReleaseLockRequest, LockResponse}
use chubby.Server.Leases.{KeepAliveResponse}

-- The members that the calls read and write.
pub record ClientLib : Type 0 where
  pub current_leader : String
  pub client_lease_timeout : ℕ
  pub accept_requests : Bool
  pub latest_epoch_number : ℤ
  pub client_id : ℤ

-- The status codes that the calls tell apart.
pub data Failure : Type 0 where
  aborted deadline_exceeded other_failure : Failure

-- How a call of a stub ends.
pub data Answer (A : Type 0) : Type 0 where
  answered : A → Answer A
  failed : Failure → Answer A

-- `grace_period`
abbrev pub grace_period : ℕ
grace_period = 45

-- `lease_timeout`
abbrev pub lease_timeout : ℕ
lease_timeout = 12

-- The member that follows the leader after an answer, and the result for it.
unfoldable pub settle : LockResponse → ClientLib → ℤ × ClientLib
settle r c = (if r.success then pos 0 else negsuc 0, record c { current_leader = r.current_leader })

-- What `chubby_lock` makes of the end of its call.
unfoldable pub lock_result : Answer LockResponse → ClientLib → ℤ × ClientLib
unfolding settle
lock_result (answered r) c = settle r c
lock_result (failed aborted) c = (negsuc 4, c)
lock_result (failed deadline_exceeded) c = (negsuc 1, c)
lock_result (failed other_failure) c = (negsuc 1, c)

-- What `chubby_unlock` makes of the end of its call.
unfoldable pub unlock_result : Answer LockResponse → ClientLib → ℤ × ClientLib
unfolding settle
unlock_result (answered r) c = settle r c
unlock_result (failed aborted) c = (negsuc 4, c)
unlock_result (failed deadline_exceeded) c = (negsuc 1, c)
unlock_result (failed other_failure) c = (pos 0, c)

-- `chubby_lock` at a time. A server that the client has no stub for is a null pointer, and the call
-- has no result.
unfoldable pub chubby_lock :
    (String → Option (AcquireLockRequest → Answer LockResponse))
    → ℕ
    → String
    → String
    → ClientLib
    → Option (ℤ × ClientLib)
unfolding lock_result
chubby_lock stubs now path mode c =
    let request : AcquireLockRequest = record {
      client_id = to_string c.client_id;
      path = path;
      locking_mode = mode;
    } in
    if not c.accept_requests
    then some (negsuc 3, c)
    else if ltb now c.client_lease_timeout
    then elim (stubs c.current_leader) [
      | none ↦ none
      | some ask ↦ some (lock_result (ask request) c)
    ]
    else some (negsuc 2, c)

-- `chubby_unlock` at a time.
unfoldable pub chubby_unlock :
    (String → Option (ReleaseLockRequest → Answer LockResponse))
    → ℕ
    → String
    → ClientLib
    → Option (ℤ × ClientLib)
unfolding unlock_result
chubby_unlock stubs now path c =
    let request : ReleaseLockRequest = record { client_id = to_string c.client_id; path = path } in
    if not c.accept_requests
    then some (negsuc 3, c)
    else if ltb now c.client_lease_timeout
    then elim (stubs c.current_leader) [
      | none ↦ none
      | some ask ↦ some (unlock_result (ask request) c)
    ]
    else some (negsuc 2, c)

-- One turn of a loop of `send_keep_alive`: the server that the grace period picks, the response if the
-- status is ok, and the time as it is read at the end of the turn.
pub record Attempt : Type 0 where
  pub server : String
  pub response : Option KeepAliveResponse
  pub clock : ℕ

-- What a response makes a loop do: note a new epoch and go on, without reading the clock; take the new
-- lease and end; or go on.
pub data Turn : Type 0 where
  new_epoch : ℤ → Turn
  new_lease : ℕ → Turn
  retry : Turn

-- An `int` and a `uint32` in the other type, as gcc converts them.
abbrev pub as_uint32 : ℤ → ℤ
as_uint32 n = let r = n %ℤ 4294967296 in if ltb_ℤ r (pos 0) then r +ℤ pos 4294967296 else r

abbrev pub as_int : ℤ → ℤ
as_int n = let u = as_uint32 n in if ltb_ℤ u (pos 2147483648) then u else u -ℤ pos 4294967296

-- The number of the response is unsigned, and so is the comparison.
unfoldable pub turn : ℤ → Option KeepAliveResponse → Turn
turn latest_epoch_number none = retry
turn latest_epoch_number (some r) =
    if r.success
    then (if ltb_ℤ (as_uint32 latest_epoch_number) (as_uint32 r.epoch_number)
        then new_epoch (as_int r.epoch_number)
        else new_lease r.lease_timeout)
    else retry

abbrev pub renewed : ℕ → ClientLib → ClientLib
renewed lease c = record c { client_lease_timeout = lease; accept_requests = true }

-- The second loop of `send_keep_alive`, from a time; `none` if the attempts given do not end it. The
-- server that is picked may be the empty text, which ends the loop.
unfoldable pub grace_loop : List Attempt → ℕ → ClientLib → Option (ℤ × ClientLib)
unfolding turn
grace_loop [] now c =
    if ltb now (c.client_lease_timeout + grace_period) then none else some (negsuc 0, c)
grace_loop (attempt ∷ rest) now c =
    let jeopardy : ClientLib = record c { accept_requests = false } in
    let again =
      λ (epoch : ℤ). grace_loop rest now (record jeopardy { latest_epoch_number = epoch }) in
    let later = grace_loop rest attempt.clock jeopardy in
    if ltb now (c.client_lease_timeout + grace_period)
    then (if attempt.server == ""
        then some (negsuc 1, jeopardy)
        else elim (turn c.latest_epoch_number attempt.response) [
          | new_epoch epoch ↦ again epoch
          | new_lease lease ↦
              some (pos 0, record (renewed lease c) { current_leader = attempt.server })
          | retry ↦ later
        ])
    else some (negsuc 0, c)

-- `send_keep_alive`, from a time; the clock is read again between its loops.
unfoldable pub send_keep_alive : List Attempt → ℕ → ℕ → ClientLib → Option (ℤ × ClientLib)
unfolding turn grace_loop
send_keep_alive [] now between c =
    if ltb now c.client_lease_timeout then none else grace_loop [] between c
send_keep_alive (attempt ∷ rest) now between c =
    let again =
      λ (epoch : ℤ). send_keep_alive rest now between (record c { latest_epoch_number = epoch }) in
    let later = send_keep_alive rest attempt.clock between c in
    if ltb now c.client_lease_timeout
    then elim (turn c.latest_epoch_number attempt.response) [
      | new_epoch epoch ↦ again epoch
      | new_lease lease ↦ some (pos 0, renewed lease c)
      | retry ↦ later
    ]
    else grace_loop (attempt ∷ rest) between c

-- `chubby_open`, with the client id that it draws.
unfoldable pub chubby_open : ℤ → List Attempt → ℕ → ℕ → ClientLib → Option (ℤ × ClientLib)
unfolding send_keep_alive
chubby_open client_id attempts now between c =
    send_keep_alive attempts now between
      (record c { client_id = client_id; client_lease_timeout = now + lease_timeout })
