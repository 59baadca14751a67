-- ===== src/Client/Unlocking.antt =====
-- What the result 0 of `chubby_lock` and of `chubby_unlock` says.
use chubby.Prelude.{
  ℕ, ◌<◌, String, ◌≡◌, refl, ◌⊎◌, inl, inr, true, Option, some, arith, Option-cases,
}
use chubby.Prelude.Int.{pos}
use chubby.Paxos.Address.{to_string}
use chubby.Server.{AcquireLockRequest, ReleaseLockRequest, LockResponse}
use chubby.Client.{
  ClientLib, Answer, answered, failed, other_failure, settle, aborted, deadline_exceeded,
  lock_result, unlock_result, chubby_lock, chubby_unlock,
}

abbrev pub acquire_request : ClientLib → String → String → AcquireLockRequest
acquire_request c path mode = record {
  client_id = to_string c.client_id;
  path = path;
  locking_mode = mode;
}

abbrev pub release_request : ClientLib → String → ReleaseLockRequest
release_request c path = record { client_id = to_string c.client_id; path = path }

-- A request that a server has granted, with the leader that the client follows from then on.
abbrev pub Granted : ClientLib → Answer LockResponse → ClientLib → Type 0
Granted c answer c' =
    (r : LockResponse) × (answer ≡ answered r)
    × (r.success ≡ true)
    × (c' ≡ record c { current_leader = r.current_leader })

unlock_result_zero :
    (answer : Answer LockResponse) (c c' : ClientLib)
    → unlock_result answer c ≡ (pos 0, c')
    → Granted c answer c' ⊎ ((answer ≡ failed other_failure) × (c' ≡ c))
unfolding unlock_result settle
unlock_result_zero (answered r) c c' e = inl (r, refl, ground arith, ground arith)
unlock_result_zero (failed aborted) c c' e = ground arith
unlock_result_zero (failed deadline_exceeded) c c' e = ground arith
unlock_result_zero (failed other_failure) c c' e = inr (refl, ground arith)

-- `chubby_unlock` gives 0 only if the client accepts requests, its lease has not ended, and the server
-- that it takes for the leader has answered the release request with success, or the call has failed with
-- a status that is neither ABORTED nor DEADLINE_EXCEEDED, as when no server listens; then the client is
-- as it was.
pub chubby_unlock_zero :
    (stubs : String → Option (ReleaseLockRequest → Answer LockResponse)) (now : ℕ) (path : String)
    (c c' : ClientLib)
    → chubby_unlock stubs now path c ≡ some (pos 0, c')
    → (c.accept_requests ≡ true)
      × (now < c.client_lease_timeout)
      × ((ask : ReleaseLockRequest → Answer LockResponse) × (stubs c.current_leader ≡ some ask)
          × (Granted c (ask (release_request c path)) c'
              ⊎ ((ask (release_request c path) ≡ failed other_failure) × (c' ≡ c))))
unfolding chubby_unlock
chubby_unlock_zero stubs now path c c' e = elim (Option-cases (stubs c.current_leader)) [
  | inl gone ↦ ground arith
  | inr (ask, here) ↦ (
    ground arith,
    ground arith,
    (ask, here, unlock_result_zero (ask (release_request c path)) c c' (ground arith)),
  )
]

lock_result_zero :
    (answer : Answer LockResponse) (c c' : ClientLib)
    → lock_result answer c ≡ (pos 0, c')
    → Granted c answer c'
unfolding lock_result settle
lock_result_zero (answered r) c c' e = (r, refl, ground arith, ground arith)
lock_result_zero (failed aborted) c c' e = ground arith
lock_result_zero (failed deadline_exceeded) c c' e = ground arith
lock_result_zero (failed other_failure) c c' e = ground arith

-- `chubby_lock` gives 0 only if the client accepts requests, its lease has not ended, and the server
-- that it takes for the leader has answered the request with success; it then follows the leader of the answer.
pub chubby_lock_zero :
    (stubs : String → Option (AcquireLockRequest → Answer LockResponse)) (now : ℕ)
    (path mode : String) (c c' : ClientLib)
    → chubby_lock stubs now path mode c ≡ some (pos 0, c')
    → (c.accept_requests ≡ true)
      × (now < c.client_lease_timeout)
      × ((ask : AcquireLockRequest → Answer LockResponse) × (stubs c.current_leader ≡ some ask)
          × Granted c (ask (acquire_request c path mode)) c')
unfolding chubby_lock
chubby_lock_zero stubs now path mode c c' e = elim (Option-cases (stubs c.current_leader)) [
  | inl gone ↦ ground arith
  | inr (ask, here) ↦ (
    ground arith,
    ground arith,
    (ask, here, lock_result_zero (ask (acquire_request c path mode)) c c' (ground arith)),
  )
]
