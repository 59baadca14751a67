-- ===== src/Examples/Clients.antt =====
-- The client library's theorems, at a client whose lease ends at second 100.
use chubby.Prelude.{
  ℕ, ◌<◌, String, ◌≡◌, ◌≢◌, refl, ◌⊎◌, true, false, Option, some, none, List, [], ◌∷◌, arith,
}
use chubby.Prelude.Int.{ℤ, pos}
use chubby.Server.{AcquireLockRequest, ReleaseLockRequest, LockResponse}
use chubby.Client.{
  ClientLib, Answer, answered, failed, other_failure, chubby_unlock, unlock_result, Attempt,
  send_keep_alive, grace_loop, turn, new_epoch,
}
use chubby.Client.Unlocking.{chubby_unlock_zero, Granted, release_request}
use chubby.Client.KeepingAlive.{grace_period_lem, Ends, Good}

abbrev pub client : ClientLib
client = record {
  current_leader = "127.0.0.1:50051";
  client_lease_timeout = 100;
  accept_requests = true;
  latest_epoch_number = pos 3;
  client_id = pos 7;
}

abbrev pub grant : LockResponse
grant = record { success = true; error_message = "NO_ERROR"; current_leader = "127.0.0.1:50052" }

abbrev granting : String → Option (AcquireLockRequest → Answer LockResponse)
granting address = some (λ request. answered grant)

abbrev moved : ClientLib
moved = record client { current_leader = "127.0.0.1:50052" }

-- No server listens.
abbrev silent : String → Option (ReleaseLockRequest → Answer LockResponse)
silent address = some (λ request. failed other_failure)

chubby_unlock_zero_example :
    (true ≡ true)
    × (90 < 100)
    × ((ask : ReleaseLockRequest → Answer LockResponse) × (silent "127.0.0.1:50051" ≡ some ask)
        × (Granted client (ask (release_request client "p")) client
            ⊎ ((ask (release_request client "p") ≡ failed other_failure) × (client ≡ client))))
unfolding chubby_unlock unlock_result
chubby_unlock_zero_example = chubby_unlock_zero silent 90 "p" client client refl

abbrev no_answer : ℕ → Attempt
no_answer clock = record { server = "127.0.0.1:50052"; response = none; clock = clock }

abbrev in_jeopardy : ClientLib
in_jeopardy = record client { accept_requests = false }

abbrev last_attempts : List Attempt
last_attempts = no_answer 144 ∷ no_answer 145 ∷ []

silent_turn : (epoch : ℤ) → turn (pos 3) none ≢ new_epoch epoch
unfolding turn
silent_turn epoch e = ground arith

grace_period_lem_example :
    ((result : ℤ × ClientLib) × (grace_loop last_attempts 143 client ≡ some result)
      × Ends client result)
    × Good client (send_keep_alive (no_answer 101 ∷ no_answer 145 ∷ []) 99 101 client)
grace_period_lem_example =
    grace_period_lem last_attempts (no_answer 101 ∷ no_answer 145 ∷ []) 143 99 101 client
      (silent_turn, omega arith, (silent_turn, omega arith, tt)) (omega arith)
