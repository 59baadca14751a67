-- ===== src/Client/Excluding.antt =====
-- Clients and the server together: `chubby_lock` of client/client_interface.cpp with its call carried out
-- by `AcquireLock` of src/server/server.cpp.
use mathlib.Core.Option.{some-injective}
use chubby.Prelude.{
  ℕ, String, ◌≡◌, ◌≢◌, refl, ap, ◌∙◌, inl, inr, Bool, true, false, ◌&&◌, Option, some, List,
  if◌then◌else◌, ltb, arith, Option-cases,
}
use chubby.Prelude.Int.{ℤ, pos}
use chubby.Prelude.Map.{lookup, string_eq, beq_refl}
use chubby.Paxos.Messages.{
  Outcome, replied, refused, threw, undefined, aborted as abort, invalid_argument,
}
use chubby.Paxos.Network.{Delivery, delivered, lost, reply_lost}
use chubby.Paxos.Address.{to_string}
use chubby.Paxos.KeyValue.{key_value_of}
use chubby.Paxos.KeyValue.RoundTrip.{lacks}
use chubby.Server.Service.{Consensus, Applies}
use chubby.Server.{
  ChubbyImpl, AcquireLockRequest, LockResponse, World, decision, carry_out, put_mode, acquire_lock,
  next_slot,
}
use chubby.Server.Granting.{Mode, mode_text, request_of, denied_exclusive}
use chubby.Server.Exclusion.{no_response, AllPlain, acquire_all, acquires-Unshaken}
use chubby.Client.{ClientLib, Answer, answered, failed, aborted, other_failure, chubby_lock}
use chubby.Client.Unlocking.{acquire_request, chubby_lock_zero}

-- How the client sees the end of its call.
unfoldable pub answer_of : Delivery → Outcome LockResponse → Answer LockResponse
answer_of delivered (replied r) = answered r
answer_of delivered (refused abort) = failed aborted
answer_of delivered (refused invalid_argument) = failed other_failure
answer_of delivered threw = failed other_failure
answer_of delivered undefined = failed other_failure
answer_of lost outcome = failed other_failure
answer_of reply_lost outcome = failed other_failure

abbrev reaches : Delivery → Bool
reaches lost = false
reaches delivered = true
reaches reply_lost = true

module _ (P : Consensus) where
  -- `chubby_lock` of a client whose leader is this server: its result, and what the server is left with.
  unfoldable pub lock_at :
      Delivery → ℕ → String → String → ClientLib → World P → Option (ℤ × ClientLib) × World P
  unfolding answer_of
  lock_at how now path mode c w =
      let served = (acquire_lock P no_response (acquire_request c path mode) w).1 in
      (
        chubby_lock (λ address. some (λ r. answer_of how (acquire_lock P no_response r w).0)) now
            path mode c,
        if c.accept_requests && ltb now c.client_lease_timeout && reaches how then served else w,
      )

answer_of-answered :
    (how : Delivery) (outcome : Outcome LockResponse) (r : LockResponse)
    → answer_of how outcome ≡ answered r
    → (how ≡ delivered) × (outcome ≡ replied r)
unfolding answer_of
answer_of-answered delivered (replied r') r e = (refl, ground (arith, e))
answer_of-answered delivered (refused abort) r e = absurd (ground arith)
answer_of-answered delivered (refused invalid_argument) r e = absurd (ground arith)
answer_of-answered delivered threw r e = absurd (ground arith)
answer_of-answered delivered undefined r e = absurd (ground arith)
answer_of-answered lost outcome r e = absurd (ground arith)
answer_of-answered reply_lost outcome r e = absurd (ground arith)

module _ (P : Consensus) where
  exclusive_started :
      (client path : String) (r : LockResponse) (c : ChubbyImpl) (p : P.State)
      → (acquire_lock P no_response (request_of client path "EXCLUSIVE") (c, p)).0 ≡ replied r
      → r.success ≡ true
      → (acquire_lock P no_response (request_of client path "EXCLUSIVE") (c, p)).1.1
        ≡ P.start (next_slot c.slot_number) (key_value_of path "EXCLUSIVE") p
  unfolding acquire_lock carry_out put_mode decision
  exclusive_started client path r c p e granted = ground (arith, e, granted)

  -- A grant comes from a server that is not in the wait after an election, to a client with a session.
  granted_in_session :
      (request : AcquireLockRequest) (r : LockResponse) (c : ChubbyImpl) (p : P.State)
      → (acquire_lock P no_response request (c, p)).0 ≡ replied r
      → r.success ≡ true
      → (P.leader_election_happened p ≡ false)
        × ((lease : ℕ) × (lookup request.client_id c.client_lease_map ≡ some lease))
  unfolding acquire_lock
  granted_in_session request r c p e granted = (
    ground (arith, e, granted),
    elim (Option-cases (lookup request.client_id c.client_lease_map)) [
      | inl gone ↦ absurd (ground (arith, e, granted, gone))
      | inr found ↦ found
    ],
  )

  -- What the result 0 says: the request arrived, and the server granted it.
  granted_at :
      (how : Delivery) (now : ℕ) (path mode : String) (c c' : ClientLib) (w : World P)
      → (lock_at P how now path mode c w).0 ≡ some (pos 0, c')
      → ((lock_at P how now path mode c w).1
          ≡ (acquire_lock P no_response (acquire_request c path mode) w).1)
        × ((r : LockResponse) × ((acquire_lock P no_response (acquire_request c path mode) w).0
              ≡ replied r)
            × (r.success ≡ true))
  unfolding lock_at
  granted_at how now path mode c c' w e =
      let (accepts, early, (ask, here, (r, answer, success, moved))) =
        chubby_lock_zero _ now path mode c c' e in
      let (arrived, outcome) =
        answer_of-answered how _ r
          (ap (λ f. f (acquire_request c path mode)) (some-injective _ ask here) ∙ answer) in
      (rw (accepts, arrived) (ground (arith, early)), (r, outcome, success))

module _ (P : Consensus) (applies : Applies P) (path : String) where
  -- While the path is held exclusively, no client is told that it has it.
  refused_after :
      (w : World P) (requests : List AcquireLockRequest) (how : Delivery) (now : ℕ) (m : Mode)
      (c c' : ClientLib)
      → P.get w.1 path ≡ some "EXCLUSIVE"
      → AllPlain requests
      → (lock_at P how now path (mode_text m) c (acquire_all P requests w)).0 ≢ some (pos 0, c')
  refused_after w requests how now m c c' held all_plain zero =
      let w' = acquire_all P requests w in
      let kept = acquires-Unshaken P applies path requests w all_plain held in
      let (served, (r, outcome, success)) = granted_at P how now path (mode_text m) c c' w' zero in
      let (calm, (lease, session)) = granted_in_session P _ r w'.0 w'.1 outcome success in
      let denied =
        denied_exclusive P no_response (to_string c.client_id) path m w'.0 w'.1 lease calm session
          kept.hold in
      ground (arith, denied, outcome, success)

  -- On a service that decides open slots and leaves decided ones alone: when `chubby_lock` of a client
  -- for a path without `#`, in mode EXCLUSIVE, has given 0 while the next slot was open, then the
  -- database has the path under an exclusive lock; and after any further acquire requests, from any
  -- clients, for paths without `#`, `chubby_lock` of any client for the path does not give 0, whatever
  -- its mode and whatever becomes of its messages.
  pub lock_excludes :
      (how how' : Delivery) (now later : ℕ) (holder holder' other other' : ClientLib) (m : Mode)
      (requests : List AcquireLockRequest) (w : World P)
      → AllPlain requests
      → P.knows w.1 (next_slot w.0.slot_number) ≡ false
      → lacks b'#' path ≡ true
      → (lock_at P how now path "EXCLUSIVE" holder w).0 ≡ some (pos 0, holder')
      → let w' = (lock_at P how now path "EXCLUSIVE" holder w).1 in
        (P.get w'.1 path ≡ some "EXCLUSIVE")
        × ((lock_at P how' later path (mode_text m) other (acquire_all P requests w')).0
            ≢ some (pos 0, other'))
  lock_excludes how how' now later holder holder' other other' m requests w all_plain fresh plain
        zero =
      let (served, (r, outcome, success)) =
        granted_at P how now path "EXCLUSIVE" holder holder' w zero in
      let started =
        exclusive_started P (to_string holder.client_id) path r w.0 w.1 outcome success in
      let held : P.get (lock_at P how now path "EXCLUSIVE" holder w).1.1 path ≡ some "EXCLUSIVE" =
        rw (served, started)
          (applies.applied (next_slot w.0.slot_number) path "EXCLUSIVE" path w.1 fresh plain
            ∙ rw (beq_refl path)) in
      (held, λ zero'. refused_after _ requests how' later m other other' held all_plain zero')
