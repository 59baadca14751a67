-- ===== src/Server/SlotNumber.antt =====
-- The slot that `Put` writes to. Only `AcquireLock` counts `slot_number` up, so a release uses the
-- slot of the request before it.
use chubby.Prelude.{ℕ, String, ◌≡◌, refl, ◌∙◌, Bool, true, false, some, arith}
use chubby.Prelude.Map.{lookup, string_eq, int_eq, beq_refl}
use chubby.Paxos.Messages.{replied}
use chubby.Paxos.KeyValue.{key_value_of}
use chubby.Paxos.KeyValue.RoundTrip.{lacks}
use chubby.Server.Service.{Consensus, Applies}
use chubby.Server.{
  ChubbyImpl, LockResponse, next_slot, leader_address, acquire_lock, release_lock, release_at,
  carry_out, decision,
}
use chubby.Server.Granting.{
  Mode, shared, exclusive, mode_text, Hold, absent, free, held, hold_text, request_of,
}
use chubby.Server.Releasing.{release_of}

-- A path that nobody holds.
abbrev pub vacant : Hold → Bool
vacant (held m) = false
vacant h = true

module _ (P : Consensus) (applies : Applies P) where
  -- A release whose slot is decided: it is answered as if it had worked.
  release_settled :
      (before : LockResponse) (client path : String) (m : Mode) (c : ChubbyImpl) (p : P.State)
      → P.leader_election_happened p ≡ false
      → P.knows p c.slot_number ≡ true
      → P.get p path ≡ some (mode_text m)
      → let (outcome, (c', p')) = release_lock P before (release_of client path) (c, p) in
        (outcome
          ≡ replied (record {
            success = true;
            error_message = "NO_ERROR";
            current_leader = leader_address P p';
          }))
        × ((j : String) → P.get p' j ≡ P.get p j)
  unfolding release_lock release_at
  release_settled before client path shared c p calm known now =
      rw (calm, now) (refl, λ j. applies.settled c.slot_number _ j p known)
  release_settled before client path exclusive c p calm known now =
      rw (calm, now) (refl, λ j. applies.settled c.slot_number _ j p known)

  -- What an acquire request that takes the lock leaves: the slot that it counted up to, and one write.
  taken :
      (before : LockResponse) (client path : String) (m : Mode) (h : Hold) (c : ChubbyImpl)
      (p : P.State) (lease : ℕ)
      → P.leader_election_happened p ≡ false
      → lookup client c.client_lease_map ≡ some lease
      → vacant h ≡ true
      → P.get p path ≡ hold_text h
      → let (c', p') = (acquire_lock P before (request_of client path (mode_text m)) (c, p)).1 in
        (c'.slot_number ≡ next_slot c.slot_number)
        × (p' ≡ P.start (next_slot c.slot_number) (key_value_of path (mode_text m)) p)
  unfolding acquire_lock carry_out decision
  taken before client path m absent c p lease calm session empty now =
      rw (calm, session, now) (refl, refl)
  taken before client path shared free c p lease calm session empty now =
      rw (calm, session, now) (refl, refl)
  taken before client path exclusive free c p lease calm session empty now =
      rw (calm, session, now) (refl, refl)
  taken before client path m (held n) c p lease calm session empty now = ground arith

  -- On a service that decides open slots and leaves decided ones alone, when no election has just
  -- happened: a client with a session takes the lock on a path without `#` that nobody holds, by way of
  -- an open slot. A release right after that acquire request uses the slot that this has decided.
  -- It is answered with success and NO_ERROR, whoever sends it, and yet the database still has the
  -- path in the mode that was taken.
  pub release_lost :
      (before before' : LockResponse) (client other path : String) (m : Mode) (h : Hold)
      (c : ChubbyImpl) (p : P.State) (lease : ℕ)
      → P.leader_election_happened p ≡ false
      → lookup client c.client_lease_map ≡ some lease
      → P.knows p (next_slot c.slot_number) ≡ false
      → lacks b'#' path ≡ true
      → vacant h ≡ true
      → P.get p path ≡ hold_text h
      → let w = (acquire_lock P before (request_of client path (mode_text m)) (c, p)).1 in
        let (outcome, w') = release_lock P before' (release_of other path) w in
        (outcome
          ≡ replied (record {
            success = true;
            error_message = "NO_ERROR";
            current_leader = leader_address P w'.1;
          }))
        × (P.get w'.1 path ≡ some (mode_text m))
  release_lost before before' client other path m h c p lease calm session fresh plain empty now =
      let w = (acquire_lock P before (request_of client path (mode_text m)) (c, p)).1 in
      let (at_slot, written) = taken before client path m h c p lease calm session empty now in
      let slot = next_slot c.slot_number in
      let text = key_value_of path (mode_text m) in
      let holds : P.get w.1 path ≡ some (mode_text m) =
        rw written
          (applies.applied slot path (mode_text m) path p fresh plain ∙ rw (beq_refl path)) in
      let (reply, same) =
        release_settled before' other path m w.0 w.1
          (rw written (applies.same_term slot text p ∙ calm))
          (rw (at_slot, written) (applies.decides slot slot text p ∙ rw (beq_refl slot))) holds in
      (reply, same path ∙ holds)
