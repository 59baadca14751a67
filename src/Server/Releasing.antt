-- ===== src/Server/Releasing.antt =====
-- What `ReleaseLock` checks, and what it does not.
use chubby.Prelude.{String, ◌≡◌, refl, Bool, true, false, if◌then◌else◌}
use chubby.Prelude.Map.{◌==◌, string_eq}
use chubby.Paxos.Messages.{replied}
use chubby.Paxos.KeyValue.RoundTrip.{lacks}
use chubby.Server.Service.{Consensus, Applies}
use chubby.Server.{
  ChubbyImpl, ReleaseLockRequest, LockResponse, release_at, leader_address, release_lock,
}
use chubby.Server.Granting.{
  shared, exclusive, Hold, absent, free, held, hold_text, unchanged, reply_eq,
}

abbrev pub releases : Hold → Bool
releases (held m) = true
releases _ = false

abbrev pub after_release : Hold → Hold
after_release (held m) = free
after_release h = h

abbrev pub release_message : Hold → String
release_message (held m) = "NO_ERROR"
release_message _ = "TRYING_TO_RELEASE_UNACQUIRED_LOCK"

abbrev pub release_of : String → String → ReleaseLockRequest
release_of client path = record { client_id = client; path = path }

module _ (P : Consensus) (applies : Applies P) where
  released :
      (before : LockResponse) (client path : String) (h : Hold) (c : ChubbyImpl) (p : P.State)
      → P.knows p c.slot_number ≡ false
      → lacks b'#' path ≡ true
      → P.get p path ≡ hold_text h
      → let (r, (c', p')) = release_at P (hold_text h) (release_of client path) before (c, p) in
        (r.success ≡ releases h)
        × (r.error_message ≡ release_message h)
        × ((j : String)
            → P.get p' j ≡ (if path == j then hold_text (after_release h) else P.get p j))
  unfolding release_at
  released before client path absent c p fresh plain now =
      (refl, refl, λ j. unchanged P p path j _ now)
  released before client path free c p fresh plain now =
      (refl, refl, λ j. unchanged P p path j _ now)
  released before client path (held shared) c p fresh plain now =
      (refl, refl, λ j. applies.applied c.slot_number path "FREE" j p fresh plain)
  released before client path (held exclusive) c p fresh plain now =
      (refl, refl, λ j. applies.applied c.slot_number path "FREE" j p fresh plain)

  -- On a service that decides open slots: a release request for a path without `#`, when no election has just happened and the slot that the
  -- server stands at is open: it succeeds exactly
  -- if the path is held, in either mode and by whichever client, and then the path is free; no other
  -- path changes. The request's client plays no part in the reply or in the hold.
  pub release_refines :
      (before : LockResponse) (client path : String) (h : Hold) (c : ChubbyImpl) (p : P.State)
      → P.leader_election_happened p ≡ false
      → P.knows p c.slot_number ≡ false
      → lacks b'#' path ≡ true
      → P.get p path ≡ hold_text h
      → let (outcome, (c', p')) = release_lock P before (release_of client path) (c, p) in
        (outcome
          ≡ replied (record {
            success = releases h;
            error_message = release_message h;
            current_leader = leader_address P p';
          }))
        × ((j : String)
            → P.get p' j ≡ (if path == j then hold_text (after_release h) else P.get p j))
  unfolding release_lock
  release_refines before client path h c p calm fresh plain now =
      rw (calm, now)
        (let (a, b, holds) = released before client path h c p fresh plain now in
          (reply_eq _ a b, holds))
