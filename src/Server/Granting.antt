-- ===== src/Server/Granting.antt =====
-- Who gets a lock, on a Paxos service that decides and applies what it is given.
use text.Mathlib.TextEquality.{eq_iff}
use chubby.Prelude.{
  ℕ, String, ◌≡◌, refl, sym, ap, ◌∙◌, inl, inr, Bool, true, false, Option, some, none,
  if◌then◌else◌, Bool-cases,
}
use chubby.Prelude.Map.{lookup, ◌==◌, string_eq}
use chubby.Paxos.Messages.{Outcome, replied}
use chubby.Paxos.KeyValue.RoundTrip.{lacks}
use chubby.Server.Service.{Consensus, Applies}
use chubby.Server.{
  ChubbyImpl, AcquireLockRequest, LockResponse, decision, carry_out, decision_at, with_leader,
  leader_address, acquire_lock, next_slot,
}

-- The two modes that a client can ask for.
pub data Mode : Type 0 where
  shared exclusive : Mode

abbrev pub mode_text : Mode → String
mode_text shared = "SHARED"
mode_text exclusive = "EXCLUSIVE"

-- What the database says of a path.
pub data Hold : Type 0 where
  absent free : Hold
  held : Mode → Hold

abbrev pub hold_text : Hold → Option String
hold_text absent = none
hold_text free = some "FREE"
hold_text (held m) = some (mode_text m)

-- The lock as the service promises it: a request is granted or refused with a message, and a
-- granted one decides how the path is held from then on.
abbrev pub grants : Mode → Hold → Bool
grants _ absent = true
grants _ free = true
grants shared (held shared) = true
grants shared (held exclusive) = false
grants exclusive (held m) = false

abbrev pub after_grant : Mode → Hold → Hold
after_grant m h = if grants m h then held m else h

abbrev pub message : Mode → Hold → String
message m (held shared) = if grants m (held shared) then "NO_ERROR" else "SHARED_LOCK_HELD"
message m (held exclusive) = "EXCLUSIVE_LOCK_HELD"
message m _ = "NO_ERROR"

abbrev pub request_of : String → String → String → AcquireLockRequest
request_of client path mode = record { client_id = client; path = path; locking_mode = mode }

pub reply_eq :
    {x s : Bool} {y m : String} (leader : String)
    → x ≡ s
    → y ≡ m
    → ◌≡◌ {A = Outcome LockResponse}
        (replied (record { success = x; error_message = y; current_leader = leader }))
        (replied (record { success = s; error_message = m; current_leader = leader }))
reply_eq leader a b =
    λ i. replied (record { success = a i; error_message = b i; current_leader = leader })

module _ (P : Consensus) where
  -- Reads that have not changed, in the form of reads after a change at one path.
  pub unchanged :
      (p : P.State) (path j : String) (x : Option String)
      → P.get p path ≡ x
      → P.get p j ≡ (if path == j then x else P.get p j)
  unchanged p path j x e = elim (Bool-cases (path == j)) [
    | inl hit ↦ rw hit (ap (P.get p) (sym ((eq_iff path j).0 hit)) ∙ e)
    | inr miss ↦ rw miss
  ]

  acquire_in_session :
      (before : LockResponse) (request : AcquireLockRequest) (c : ChubbyImpl) (p : P.State)
      (lease : ℕ)
      → P.leader_election_happened p ≡ false
      → lookup request.client_id c.client_lease_map ≡ some lease
      → acquire_lock P before request (c, p)
        ≡ with_leader P (
            carry_out P
              (decision_at request.locking_mode (P.get p request.path))
              request
              before
              (record c { slot_number = next_slot c.slot_number }, p))
  unfolding acquire_lock
  acquire_in_session before request c p lease calm session = rw (calm, session)

module _ (P : Consensus) (applies : Applies P) where
  -- The promised hold on the paths, after a decision on a path that nobody holds has been carried
  -- out on an open slot.
  carried :
      (before : LockResponse) (client path : String) (m : Mode) (h : Hold) (c : ChubbyImpl)
      (p : P.State)
      → P.knows p c.slot_number ≡ false
      → lacks b'#' path ≡ true
      → P.get p path ≡ hold_text h
      → let (r, (c', p')) =
          carry_out P
            (decision_at (mode_text m) (hold_text h))
            (request_of client path (mode_text m))
            before
            (c, p) in
        (r.success ≡ grants m h)
        × (r.error_message ≡ message m h)
        × ((j : String)
            → P.get p' j ≡ (if path == j then hold_text (after_grant m h) else P.get p j))
  unfolding carry_out decision
  carried before client path m absent c p fresh plain now =
      (refl, refl, λ j. applies.applied c.slot_number path (mode_text m) j p fresh plain)
  carried before client path shared free c p fresh plain now =
      (refl, refl, λ j. applies.applied c.slot_number path "SHARED" j p fresh plain)
  carried before client path exclusive free c p fresh plain now =
      (refl, refl, λ j. applies.applied c.slot_number path "EXCLUSIVE" j p fresh plain)
  carried before client path shared (held shared) c p fresh plain now =
      (refl, refl, λ j. unchanged P p path j _ now)
  carried before client path shared (held exclusive) c p fresh plain now =
      (refl, refl, λ j. unchanged P p path j _ now)
  carried before client path exclusive (held shared) c p fresh plain now =
      (refl, refl, λ j. unchanged P p path j _ now)
  carried before client path exclusive (held exclusive) c p fresh plain now =
      (refl, refl, λ j. unchanged P p path j _ now)

  -- On a service that decides open slots: an acquire request of a client with a session, for a path without `#`, when no election has just
  -- happened and the next slot is open: the reply and the hold on the path are those that the
  -- service promises, and no other path changes.
  pub acquire_refines :
      (before : LockResponse) (client path : String) (m : Mode) (h : Hold) (c : ChubbyImpl)
      (p : P.State) (lease : ℕ)
      → P.leader_election_happened p ≡ false
      → lookup client c.client_lease_map ≡ some lease
      → P.knows p (next_slot c.slot_number) ≡ false
      → lacks b'#' path ≡ true
      → P.get p path ≡ hold_text h
      → let (outcome, (c', p')) =
          acquire_lock P before (request_of client path (mode_text m)) (c, p) in
        (outcome
          ≡ replied (record {
            success = grants m h;
            error_message = message m h;
            current_leader = leader_address P p';
          }))
        × ((j : String)
            → P.get p' j ≡ (if path == j then hold_text (after_grant m h) else P.get p j))
  acquire_refines before client path m h c p lease calm session fresh plain now =
      rw
        (
          acquire_in_session P before (request_of client path (mode_text m)) c p lease calm session,
          now,
        )
        (let (a, b, holds) = carried before client path m h _ p fresh plain now in
          (reply_eq _ a b, holds))

module _ (P : Consensus) where
  -- A path under an exclusive lock is refused, whatever the state of the slots.
  pub denied_exclusive :
      (before : LockResponse) (client path : String) (m : Mode) (c : ChubbyImpl) (p : P.State)
      (lease : ℕ)
      → P.leader_election_happened p ≡ false
      → lookup client c.client_lease_map ≡ some lease
      → P.get p path ≡ some "EXCLUSIVE"
      → let (outcome, (c', p')) =
          acquire_lock P before (request_of client path (mode_text m)) (c, p) in
        outcome
        ≡ replied (record {
          success = false;
          error_message = "EXCLUSIVE_LOCK_HELD";
          current_leader = leader_address P p';
        })
  unfolding carry_out decision
  denied_exclusive before client path shared c p lease calm session now =
      rw (acquire_in_session P before (request_of client path "SHARED") c p lease calm session, now)
  denied_exclusive before client path exclusive c p lease calm session now =
      rw (
        acquire_in_session P before (request_of client path "EXCLUSIVE") c p lease calm session,
        now,
      )
