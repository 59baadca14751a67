-- ===== src/Server/Exclusion.antt =====
-- That an exclusive lock excludes, whatever requests come in between.
use text.Mathlib.TextEquality.{eq_iff}
use chubby.Prelude.{
  ℕ, String, ◌≡◌, ◌≢◌, refl, ap, ◌∙◌, ◌⊎◌, inl, inr, true, false, Option, some, arith, Bool-cases,
  List, [], ◌∷◌,
}
use chubby.Prelude.Int.{ℤ}
use chubby.Prelude.Map.{lookup, ◌==◌, string_eq}
use chubby.Paxos.Messages.{replied}
use chubby.Paxos.KeyValue.{key_value_of}
use chubby.Paxos.KeyValue.RoundTrip.{lacks}
use chubby.Server.Service.{Consensus, Applies}
use chubby.Server.{
  ChubbyImpl, AcquireLockRequest, LockResponse, World, decision, take, decision_at, leader_address,
  acquire_lock, next_slot,
}
use chubby.Server.Granting.{Mode, mode_text, request_of, denied_exclusive}

abbrev pub no_response : LockResponse
no_response = record { success = false; error_message = ""; current_leader = "" }

abbrev pub AllPlain : List AcquireLockRequest → Type 0
AllPlain [] = Unit {0}
AllPlain (request ∷ rest) = (lacks b'#' request.path ≡ true) × AllPlain rest

module _ (P : Consensus) where
  -- A history of acquire requests, from any clients.
  pub acquire_all : List AcquireLockRequest → World P → World P
  acquire_all [] w = w
  acquire_all (request ∷ rest) w = acquire_all rest (acquire_lock P no_response request w).1

  -- What no acquire request changes, on a service that applies what it is given.
  pub record Unshaken (path : String) (w w' : World P) : Type 0 where
    pub hold : P.get w'.1 path ≡ some "EXCLUSIVE"
    pub sessions : w'.0.client_lease_map ≡ w.0.client_lease_map
    pub term : P.leader_election_happened w'.1 ≡ P.leader_election_happened w.1

-- No request takes an exclusive lock, whatever mode it asks for.
not_taken :
    (mode : String) {found : Option String}
    → found ≡ some "EXCLUSIVE"
    → decision_at mode found ≢ take
unfolding decision
not_taken mode e = rw e (λ h. ground arith)

module _ (P : Consensus) where
  -- An acquire request leaves the Paxos service alone, or starts one write for its path.
  acquire_effect :
      (before : LockResponse) (request : AcquireLockRequest) (c : ChubbyImpl) (p : P.State)
      → let w' = (acquire_lock P before request (c, p)).1 in
        (w'.0.client_lease_map ≡ c.client_lease_map)
        × ((w'.1 ≡ p)
            ⊎ ((w'.1
                  ≡ P.start
                      (next_slot c.slot_number)
                      (key_value_of request.path request.locking_mode)
                      p)
                × (decision_at request.locking_mode (P.get p request.path) ≡ take)))
  unfolding acquire_lock
  acquire_effect before request c p = ground arith

module _ (P : Consensus) (applies : Applies P) (path : String) where
  -- A write for another path leaves the hold on this one, whether its slot is open or not.
  elsewhere :
      (slot : ℤ) (other mode : String) (p : P.State)
      → lacks b'#' other ≡ true
      → (other == path) ≡ false
      → P.get (P.start slot (key_value_of other mode) p) path ≡ P.get p path
  elsewhere slot other mode p plain miss = elim (Bool-cases (P.knows p slot)) [
    | inl known ↦ applies.settled slot _ path p known
    | inr fresh ↦ applies.applied slot other mode path p fresh plain ∙ rw miss
  ]

  acquire-Unshaken :
      (request : AcquireLockRequest) (w : World P)
      → lacks b'#' request.path ≡ true
      → P.get w.1 path ≡ some "EXCLUSIVE"
      → Unshaken P path w (acquire_lock P no_response request w).1
  acquire-Unshaken request (c, p) plain locked =
      let (sessions, change) = acquire_effect P no_response request c p in
      elim change [
        | inl same ↦ record { hold = rw same locked; sessions = sessions; term = rw same }
        | inr (started, took) ↦ record {
          hold = rw started (elim (Bool-cases (request.path == path)) [
            | inl hit ↦ absurd (
                not_taken request.locking_mode
                  (ap (P.get p) ((eq_iff request.path path).0 hit) ∙ locked) took)
            | inr miss ↦ elsewhere _ request.path request.locking_mode p plain miss ∙ locked
          ]);
          sessions = sessions;
          term = rw started (applies.same_term _ _ p);
        }
      ]

  pub acquires-Unshaken :
      (requests : List AcquireLockRequest) (w : World P)
      → AllPlain requests
      → P.get w.1 path ≡ some "EXCLUSIVE"
      → Unshaken P path w (acquire_all P requests w)
  unfolding acquire_all
  acquires-Unshaken [] w plain locked = record { hold = locked; sessions = refl; term = refl }
  acquires-Unshaken (request ∷ rest) w plain locked =
      let one = acquire-Unshaken request w plain.0 locked in
      let more = acquires-Unshaken rest (acquire_lock P no_response request w).1 plain.1 one.hold in
      record {
        hold = more.hold;
        sessions = more.sessions ∙ one.sessions;
        term = more.term ∙ one.term;
      }

  -- Mutual exclusion. While the database has the path under an exclusive lock, any history of
  -- acquire requests, from any clients, for any modes and for any paths without `#`, leaves it so;
  -- and after it every client with a session that asks for the path is refused.
  pub exclusive_excludes :
      (requests : List AcquireLockRequest) (w : World P) (client : String) (m : Mode) (lease : ℕ)
      → AllPlain requests
      → P.get w.1 path ≡ some "EXCLUSIVE"
      → P.leader_election_happened w.1 ≡ false
      → lookup client w.0.client_lease_map ≡ some lease
      → let w' = acquire_all P requests w in
        let (outcome, w'') = acquire_lock P no_response (request_of client path (mode_text m)) w' in
        (P.get w'.1 path ≡ some "EXCLUSIVE")
        × (outcome
            ≡ replied (record {
              success = false;
              error_message = "EXCLUSIVE_LOCK_HELD";
              current_leader = leader_address P w''.1;
            }))
  exclusive_excludes requests w client m lease all_plain locked calm session =
      let kept = acquires-Unshaken requests w all_plain locked in
      (
        kept.hold,
        denied_exclusive P no_response client path m _ _ lease (kept.term ∙ calm)
            (ap (lookup client) kept.sessions ∙ session) kept.hold,
      )
