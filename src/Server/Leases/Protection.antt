-- ===== src/Server/Leases/Protection.antt =====
-- A session that is kept alive, in src/server/server.cpp: `KeepAlive` against the passes of
-- `CheckAndExpireLeases`, in any order that comes in time.
use chubby.Prelude.{
  ℕ, ◌+◌, ◌*◌, ◌<◌, ◌≤◌, String, ◌≡◌, ◌≢◌, refl, ◌∙◌, Bool, true, false, Option, some, none, arith,
  if◌then◌else◌, List, [], ◌∷◌,
}
use chubby.Prelude.Int.{ℤ}
use chubby.Prelude.Map.{lookup, insert, lookup-insert, ◌==◌, string_eq, int_eq, beq_refl}
use chubby.Paxos.Messages.{replied}
use chubby.Server.Service.{Consensus, Applies}
use chubby.Server.{ChubbyImpl, World}
use chubby.Server.Leases.{
  expired, erase_all, expire_leases, keep_alive, KeepAliveResponse, lease_timeout,
}
use chubby.Server.Leases.Expiry.{NoRepeat, PlainLocks, listed, listed-expired, lookup-erase_all}
use chubby.Server.Leases.Sparing.{
  SoleOwner, Spares, release_locks_for_all-Spares, NoRepeat-erase_all, NoRepeat-insert,
  Lacks-of_listed,
}

-- What the threads of a server do to its leases: a pass at a time, or `KeepAlive` after its wait.
pub data Event : Type 0 where
  passes : ℕ → Event
  renews : Option Bool → ℕ → String → ℤ → Event

module _ (P : Consensus) where
  unfoldable pub play : List Event → World P → World P
  unfolding expire_leases keep_alive
  play [] w = w
  play (passes now ∷ events) w = play events (expire_leases P now w)
  play (renews forwarded woken client view ∷ events) (c, p) =
      play events ((keep_alive forwarded woken client view c).1, p)

-- The lease end of a client after a `KeepAlive`.
abbrev pub next_end : Option Bool → ℕ → Bool → ℕ → ℕ
next_end (some false) woken mine end_ = end_
next_end none woken mine end_ = if mine then woken + lease_timeout else end_
next_end (some true) woken mine end_ = if mine then woken + lease_timeout else end_

-- Every pass comes before the lease of the client has ended, as it is renewed on the way.
abbrev pub InTime : String → ℕ → List Event → Type 0
InTime client end_ [] = Unit {0}
InTime client end_ (passes now ∷ events) = (now < end_) × InTime client end_ events
InTime client end_ (renews forwarded woken other view ∷ events) =
    InTime client (next_end forwarded woken (other == client) end_) events

module _ (P : Consensus) (applies : Applies P) (path client : String) where
  -- The session of the client is there, and the path is held as it was.
  pub record Protected (p : P.State) (w : World P) : Type 0 where
    pub lease : ℕ
    pub session : lookup client w.0.client_lease_map ≡ some lease
    pub held : P.get w.1 path ≡ P.get p path

  -- What an event has to leave for the next.
  record Ready (c : ChubbyImpl) (end_ : ℕ) : Type 0 where
    distinct : NoRepeat c.client_lease_map
    plain : PlainLocks c.client_lock_map
    sole : SoleOwner path client c.client_lock_map
    lease : lookup client c.client_lease_map ≡ some end_

  unlisted :
      (now end_ : ℕ) (c : ChubbyImpl)
      → Ready c end_
      → now < end_
      → listed client (expired now c.client_lease_map) ≡ false
  unlisted now end_ c ready before =
      listed-expired now client c.client_lease_map ready.distinct ∙ rw ready.lease (ground arith)

  module _ (now end_ : ℕ) (c : ChubbyImpl) (p : P.State) (ready : Ready c end_)
      (before : now < end_) where
    after_pass : ChubbyImpl
    after_pass = record c {
      client_lease_map = erase_all (expired now c.client_lease_map) c.client_lease_map;
    }

    spared : Spares P applies path after_pass p (expire_leases P now (c, p))
    unfolding expire_leases after_pass Spares
    spared =
        release_locks_for_all-Spares P applies path (expired now c.client_lease_map) client
          after_pass p (after_pass, p)
          (Lacks-of_listed client (expired now c.client_lease_map)
            (unlisted now end_ c ready before))
          ready.sole ready.plain (refl, refl)

    still_ready : Ready after_pass end_
    unfolding after_pass
    still_ready = record {
      distinct =
          NoRepeat-erase_all (expired now c.client_lease_map) c.client_lease_map ready.distinct;
      plain = ready.plain;
      sole = ready.sole;
      lease =
          lookup-erase_all (expired now c.client_lease_map) client c.client_lease_map
          ∙ rw (unlisted now end_ c ready before) ready.lease;
    }

    passed :
        Ready (expire_leases P now (c, p)).0 end_
        × (P.get (expire_leases P now (c, p)).1 path ≡ P.get p path)
    unfolding Spares
    passed = (rw spared.0 still_ready, spared.1)

  renewed :
      (woken end_ : ℕ) (other : String) (c : ChubbyImpl)
      → Ready c end_
      → Ready
          (record c { client_lease_map = insert other (woken + lease_timeout) c.client_lease_map })
          (if other == client then woken + lease_timeout else end_)
  renewed woken end_ other c ready = record {
    distinct = NoRepeat-insert other (woken + lease_timeout) c.client_lease_map ready.distinct;
    plain = ready.plain;
    sole = ready.sole;
    lease =
        lookup-insert other client (woken + lease_timeout) c.client_lease_map
        ∙ ground (arith, ready.lease);
  }

  renewed_ready :
      (forwarded : Option Bool) (woken end_ : ℕ) (other : String) (view : ℤ) (c : ChubbyImpl)
      → Ready c end_
      → Ready
          (keep_alive forwarded woken other view c).1
          (next_end forwarded woken (other == client) end_)
  unfolding keep_alive
  renewed_ready (some false) woken end_ other view c ready = ready
  renewed_ready none woken end_ other view c ready = renewed woken end_ other c ready
  renewed_ready (some true) woken end_ other view c ready = renewed woken end_ other c ready

  play-Protected :
      (events : List Event) (end_ : ℕ) (c : ChubbyImpl) (p : P.State)
      → Ready c end_
      → InTime client end_ events
      → Protected p (play P events (c, p))
  unfolding play
  play-Protected [] end_ c p ready in_time = record {
    lease = end_;
    session = ready.lease;
    held = refl;
  }
  play-Protected (passes now ∷ events) end_ c p ready in_time =
      let (c', p') = expire_leases P now (c, p) in
      let (same, kept) = passed now end_ c p ready in_time.0 in
      let rest = play-Protected events end_ c' p' same in_time.1 in
      record { lease = rest.lease; session = rest.session; held = rest.held ∙ kept }
  play-Protected (renews forwarded woken other view ∷ events) end_ c p ready in_time =
      play-Protected events _ (keep_alive forwarded woken other view c).1 p
        (renewed_ready forwarded woken end_ other view c ready) in_time

  begun :
      (woken : ℕ) (events : List Event) (c : ChubbyImpl) (p : P.State)
      → NoRepeat c.client_lease_map
      → PlainLocks c.client_lock_map
      → SoleOwner path client c.client_lock_map
      → InTime client (woken + lease_timeout) events
      → let c' = record c {
        client_lease_map = insert client (woken + lease_timeout) c.client_lease_map;
      } in
        Protected p (play P events (c', p))
  begun woken events c p distinct plain sole in_time =
      play-Protected events (woken + lease_timeout) _ p
        (record {
          distinct = NoRepeat-insert client (woken + lease_timeout) c.client_lease_map distinct;
          plain = plain;
          sole = sole;
          lease =
              lookup-insert client client (woken + lease_timeout) c.client_lease_map
              ∙ rw (beq_refl client);
        })
        in_time

  -- On a service that leaves decided slots alone, when no client has two leases, the paths that are held
  -- have no `#`, and no other client is noted to hold the path: a `KeepAlive` that does not fail is
  -- answered with success and with a lease that, in whole seconds, is no longer than the server's; and
  -- after any passes and any further `KeepAlive` calls of any clients, if each pass comes before the
  -- lease, as it has been renewed by then, has ended, the session is there and the path has the mode
  -- that it had.
  pub keep_alive_protects :
      (forwarded : Option Bool) (woken : ℕ) (view : ℤ) (events : List Event) (c : ChubbyImpl)
      (p : P.State)
      → forwarded ≢ some false
      → NoRepeat c.client_lease_map
      → PlainLocks c.client_lock_map
      → SoleOwner path client c.client_lock_map
      → InTime client (woken + lease_timeout) events
      → ((r : KeepAliveResponse) × ((keep_alive forwarded woken client view c).0 ≡ replied r)
          × (r.success ≡ true)
          × (r.lease_timeout * 1000 ≤ woken + lease_timeout))
        × Protected p (play P events ((keep_alive forwarded woken client view c).1, p))
  unfolding keep_alive
  keep_alive_protects (some false) woken view events c p works distinct plain sole in_time =
      absurd (works refl)
  keep_alive_protects none woken view events c p works distinct plain sole in_time =
      ((_, refl, refl, omega arith), begun woken events c p distinct plain sole in_time)
  keep_alive_protects (some true) woken view events c p works distinct plain sole in_time =
      ((_, refl, refl, omega arith), begun woken events c p distinct plain sole in_time)
