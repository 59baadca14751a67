-- ===== src/Server/Startup/Ports.antt =====
-- The ports, turns and stubs of a server that has started.
use native.Mathlib.Nat.{mod-lt}
use chubby.Prelude.{
  ℕ, zero, suc, ◌+◌, ◌-◌, ◌%◌, ◌<◌, String, ◌≡◌, refl, sym, ap, subst, ◌∙◌, true, Bool-cases, inl,
  inr, Option, Option-cases, some, List, ◌∷◌, arith, if◌then◌else◌,
}
use chubby.Prelude.Int.{pos, ◌+ℤ◌, ◌%ℤ◌}
use chubby.Prelude.Map.{string_eq, beq_refl}
use chubby.Paxos.Address.{address_of}
use chubby.Paxos.Network.{stub_addresses}
use chubby.Paxos.Replica.{PaxosImpl}
use chubby.Paxos.Proposer.{leader_of}
use chubby.Paxos.Proposer.Phases.{member}
use chubby.Storage.{RocksDb, RocksDbWrapper}
use chubby.Paxos.Address.{get_port_number}
use chubby.Paxos.Messages.{replied}
use chubby.Paxos.Replica.{Indeterminate, construct, base_port}
use chubby.Server.Startup.{
  server_stubs, Started, services, run_server, host_port, TryAcquireLockRequest,
  TryAcquireLockResponse, try_acquire_lock, filled, no_answer,
}

member-first : (a : String) (rest : List String) → member a (a ∷ rest) ≡ true
unfolding member
member-first a rest = rw (beq_refl a) refl

member-later :
    (a b : String) (rest : List String) → member a rest ≡ true → member a (b ∷ rest) ≡ true
unfolding member
member-later a b rest h = ground (arith, h)

-- Every port of the range has a stub.
stub_addresses-member :
    (count first k : ℕ)
    → k < count
    → member (address_of (pos (first + k))) (stub_addresses count first) ≡ true
unfolding stub_addresses
stub_addresses-member zero first k h = absurd (omega (arith, h))
stub_addresses-member (suc count) first zero h =
    let same : first ≡ first + 0 = omega arith in
    subst
      (λ n.
        member (address_of (pos n)) (address_of (pos first) ∷ stub_addresses count (suc first))
        ≡ true)
      same (member-first (address_of (pos first)) (stub_addresses count (suc first)))
stub_addresses-member (suc count) first (suc k) h =
    let same : suc first + k ≡ first + suc k = omega arith in
    subst
      (λ n.
        member (address_of (pos n)) (address_of (pos first) ∷ stub_addresses count (suc first))
        ≡ true)
      same
      (member-later _ (address_of (pos first)) (stub_addresses count (suc first))
        (stub_addresses-member count (suc first) k (omega (arith, h))))

module _ {Disk : Type 0} (s : PaxosImpl Disk) (view : ℕ) (some_server : 0 < s.num_servers)
    (in_view : s.view ≡ pos view) where
  turn_lem : s.view %ℤ s.num_servers ≡ pos (view % s.num_servers)
  unfolding ◌%ℤ◌
  turn_lem = rw in_view refl

  leader_port :
      pos s.first_port +ℤ (s.view %ℤ s.num_servers) ≡ pos (s.first_port + view % s.num_servers)
  unfolding ◌+ℤ◌
  leader_port = rw turn_lem (ground arith)

  -- The leader of a view that is not negative has a stub.
  leader_stub : member (leader_of s) (stub_addresses s.num_servers s.first_port) ≡ true
  unfolding leader_of
  leader_stub = rw leader_port (
      stub_addresses-member s.num_servers s.first_port (view % s.num_servers)
        (mod-lt view some_server))

module _ (R : RocksDb) (memory : Indeterminate) (group_size : ℕ) (server_address : String)
    (started : Started (RocksDbWrapper R)) (some_server : 0 < group_size) where
  record HasPorts : Type 0 where
    pub first_port : started.paxos_service.first_port ≡ base_port
    pub num_servers : started.paxos_service.num_servers ≡ group_size
    pub paxos_stubs : started.paxos_stubs ≡ stub_addresses group_size base_port
    pub chubby_stubs : started.chubby_stubs ≡ stub_addresses group_size base_port

  services-HasPorts :
      (db_port port : ℕ)
      → services R memory group_size server_address db_port port ≡ started
      → HasPorts
  unfolding services construct server_stubs
  services-HasPorts db_port port same =
      let all_ports : suc (base_port + group_size - 1) - base_port ≡ group_size =
        omega (arith, some_server) in
      record {
        first_port = ap (λ (x : Started (RocksDbWrapper R)). x.paxos_service.first_port) (sym same);
        num_servers =
            ap (λ (x : Started (RocksDbWrapper R)). x.paxos_service.num_servers) (sym same);
        paxos_stubs = ap (λ (x : Started (RocksDbWrapper R)). x.paxos_stubs) (sym same);
        chubby_stubs =
            ap (λ (x : Started (RocksDbWrapper R)). x.chubby_stubs) (sym same)
            ∙ ap (λ n. stub_addresses n base_port) all_ports;
      }

  run_server-HasPorts : run_server R memory group_size server_address ≡ some started → HasPorts
  unfolding run_server
  run_server-HasPorts runs = elim (Option-cases (host_port server_address)) [
    | inl no_port ↦ absurd (ground (arith, runs, no_port))
    | inr (db_port, at_host) ↦ elim (Option-cases (get_port_number server_address)) [
      | inl no_port ↦ absurd (ground (arith, runs, at_host, no_port))
      | inr (port, at_port) ↦
          services-HasPorts db_port port (ground (arith, runs, at_host, at_port))
    ]
  ]

  module _ (runs : run_server R memory group_size server_address ≡ some started)
      (s : PaxosImpl (RocksDbWrapper R)) (view : ℕ)
      (same_port : s.first_port ≡ started.paxos_service.first_port)
      (same_servers : s.num_servers ≡ started.paxos_service.num_servers)
      (in_view : s.view ≡ pos view) where
    -- When `RunServer` has made the services of a server for at least one member, then in every view
    -- that is not negative the address of the leader has a stub of the Paxos service and one of the
    -- lock service, and `TryAcquireLock` replies: what the leader answered, or an empty response where
    -- the leader has not answered or counts as alive.
    pub run_server_lem :
        (peer : String → TryAcquireLockRequest → Option TryAcquireLockResponse)
        (request : TryAcquireLockRequest)
        → (member (leader_of s) started.paxos_stubs ≡ true)
          × (member (leader_of s) started.chubby_stubs ≡ true)
          × (try_acquire_lock started.chubby_stubs peer request s
              ≡ replied (if s.leader_dead then filled (peer (leader_of s) request) else no_answer))
    unfolding try_acquire_lock
    run_server_lem peer request =
        let ports = run_server-HasPorts runs in
        let servers : s.num_servers ≡ group_size = same_servers ∙ ports.num_servers in
        let found = leader_stub s view (rw servers some_server) in_view in
        let stubs : member (leader_of s) (stub_addresses group_size base_port) ≡ true =
          subst (λ n. member (leader_of s) (stub_addresses n base_port) ≡ true) servers
            (subst (λ port. member (leader_of s) (stub_addresses s.num_servers port) ≡ true)
              (same_port ∙ ports.first_port) found) in
        let there : member (leader_of s) started.chubby_stubs ≡ true =
          rw ports.chubby_stubs stubs in
        (
          rw ports.paxos_stubs stubs,
          there,
          elim (Bool-cases s.leader_dead) [
            | inl dead ↦ ground (arith, dead, there)
            | inr alive ↦ ground (arith, alive)
          ],
        )
