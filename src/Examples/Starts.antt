-- ===== src/Examples/Starts.antt =====
-- A server that starts at the second address of three, and a request that it forwards in view 5.
use chubby.Prelude.{◌≡◌, refl, true, some, none, [], ◌∷◌, arith}
use chubby.Prelude.Int.{pos}
use chubby.Storage.{RocksDbWrapper}
use chubby.Storage.Memory.{memory}
use chubby.Paxos.Messages.{replied}
use chubby.Paxos.Replica.{PaxosImpl, construct}
use chubby.Paxos.Proposer.{leader_of}
use chubby.Paxos.Proposer.Phases.{member}
use chubby.Server.Startup.{
  arguments, services, Started, run_server, TryAcquireLockResponse, try_acquire_lock,
}
use chubby.Server.Startup.Ports.{run_server_lem}
use chubby.Examples.Replicas.{zeros}

-- One argument only, and two.
one_argument : arguments ("127.0.0.1:50052" ∷ []) ≡ none
unfolding arguments
one_argument = refl

two_arguments : arguments ("127.0.0.1:50052" ∷ "3" ∷ []) ≡ some ("127.0.0.1:50052", 3)
unfolding arguments
two_arguments = refl

abbrev second : Started (RocksDbWrapper memory)
second = services memory zeros 3 "127.0.0.1:50052" 50052 50052

abbrev lonely : PaxosImpl (RocksDbWrapper memory)
lonely = record second.paxos_service { view = pos 5; leader_dead = true }

abbrev answer : TryAcquireLockResponse
answer = record { success = true; error_message = "NO_ERROR" }

starts : run_server memory zeros 3 "127.0.0.1:50052" ≡ some second
unfolding run_server
starts = refl

run_server_lem_example :
    (member (leader_of lonely) second.paxos_stubs ≡ true)
    × (member (leader_of lonely) second.chubby_stubs ≡ true)
    × (try_acquire_lock second.chubby_stubs (λ a r. some answer) (record { path = "p" }) lonely
        ≡ replied answer)
unfolding services construct
run_server_lem_example =
    run_server_lem memory zeros 3 "127.0.0.1:50052" second (omega arith) starts lonely 5 refl refl
      refl (λ a r. some answer) (record { path = "p" })
