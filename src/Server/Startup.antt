-- ===== src/Server/Startup.antt =====
-- How a server of src/server/server.cpp starts: `main`, `RunServer`, the stubs of
-- `InitializeServerStubs`; and `TryAcquireLock`, which only forwards. The two threads that call
-- `SendHeartbeats` and `DetectLeaderFailure` for ever are not here.
pub mod Ports
use Prim.Native.String.{◌++◌}
use chubby.Prelude.{
  ℕ, suc, ◌+◌, ◌-◌, ◌*◌, String, Bool, Option, none, some, List, [], ◌∷◌, if◌then◌else◌, leb,
}
use chubby.Prelude.Int.{ℤ, pos}
use chubby.Storage.{RocksDb, RocksDbWrapper, open_wrapper}
use chubby.Paxos.Messages.{Outcome, replied, undefined}
use chubby.Paxos.KeyValue.{split_at}
use chubby.Paxos.Address.{to_string, stoi, read_digits, int_max, get_port_number}
use chubby.Paxos.Network.{stub_addresses}
use chubby.Paxos.Replica.{PaxosImpl, Indeterminate, construct}
use chubby.Paxos.Proposer.{leader_of}
use chubby.Paxos.Proposer.Phases.{member}

-- The address and the group size from the arguments of `main`, after the program's name. A second
-- argument is read where there is one; `none` is undefined behaviour: `atoi` of a null pointer, or of
-- a number past the largest `int`. The text for `atoi` has no leading space or sign.
unfoldable pub arguments : List String → Option (String × ℕ)
unfolding read_digits
arguments [] = some ("127.0.0.1:50051", 3)
arguments (server_address ∷ []) = none
arguments (server_address ∷ group_size ∷ more) =
    let n = read_digits 0 group_size in if leb n int_max then some (server_address, n) else none

-- `host_port`; without a colon, `find` gives `npos`, and `npos + 1` is 0.
unfoldable pub host_port : String → Option ℕ
unfolding split_at stoi
host_port server_address = elim (split_at b':' server_address) [
  | none ↦ stoi server_address
  | some (host, port) ↦ stoi port
]

-- `ChubbyImpl::InitializeServerStubs`, from a first port to a last one.
unfoldable pub server_stubs : ℕ → ℕ → List String
unfolding stub_addresses
server_stubs first_port last_port = stub_addresses (suc last_port - first_port) first_port

pub record Started (Disk : Type 0) : Type 0 where
  pub paxos_service : PaxosImpl Disk
  pub paxos_stubs : List String
  pub chubby_stubs : List String

-- The services that `RunServer` makes, given the two ports that it reads from the address.
unfoldable pub services :
    (R : RocksDb) → Indeterminate → ℕ → String → ℕ → ℕ → Started (RocksDbWrapper R)
unfolding construct stub_addresses server_stubs open_wrapper to_string
services R memory group_size server_address db_port port =
    let disk = open_wrapper R ("db_" ++ to_string (pos db_port)) (20 * 1024 * 1024) in
    let service = construct memory group_size disk server_address port in
    record {
      paxos_service = service;
      paxos_stubs = stub_addresses group_size service.first_port;
      chubby_stubs = server_stubs service.first_port service.last_port;
    }

-- `RunServer`, up to the start of its threads; `none` is an exception.
unfoldable pub run_server :
    (R : RocksDb) → Indeterminate → ℕ → String → Option (Started (RocksDbWrapper R))
unfolding host_port get_port_number services
run_server R memory group_size server_address = elim (host_port server_address) [
  | none ↦ none
  | some db_port ↦ elim (get_port_number server_address) [
    | none ↦ none
    | some port ↦ some (services R memory group_size server_address db_port port)
  ]
]

pub record TryAcquireLockRequest : Type 0 where
  pub path : String

pub record TryAcquireLockResponse : Type 0 where
  pub success : Bool
  pub error_message : String

abbrev pub no_answer : TryAcquireLockResponse
no_answer = record { success = Bool.false; error_message = "" }

abbrev pub filled : Option TryAcquireLockResponse → TryAcquireLockResponse
filled none = no_answer
filled (some r) = r

-- `TryAcquireLock`; the status of the forwarded call is not looked at. A leader without a stub is a null
-- pointer.
unfoldable pub try_acquire_lock :
    {Disk : Type 0}
    → List String
    → (String → TryAcquireLockRequest → Option TryAcquireLockResponse)
    → TryAcquireLockRequest
    → PaxosImpl Disk
    → Outcome TryAcquireLockResponse
unfolding leader_of member
try_acquire_lock stubs peer request s =
    let leader_address = leader_of s in
    if s.leader_dead
    then (if member leader_address stubs
        then replied (filled (peer leader_address request))
        else undefined)
    else replied no_answer
