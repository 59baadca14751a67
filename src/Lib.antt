-- ===== src/Lib.antt =====
-- A verification library for Chubby, a lock service whose lock table is a key-value database that
-- is replicated by a Paxos log (C++, in src/, with a client library in client/).
--
-- The program. Each server process has one `PaxosImpl` and one `ChubbyImpl`. Clients call
-- `ChubbyImpl` to open sessions (KeepAlive), to acquire and to release locks on paths. `ChubbyImpl`
-- reads the mode of a path from `paxos_db` of its `PaxosImpl`, and changes it by `Put`, which calls
-- `PaxosImpl::Start` with a slot number and the text `path#mode`. `Start` runs Paxos among the
-- servers of the cell: prepare, accept and learn requests to all stubs, the one to itself included.
-- `Learn` marks the slot as decided and writes the pair into `paxos_db`, a RocksDB database behind
-- `RocksDBWrapper`. The replica whose turn it is in the current view leads; it sends heartbeats that
-- carry its decided slots, and a replica that misses them stands for election.
--
-- The files.
--   Prelude          Boolean tests, integers, association lists, their entries and their growth, and
--                    names from the libraries.
--   Storage          src/common/rocksdb_wrapper.cc: `open_wrapper`, `get`, `get_all_keys`, `put`.
--   Paxos/Slot       `PaxosSlot` and `ToProtobuf` of src/include/paxos_server.h, `initSlot`, `fillSlot`.
--   Paxos/Messages   the messages of interface/Paxos.proto, and how a handler can end.
--   Paxos/KeyValue   `getKeyValue`, and the text that `Put` builds.
--   Paxos/Address    addresses and `getPortNumber`.
--   Paxos/Replica    the members of `PaxosImpl`, its constructor, `addSlots`, `Forget`.
--   Paxos/Acceptor   `Elect`, `Prepare`, `Accept`, `Learn`.
--   Paxos/Network    the replicas of a cell by address, and calls between them.
--   Paxos/Heartbeat  `Heartbeat`, `SendHeartbeats`.
--   Paxos/Leader     `DetectLeaderFailure`, `Election`.
--   Paxos/Proposer   `Start`, `StartOnForward`, `ForwardLeader`, `StartOnNewSlot`.
--   Paxos/Interleaving  all threads of a cell, a critical section at a time: `Step` on the replicas, the
--                    messages that were sent and the threads of `StartOnNewSlot`.
--   Paxos/Cell       what the replicas of a cell keep while slots are decided.
--   Server           src/server/server.cpp: `Put`, `AcquireLock`, `ReleaseLock`.
--   Server/Service   what `ChubbyImpl` uses of the Paxos service, as a record, and the law of a
--                    service that decides and applies what it is given.
--   Server/Cell      that record filled by the leader of a cell.
--   Server/KeyLock   `KeyLock`.
--   Server/Startup   `main`, `RunServer`, `InitializeServerStubs`, `TryAcquireLock`.
--   Server/Leases    `KeepAlive`, `CheckAndExpireLeases`, `ReleaseLocksForClient`, and histories of them.
--   Client           client/client_interface.cpp: `chubby_lock`, `chubby_unlock`, `chubby_open`,
--                    `send_keep_alive`. Client/Excluding and Client/OnCell put the server behind the calls.
--   Client/Setup     `chubby_init`, `chubby_shutdown`.
--   Client/Performance  client/performance.cpp: `send_requests`, `run_performance_test`.
--   ThreadPool       src/common/thread_pool.cc.
--   Examples         concrete replicas, cells and services.
-- All the Paxos code stands in src/paxos/paxos_server.cpp. The children of a module prove what it does.
--
-- State and operations. `PaxosImpl` and `ChubbyImpl` are records with the members of the classes. A
-- handler is a function from its request and the state to an `Outcome` and the new state; an
-- `Outcome` is a reply, a status that is not ok, an exception, or undefined behaviour (a read past
-- the end of `done`). A critical section is a function of its own, and a handler is its sections in
-- order. A call between replicas is `call`, which takes from the environment whether the request and
-- the reply arrive; what runs over a cell takes a list of these choices, one for each stub. The
-- threads of the accept and learn phases are joined before the code goes on and reach different
-- replicas; they are run one after the other. A run of the proposer carries the addresses whose `mu`
-- is held by its callers, since a call that needs such a lock never returns.
--
-- Numbers. `int` is the integers, since its overflow is undefined; `slot_number` is atomic and wraps
-- at 2^31 - 1. Times are in milliseconds on the server and in seconds on the client; they stay far
-- below 2^64. The client compares epochs as `uint32` and keeps them as `int`, both at 32 bits; a view in
-- a message between replicas is an `int` on both sides, so its passage through `int64` is left out.
--
-- Fuel. `raise_number` has one more step than the distance from the slot's number to the highest one
-- seen, and each step adds at least one. `run` has one list of choices for each nested call; without
-- one the run is `unfinished`. The loops of `send_keep_alive` have one attempt for each turn; with as
-- many attempts as seconds are left, and no new epoch, the grace period ends. Every other loop is over a list.
--
-- Addresses. A replica stands in a cell at its own `server_address`, which is the key of its stub at
-- every member; where the code compares a stub's key with `server_address`, the model compares with that
-- address. A stub whose server does not run is an address without a replica, and a call to it fails. A
-- forwarded call takes the leader to have a stub; `chubby_lock` and `chubby_unlock` have the
-- null pointer among their cases, and an attempt of `send_keep_alive` is a call whose stub is there.
--
-- Parameters. RocksDB is the record `RocksDb`, with its documented behaviour as `RocksDbLaws` and an
-- in-memory instance. What protobuf stores for a null pointer is `null_text`. The values that the
-- constructor leaves indeterminate are `Indeterminate`. Handlers of `ChubbyImpl` take the response as
-- they find it, which is what the leader has answered if the request was forwarded first.
--
-- Threads. `KeyLock`, the thread pool and the load test are step relations on the shared state and the
-- place where each thread stands; any number of threads, and any order of their accesses. So is the
-- Paxos code in Paxos/Interleaving: each section under `mu` or under the mutex of a slot is one step,
-- and so is the loop that raises `slot->n`, which takes no lock; a message stays among the sent ones, so
-- it may come late, twice or never. The threads of
-- `RunServer` that send heartbeats and watch the leader are steps there. `slot->mu`, which a proposer
-- holds until it returns, does not order two proposers of one replica there: the model has their runs
-- too, and what holds of it holds of the code. A database there changes in a step of its own, after the slot
-- is decided.
--
-- Not modelled: the lock handlers between their own accesses (a handler is one step between `lock` and
-- `unlock` of its path), `Ping`, the wait of `KeepAlive`, the creation of gRPC channels and of the
-- gRPC server, `Write`, `GetSnapshot` and `ReleaseSnapshot` of the
-- storage wrapper (they pass calls on and have no caller), the finder of the client library (it returns
-- a constant), the floating-point report of the load test, the other programs under client/, the
-- tests, and the output to the console. Sleeps are left out.
pub mod Prelude
pub mod Storage
pub mod Paxos
pub mod Server
pub mod Client
pub mod ThreadPool
pub mod Examples
