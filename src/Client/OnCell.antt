-- ===== src/Client/OnCell.antt =====
-- The whole program: `chubby_lock` of client/client_interface.cpp, `AcquireLock` of
-- src/server/server.cpp, and the replicas of src/paxos/paxos_server.cpp with their databases.
use chubby.Prelude.{ℕ, ◌≤◌, String, ◌≡◌, true}
use chubby.Prelude.Int.{ℤ}
use chubby.Storage.{RocksDb}
use chubby.Storage.Laws.{RocksDbLaws}
use chubby.Paxos.Proposer.{Links}
use chubby.Paxos.Cell.Deciding.{reaches}
use chubby.Server.Service.{Consensus}
use chubby.Server.Cell.{Commits}
use chubby.Server.Cell.Filling.{cell_service}

module _ (R : RocksDb) (view : ℕ) (self : String) (laws : RocksDbLaws R) (commits : Commits R)
    (stubs : ℕ) (many : 2 ≤ stubs) (links : ℤ → String → Links × Links)
    (reached : (seq : ℤ) (v : String) → reaches self (links seq v).1.learns ≡ true) where
  abbrev pub served : Consensus
  served = cell_service R view self laws commits stubs many links reached
