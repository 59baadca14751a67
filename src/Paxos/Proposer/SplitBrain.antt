-- ===== src/Paxos/Proposer/SplitBrain.antt =====
-- Two leaders at once, in src/paxos/paxos_server.cpp: what `StartOnNewSlot` decides on a replica that
-- reaches nobody but itself.
use chubby.Prelude.{ℕ, String, ◌≡◌, true, false, some, List, []}
use chubby.Prelude.Int.{ℤ, ◌≤ℤ◌, ◌<ℤ◌}
use chubby.Prelude.Map.{lookup, insert, string_eq, int_eq}
use chubby.Storage.{RocksDb, RocksDbWrapper}
use chubby.Paxos.Slot.{is_decided}
use chubby.Paxos.Replica.{PaxosImpl, get_elem?, add_slots}
use chubby.Paxos.Replica.Slots.{slot_at}
use chubby.Paxos.Acceptor.{learn}
use chubby.Paxos.Network.{Cluster}
use chubby.Paxos.Proposer.{Links, leads}
use chubby.Paxos.Proposer.Lost.{AllLost, ReachesOnly, request_of}

-- A replica that leads the view that it is in, and has not heard of a failure, with the slot open in it
-- and above every slot that it has voted in.
pub record IsLeader {Disk : Type 0} (seq : ℤ) (s : PaxosImpl Disk) : Type 0 where
  pub d : ℤ
  pub known : get_elem? s.done s.me ≡ some d
  pub kept : s.lowest_slot ≤ℤ seq
  pub open_lem : is_decided (slot_at s seq).status ≡ false
  pub is_dead : s.is_dead ≡ false
  pub leader_dead : s.leader_dead ≡ false
  pub lead : leads s ≡ true
  pub new : s.highest_accepted_seq <ℤ seq

-- Every accept request is lost, and of the learn requests only the one to the sender arrives.
pub record IsCut (self : String) (links : Links) : Type 0 where
  pub accepts : AllLost links.accepts
  pub learns : ReachesOnly self links.learns

module _ (R : RocksDb) (null_text : String) (stubs : ℕ) (first second : Links) (more : List Links)
    (self : String) (seq : ℤ) (v : String) (cluster : Cluster (RocksDbWrapper R))
    (s : PaxosImpl (RocksDbWrapper R)) (here : lookup self cluster ≡ some s) (ok : IsLeader seq s)
    (cut : IsCut self second) where
  abbrev entered : PaxosImpl (RocksDbWrapper R)
  entered = (add_slots seq s).1

  -- The replica afterwards.
  alone : PaxosImpl (RocksDbWrapper R)
  alone = (learn R (request_of R self [] seq v (insert self entered cluster)) entered).1
