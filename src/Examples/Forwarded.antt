-- ===== src/Examples/Forwarded.antt =====
-- A value for slot 5 that replica 0 forwards to replica 2, the leader of view 2.
use chubby.Prelude.{◌≡◌, refl, [], ◌∷◌, arith}
use chubby.Prelude.Int.{pos, ◌%ℤ◌, ◌+ℤ◌}
use chubby.Prelude.Map.{lookup, string_eq, int_eq}
use chubby.Storage.{RocksDbWrapper}
use chubby.Storage.Memory.{memory}
use chubby.Paxos.Slot.{init_slot}
use chubby.Paxos.Address.{address_of}
use chubby.Paxos.Replica.Slots.{slot_at}
use chubby.Paxos.Network.{Cluster, delivered}
use chubby.Paxos.Proposer.{Links, run, starts, deadlocked, leads, leader_of}
use chubby.Paxos.Proposer.Phases.{hangs, member}
use chubby.Paxos.Proposer.Blocking.{blocks, IsForwarding, forward_deadlocks}
use chubby.Examples.Calm.{member_of, uneven}

abbrev two : Cluster (RocksDbWrapper memory)
two = ("127.0.0.1:50051", member_of 0) ∷ ("127.0.0.1:50053", member_of 2) ∷ []

abbrev asking : Links
asking = record uneven {
  accepts = ("127.0.0.1:50051", delivered) ∷ ("127.0.0.1:50053", delivered) ∷ [];
  forward = delivered;
}

two-IsForwarding :
    IsForwarding (pos 5) "127.0.0.1:50051" "127.0.0.1:50053" two (member_of 0) (member_of 2)
unfolding lookup slot_at init_slot leads leader_of address_of ◌%ℤ◌ ◌+ℤ◌
two-IsForwarding = record {
  here = refl;
  there = refl;
  apart = refl;
  takes = record { kept = omega arith; open_ = refl; alive = refl };
  follows = refl;
  names = refl;
  also_takes = record { kept = omega arith; open_ = refl; alive = refl };
  lead = refl;
  lives = refl;
  new = omega arith;
}

forward_deadlocks_example :
    (run memory "" 3
      (asking ∷ asking ∷ asking ∷ asking ∷ [])
      (starts "127.0.0.1:50051" (pos 5) "b#SHARED")
      []
      two).0
    ≡ deadlocked
unfolding blocks hangs member
forward_deadlocks_example =
    forward_deadlocks memory "" 3 asking asking asking asking [] (pos 5) "b#SHARED"
      "127.0.0.1:50051" "127.0.0.1:50053" two (member_of 0) (member_of 2) two-IsForwarding refl
