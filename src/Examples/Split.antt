-- ===== src/Examples/Split.antt =====
-- Replica 2 leads view 2, replica 1 leads view 4, and neither hears of the other.
use chubby.Prelude.{[], ◌∷◌}
use chubby.Prelude.Int.{pos}
use chubby.Prelude.Map.{string_eq, int_eq}
use chubby.Storage.{RocksDbWrapper}
use chubby.Storage.Memory.{memory}
use chubby.Paxos.Replica.{PaxosImpl}
use chubby.Paxos.Network.{Cluster, Delivery, delivered, lost}
use chubby.Paxos.Proposer.{Links, Run, starts, run}
use chubby.Examples.Replicas.{replica}

abbrev old_leader : PaxosImpl (RocksDbWrapper memory)
old_leader = record (replica 2) { slots = [] }

abbrev new_leader : PaxosImpl (RocksDbWrapper memory)
new_leader = record (replica 1) { slots = []; view = pos 4 }

abbrev halves : Cluster (RocksDbWrapper memory)
halves = ("b", new_leader) ∷ ("c", old_leader) ∷ []

abbrev cut_to : Delivery → Delivery → Links
cut_to to_b to_c = record {
  prepares = [];
  accepts = ("a", lost) ∷ ("b", lost) ∷ ("c", lost) ∷ [];
  learns = ("a", lost) ∷ ("b", to_b) ∷ ("c", to_c) ∷ [];
  forward = lost;
}

abbrev first_run : Run (RocksDbWrapper memory)
first_run =
    run memory "" 3 (cut_to lost delivered ∷ cut_to lost delivered ∷ [])
      (starts "c" (pos 9) "k#EXCLUSIVE") [] halves

abbrev second_run : Run (RocksDbWrapper memory)
second_run =
    run memory "" 3 (cut_to delivered lost ∷ cut_to delivered lost ∷ [])
      (starts "b" (pos 9) "k#FREE") [] first_run.1
