-- ===== src/Examples/Calm.antt =====
-- `Start` at a cell of three replicas in view 2, for a slot that none of them knows.
use chubby.Prelude.{ℕ, ◌≡◌, refl, some, [], ◌∷◌, arith}
use chubby.Prelude.Int.{pos, negsuc, ◌%ℤ◌}
use chubby.Prelude.Map.{lookup, string_eq, int_eq}
use chubby.Storage.{RocksDbWrapper}
use chubby.Storage.Memory.{memory}
use chubby.Paxos.Slot.{init_slot}
use chubby.Paxos.Replica.{PaxosImpl}
use chubby.Paxos.Replica.Slots.{slot_at}
use chubby.Paxos.Network.{Cluster, delivered, lost, reply_lost}
use chubby.Paxos.Proposer.{Links, Run, run, starts, finished, leads}
use chubby.Paxos.Cell.Telling.{Told}
use chubby.Paxos.Cell.Deciding.{reaches}
use chubby.Paxos.Cell.Opening.{
  IsOpen, IsOpen-none, IsOpen-more, HasDecided, start_agrees, start_decides,
}
use chubby.Examples.Replicas.{replica}

abbrev pub member_of : ℕ → PaxosImpl (RocksDbWrapper memory)
member_of me = record (replica me) {
  lowest_slot = pos 0;
  done = negsuc 0 ∷ negsuc 0 ∷ negsuc 0 ∷ [];
  highest_accepted_seq = pos 4;
}

abbrev calm_cell : Cluster (RocksDbWrapper memory)
calm_cell = ("a", member_of 0) ∷ ("b", member_of 1) ∷ ("c", member_of 2) ∷ []

calm_cell-IsOpen : IsOpen 2 (pos 4) calm_cell
unfolding slot_at lookup init_slot
calm_cell-IsOpen =
    IsOpen-more 2 (pos 4) "a" (member_of 0) (("b", member_of 1) ∷ ("c", member_of 2) ∷ [])
      (record {
        view_lem = refl;
        lowest_slot = refl;
        done = refl;
        is_dead = refl;
        leader_dead = refl;
      })
      (record { v_a = refl; open_ = refl })
      (IsOpen-more 2 (pos 4) "b" (member_of 1) (("c", member_of 2) ∷ [])
        (record {
          view_lem = refl;
          lowest_slot = refl;
          done = refl;
          is_dead = refl;
          leader_dead = refl;
        })
        (record { v_a = refl; open_ = refl })
        (IsOpen-more 2 (pos 4) "c" (member_of 2) []
          (record {
            view_lem = refl;
            lowest_slot = refl;
            done = refl;
            is_dead = refl;
            leader_dead = refl;
          })
          (record { v_a = refl; open_ = refl }) (IsOpen-none 2 (pos 4))))

-- The replies of "a" are lost, and the accept request for "b".
abbrev pub uneven : Links
uneven = record {
  prepares = ("a", reply_lost) ∷ ("b", delivered) ∷ ("c", delivered) ∷ [];
  accepts = ("a", reply_lost) ∷ ("b", lost) ∷ ("c", delivered) ∷ [];
  learns = ("a", reply_lost) ∷ ("b", delivered) ∷ ("c", lost) ∷ [];
  forward = lost;
}

abbrev started : Run (RocksDbWrapper memory)
started = run memory "" 3 (uneven ∷ uneven ∷ []) (starts "c" (pos 4) "b#SHARED") [] calm_cell

start_agrees_example :
    (started.0 ≡ finished)
    × ((t : PaxosImpl (RocksDbWrapper memory)) × (lookup "c" started.1 ≡ some t)
        × Told memory (pos 4) "b#SHARED" (member_of 2) t)
unfolding leads ◌%ℤ◌ lookup
start_agrees_example =
    start_agrees memory 3 uneven uneven [] 2 (pos 4) "b#SHARED" "c" calm_cell (member_of 2)
      (omega arith) (omega arith) refl refl calm_cell-IsOpen "c" (member_of 2) refl

start_decides_example :
    (started.0 ≡ finished)
    × ((t : PaxosImpl (RocksDbWrapper memory)) × (lookup "b" started.1 ≡ some t)
        × HasDecided memory (pos 4) "b#SHARED" (member_of 1) t)
unfolding leads ◌%ℤ◌ lookup reaches
start_decides_example =
    start_decides memory 3 uneven uneven [] 2 (pos 4) "b#SHARED" "c" calm_cell (member_of 2)
      (omega arith) (omega arith) refl refl calm_cell-IsOpen "b" (member_of 1) refl refl
