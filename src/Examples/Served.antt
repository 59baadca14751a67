-- ===== src/Examples/Served.antt =====
-- The lock service on the cell: three replicas with empty logs, and "q" held exclusively.
use chubby.Prelude.{ℕ, String, ◌≡◌, refl, ◌⊎◌, inl, inr, true, some, List, [], ◌∷◌, arith}
use chubby.Prelude.Int.{ℤ, pos, ◌%ℤ◌}
use chubby.Prelude.Map.{lookup, insert, string_eq, int_eq}
use chubby.Storage.{RocksDbWrapper}
use chubby.Storage.Memory.{memory, memory_laws}
use chubby.Paxos.Slot.{init_slot}
use chubby.Paxos.Replica.{PaxosImpl}
use chubby.Paxos.Replica.Slots.{slot_at}
use chubby.Paxos.Network.{Cluster, delivered, lost, reply_lost}
use chubby.Paxos.Proposer.{Links, leads, run, starts}
use chubby.Paxos.Cell.Keeping.{IsCalm, IsBlank}
use chubby.Paxos.Cell.Deciding.{reaches}
use chubby.Paxos.Cell.Opening.{IsOpen, IsOpen-none, IsOpen-more}
use chubby.Paxos.Cell.Ready.{IsReady}
use chubby.Server.{ChubbyImpl, World, acquire_lock, leader_address, AcquireLockRequest}
use chubby.Server.Service.{Consensus, Applies}
use chubby.Server.Granting.{request_of}
use chubby.Server.Exclusion.{no_response}
use chubby.Server.Cell.{Commits, CellState}
use chubby.Server.Cell.Filling.{cell_service, cell_service_lem}
use chubby.Client.{ClientLib}
use chubby.Client.Excluding.{lock_at}
use chubby.Examples.Calm.{member_of}

abbrev new_member : ℕ → PaxosImpl (RocksDbWrapper memory)
new_member me = record (member_of me) { slots = []; paxos_db = some (("q", "EXCLUSIVE") ∷ []) }

abbrev new_cell : Cluster (RocksDbWrapper memory)
new_cell = ("a", new_member 0) ∷ ("b", new_member 1) ∷ ("c", new_member 2) ∷ []

new_member-IsCalm : (me : ℕ) → me ≡ 0 ⊎ (me ≡ 1 ⊎ me ≡ 2) → IsCalm 2 (new_member me)
new_member-IsCalm me which = record {
  view_lem = refl;
  lowest_slot = refl;
  done = ground (arith, which);
  is_dead = refl;
  leader_dead = refl;
}

new_member-IsBlank : (me : ℕ) (seq : ℤ) → IsBlank (slot_at (new_member me) seq)
unfolding slot_at init_slot lookup
new_member-IsBlank me seq = record { v_a = refl; open_ = refl }

new_cell-IsOpen : (seq : ℤ) → IsOpen 2 seq new_cell
new_cell-IsOpen seq =
    IsOpen-more 2 seq "a" (new_member 0) (("b", new_member 1) ∷ ("c", new_member 2) ∷ [])
      (new_member-IsCalm 0 (inl refl)) (new_member-IsBlank 0 seq)
      (IsOpen-more 2 seq "b" (new_member 1) (("c", new_member 2) ∷ [])
        (new_member-IsCalm 1 (inr (inl refl))) (new_member-IsBlank 1 seq)
        (IsOpen-more 2 seq "c" (new_member 2) [] (new_member-IsCalm 2 (inr (inr refl)))
          (new_member-IsBlank 2 seq) (IsOpen-none 2 seq)))

found : lookup "c" new_cell ≡ some (new_member 2)
unfolding lookup
found = refl

found_leads : leads (new_member 2) ≡ true
unfolding leads ◌%ℤ◌
found_leads = refl

abbrev new_cell_ready : IsReady memory 2 "c" new_cell
new_cell_ready = record {
  calm = (new_cell-IsOpen (pos 0)).calm;
  leader = new_member 2;
  here = found;
  lead = found_leads;
  slots = λ seq kept. inr (new_cell-IsOpen seq).blank;
}

abbrev serving : CellState memory 2 "c"
serving = record {
  cluster = new_cell;
  ready = new_cell_ready;
  db = ("q", "EXCLUSIVE") ∷ [];
  opened = refl;
}

memory-Commits : Commits memory
memory-Commits = record {
  commits = λ db key value. (insert key value db, insert key value db, refl, refl);
}

-- Every run loses the requests to "b" of all but the learn phase.
abbrev lossy : Links
lossy = record {
  prepares = ("a", reply_lost) ∷ ("b", lost) ∷ ("c", delivered) ∷ [];
  accepts = ("a", delivered) ∷ ("b", lost) ∷ ("c", delivered) ∷ [];
  learns = ("a", lost) ∷ ("b", delivered) ∷ ("c", delivered) ∷ [];
  forward = lost;
}

abbrev choices : ℤ → String → Links × Links
choices seq v = (lossy, lossy)

leader_reached : reaches "c" lossy.learns ≡ true
unfolding reaches
leader_reached = refl

abbrev cell : Consensus
cell =
    cell_service memory 2 "c" memory_laws memory-Commits 3 (omega arith) choices
      (λ seq v. leader_reached)

abbrev server : ChubbyImpl
server = record {
  client_lock_map = [];
  client_lease_map = ("7", 12000) ∷ ("8", 12000) ∷ [];
  slot_number = pos 0;
}

cell_service_lem_example :
    Applies cell
    × ((seq : ℤ) (v : String) (p : CellState memory 2 "c")
        → (cell.start seq v p).cluster
          ≡ (run memory "" 3 (lossy ∷ lossy ∷ []) (starts "c" seq v) [] p.cluster).1)
cell_service_lem_example =
    cell_service_lem memory 2 "c" memory_laws memory-Commits 3 (omega arith) choices
      (λ seq v. leader_reached)

abbrev holder : ClientLib
holder = record {
  current_leader = "127.0.0.1:50053";
  client_lease_timeout = 100;
  accept_requests = true;
  latest_epoch_number = pos 2;
  client_id = pos 7;
}

abbrev granted : World cell
granted = (acquire_lock cell no_response (request_of "7" "p" "EXCLUSIVE") (server, serving)).1

abbrev taken_by : ClientLib
taken_by = record holder { current_leader = leader_address cell granted.1 }

abbrev taken_at : World cell
taken_at = (lock_at cell delivered 90 "p" "EXCLUSIVE" holder (server, serving)).1

abbrev rival : ClientLib
rival = record holder { client_id = pos 8 }

abbrev between : List AcquireLockRequest
between = request_of "8" "p" "EXCLUSIVE" ∷ []
