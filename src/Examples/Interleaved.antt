-- ===== src/Examples/Interleaved.antt =====
-- A run of the cell's steps: replica 2, at "c", proposes a value for slot 4, and decides it.
use chubby.Prelude.{ℕ, String, some, [], ◌∷◌, ◌≡◌, refl, inl, arith}
use chubby.Prelude.Int.{ℤ, pos, ◌%ℤ◌}
use chubby.Prelude.Map.{lookup, insert, int_eq, string_eq, nat_eq}
use chubby.Storage.{RocksDbWrapper}
use chubby.Storage.Memory.{memory}
use chubby.Paxos.Slot.{init_slot}
use chubby.Paxos.Messages.{DecideRequest}
use chubby.Paxos.Replica.{PaxosImpl, add_slots}
use chubby.Paxos.Replica.Slots.{slot_at}
use chubby.Paxos.Acceptor.{decide, store_slot}
use chubby.Paxos.Network.{Cluster}
use chubby.Paxos.Proposer.Phases.{no_accepts}
use chubby.Paxos.Interleaving.{
  Proposal, called, admitted, accepting, telling, admit, pick_phase, may_propose, after_votes,
}
use chubby.Paxos.Interleaving.Steps.{
  World, Reach, here, next, place, advance, starts, admits, picks, joins, tells, turns, opens,
  learns,
}
use chubby.Paxos.Interleaving.Valid.Decided.{quiet, Decided, decided_was_called}
use chubby.Paxos.Interleaving.Ratchet.{ReplicaGrows}
use chubby.Paxos.Interleaving.Ratchet.Steps.{ratchet}
use chubby.Examples.Replicas.{replica}

abbrev fresh : ℕ → PaxosImpl (RocksDbWrapper memory)
fresh me = record (replica me) { slots = [] }

abbrev cell : Cluster (RocksDbWrapper memory)
cell = ("a", fresh 0) ∷ ("b", fresh 1) ∷ ("c", fresh 2) ∷ []

abbrev Asked : ℤ → String → Type 0
Asked seq value = value ≡ "k#FREE"

abbrev proposal : Proposal
proposal = record { self = "c"; seq = pos 9; v = "k#FREE"; my_view = pos 2; stage = called }

abbrev w0 : World memory
w0 = quiet cell

abbrev w1 : World memory
w1 = record w0 { threads = insert 0 proposal [] }

abbrev w1_admitted : World memory
w1_admitted = advance 0 proposal admitted w1

abbrev p1 : Proposal
p1 = record proposal { stage = admitted }

abbrev w2 : World memory
w2 = advance 0 p1 (accepting "k#FREE" (no_accepts "")) w1_admitted

abbrev p2 : Proposal
p2 = record proposal { stage = accepting "k#FREE" (no_accepts "") }

abbrev w3 : World memory
w3 = advance 0 p2 (telling "k#FREE") w2

abbrev p3 : Proposal
p3 = record proposal { stage = telling "k#FREE" }

abbrev request : DecideRequest
request = record { seq = pos 9; value = "k#FREE"; sender_id = pos 2; latest_done = pos 3 }

abbrev w4 : World memory
w4 = record w3 { learns = request ∷ [] }

abbrev opened : PaxosImpl (RocksDbWrapper memory)
opened = (add_slots (pos 9) (fresh 2)).1

abbrev w5 : World memory
w5 = place "c" opened w4

abbrev closed : PaxosImpl (RocksDbWrapper memory)
closed = store_slot (pos 9) (decide "k#FREE" (record (init_slot (pos 2)) { n_a = pos 2 })) opened

abbrev w6 : World memory
w6 = place "c" closed w5

run2 : Reach memory "" 3 Asked w0 w2
unfolding may_propose admit pick_phase lookup insert slot_at ◌%ℤ◌ init_slot
run2 =
    next
      (next (next here (starts 0 "c" "k#FREE" (pos 9) (pos 2) refl refl refl))
        (admits 0 proposal refl refl refl))
      (picks 0 p1 refl refl refl)

run6 : Reach memory "" 3 Asked w0 w6
unfolding after_votes lookup insert add_slots init_slot
run6 =
    next
      (next
        (next (next run2 (joins 0 p2 "k#FREE" (no_accepts "") refl refl))
          (tells 0 p3 "k#FREE" request refl refl refl refl))
        (turns "c" refl (opens (pos 9))))
      (learns "c" request (record (init_slot (pos 2)) { n_a = pos 2 }) (inl refl) refl refl)

learnt : Decided w6 "c" (pos 9) "k#FREE"
unfolding lookup insert store_slot decide add_slots init_slot
learnt = record {
  replica = closed;
  slot = decide "k#FREE" (record (init_slot (pos 2)) { n_a = pos 2 });
  at = refl;
  found = refl;
  is_decided_lem = refl;
  value_lem = refl;
}

decided_was_called_example : Asked (pos 9) "k#FREE"
decided_was_called_example =
    decided_was_called memory 3 (omega arith) Asked cell (refl, (refl, (refl, tt))) w6 run6 "c"
      (pos 9) "k#FREE" learnt

ratchet_example :
    (t : PaxosImpl (RocksDbWrapper memory)) × ((lookup "c" w6.cell ≡ some t)
      × ReplicaGrows (fresh 2) t)
unfolding lookup
ratchet_example = ratchet memory "" 3 Asked run6 "c" (fresh 2) refl
