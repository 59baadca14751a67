-- ===== src/Paxos/Replica.antt =====
-- `class PaxosImpl` of src/include/paxos_server.h: the state of a replica, its constructor, and the
-- operations on the log that the handlers share (src/paxos/paxos_server.cpp).
pub mod Slots
pub mod Forgetting
use chubby.Prelude.{
  ℕ, ◌+◌, ◌-◌, ◌%◌, zero, suc, String, Bool, false, List, [], ◌∷◌, Option, none, some, not,
  if◌then◌else◌,
}
use chubby.Prelude.Int.{ℤ, pos, negsuc, ◌+ℤ◌, ◌-ℤ◌, ltb_ℤ}
use chubby.Prelude.Map.{Map, lookup, insert, keep, int_eq}
use chubby.Paxos.Slot.{PaxosSlot, init_slot}

-- `Disk` is the storage wrapper's state. The members that nothing reads are left out.
pub record PaxosImpl (Disk : Type 0) : Type 0 where
  pub highest_slot : ℤ
  pub lowest_slot : ℤ
  pub done : List ℤ
  pub slots : Map ℤ PaxosSlot
  pub view : ℤ
  pub me : ℕ
  pub leader_dead : Bool
  pub group_size : ℕ
  pub highest_log_idx : ℤ
  pub first_port : ℕ
  pub last_port : ℕ
  pub self_port : ℕ
  pub missed_heartbeats : ℤ
  pub highest_accepted_seq : ℤ
  pub num_servers : ℕ
  pub is_dead : Bool
  pub leader_election_happened : Bool
  pub server_address : String
  pub paxos_db : Disk

-- The constructor writes none of these members, and the class gives them no initial value: they
-- hold what the memory held.
pub record Indeterminate : Type 0 where
  pub highest_slot : ℤ
  pub lowest_slot : ℤ
  pub view : ℤ
  pub missed_heartbeats : ℤ
  pub highest_accepted_seq : ℤ
  pub is_dead : Bool

abbrev pub base_port : ℕ
base_port = 50051

-- The loop that fills `done`.
unfoldable pub push_done : ℕ → List ℤ
push_done zero = []
push_done (suc n) = negsuc 0 ∷ push_done n

-- `PaxosImpl::PaxosImpl`, given the port that `getPortNumber` reads from the address and the opened
-- database. The group size is at least 1.
unfoldable pub construct : {Disk : Type 0} → Indeterminate → ℕ → Disk → String → ℕ → PaxosImpl Disk
unfolding push_done
construct memory group_size disk server_address port = record {
  highest_slot = memory.highest_slot;
  lowest_slot = memory.lowest_slot;
  done = push_done group_size;
  slots = [];
  view = memory.view;
  me = port % base_port;
  leader_dead = false;
  group_size = group_size;
  highest_log_idx = pos 0;
  first_port = base_port;
  last_port = base_port + group_size - 1;
  self_port = port;
  missed_heartbeats = memory.missed_heartbeats;
  highest_accepted_seq = memory.highest_accepted_seq;
  num_servers = group_size;
  is_dead = memory.is_dead;
  leader_election_happened = false;
  server_address = server_address;
  paxos_db = disk;
}

-- `done[i]`; `none` is a read past the end.
abbrev pub get_elem? : List ℤ → ℕ → Option ℤ
get_elem? [] i = none
get_elem? (x ∷ xs) zero = some x
get_elem? (x ∷ xs) (suc i) = get_elem? xs i

-- `done[i] = v`
abbrev pub set : List ℤ → ℕ → ℤ → List ℤ
set [] i v = []
set (x ∷ xs) zero v = v ∷ xs
set (x ∷ xs) (suc i) v = x ∷ set xs i v

-- The slot that `addSlots` finds or makes.
unfoldable pub found_or_new : ℤ → Option PaxosSlot → PaxosSlot
found_or_new view none = init_slot view
found_or_new view (some slot) = slot

module _ {Disk : Type 0} where
  -- `addSlots`: the slot as it returns it, and the replica with the slot in its log.
  unfoldable pub add_slots : ℤ → PaxosImpl Disk → PaxosSlot × PaxosImpl Disk
  unfolding found_or_new
  add_slots seq s =
      let slot = record (found_or_new s.view (lookup seq s.slots)) { n_a = s.view } in
      (slot, record s { slots = insert seq slot s.slots })

-- `std::min` over the whole of `done`.
unfoldable pub min_done : ℤ → List ℤ → ℤ
min_done mini [] = mini
min_done mini (x ∷ xs) = min_done (if ltb_ℤ x mini then x else mini) xs

unfoldable pub raise_done : ℕ → ℤ → List ℤ → Option (List ℤ)
raise_done peer peer_done done = elim (get_elem? done peer) [
  | none ↦ none
  | some old ↦ some (if ltb_ℤ old peer_done then set done peer peer_done else done)
]

module _ {Disk : Type 0} where
  unfoldable pub collect : List ℤ → PaxosImpl Disk → PaxosImpl Disk
  unfolding min_done
  collect [] s = s
  collect (d ∷ ds) s =
      let offset = min_done d (d ∷ ds) -ℤ s.lowest_slot +ℤ pos 1 in
      let lowest : ℤ = if ltb_ℤ (pos 0) offset then s.lowest_slot +ℤ offset else s.lowest_slot in
      record s {
        done = d ∷ ds;
        lowest_slot = lowest;
        slots = keep (λ seq. not (ltb_ℤ seq lowest)) s.slots;
      }

  -- `Forget`; `none` is an index past the end of `done`.
  unfoldable pub forget : ℕ → ℤ → PaxosImpl Disk → Option (PaxosImpl Disk)
  unfolding raise_done collect
  forget peer peer_done s = elim (raise_done peer peer_done s.done) [
    | none ↦ none
    | some done ↦ some (collect done s)
  ]
