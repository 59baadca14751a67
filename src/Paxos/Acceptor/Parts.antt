-- ===== src/Paxos/Acceptor/Parts.antt =====
-- Facts on the sections that the handlers share.
use chubby.Prelude.{◌≡◌, refl, inl, inr, some, if◌then◌else◌, arith, Bool-cases}
use chubby.Prelude.Int.{ℤ, ◌<ℤ◌}
use chubby.Prelude.Map.{lookup, lookup-insert, int_eq, ◌==◌}
use chubby.Paxos.Slot.{PaxosSlot}
use chubby.Paxos.Messages.{refused, invalid_argument}
use chubby.Paxos.Replica.{PaxosImpl, add_slots}
use chubby.Paxos.Replica.Slots.{lookup-add_slots}
use chubby.Paxos.Acceptor.{enter, raise_view, raise_accepted, raise_slot, store_slot}

-- The parts of the state that `Prepare`, `Accept` and `Learn` leave alone.
pub record SameBase {Disk : Type 0} (s t : PaxosImpl Disk) : Type 0 where
  pub done : t.done ≡ s.done
  pub lowest_slot : t.lowest_slot ≡ s.lowest_slot
  pub me : t.me ≡ s.me
  pub num_servers : t.num_servers ≡ s.num_servers
  pub first_port : t.first_port ≡ s.first_port
  pub is_dead : t.is_dead ≡ s.is_dead
  pub leader_election_happened : t.leader_election_happened ≡ s.leader_election_happened

module _ {Disk : Type 0} (s : PaxosImpl Disk) (seq : ℤ) where
  pub enter_old : seq <ℤ s.lowest_slot → enter seq s ≡ refused invalid_argument
  unfolding enter
  enter_old old = ground arith

  -- What the log holds after a slot has been added and then stored.
  pub log_stored :
      (slot : PaxosSlot) (t : PaxosImpl Disk)
      → t.slots ≡ (add_slots seq s).1.slots
      → (j : ℤ)
      → lookup j (store_slot seq slot t).slots ≡ (if seq == j then some slot else lookup j s.slots)
  unfolding store_slot
  log_stored slot t e j = elim (Bool-cases (seq == j)) [
    | inl hit ↦ rw (lookup-insert seq j slot t.slots, hit)
    | inr miss ↦ rw (lookup-insert seq j slot t.slots, e, lookup-add_slots s seq j, miss)
  ]

  pub SameBase-add_slots : SameBase s (add_slots seq s).1
  unfolding add_slots
  SameBase-add_slots = record {
    done = refl;
    lowest_slot = refl;
    me = refl;
    num_servers = refl;
    first_port = refl;
    is_dead = refl;
    leader_election_happened = refl;
  }

  pub slots-raise_view : (view : ℤ) → (raise_view view s).slots ≡ s.slots
  unfolding raise_view
  slots-raise_view view = ground arith

  pub slots-raise_accepted : (raise_accepted seq s).slots ≡ s.slots
  unfolding raise_accepted
  slots-raise_accepted = ground arith

  pub slots-raise_slot : (raise_slot seq s).slots ≡ s.slots
  unfolding raise_slot
  slots-raise_slot = ground arith
