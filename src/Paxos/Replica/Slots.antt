-- ===== src/Paxos/Replica/Slots.antt =====
-- What the log holds after `addSlots`.
use chubby.Prelude.{◌≡◌, some, if◌then◌else◌}
use chubby.Prelude.Int.{ℤ}
use chubby.Prelude.Map.{lookup, lookup-insert, ◌==◌, int_eq}
use chubby.Paxos.Slot.{PaxosSlot}
use chubby.Paxos.Replica.{PaxosImpl, found_or_new, add_slots}

module _ {Disk : Type 0} (s : PaxosImpl Disk) where
  -- The slot under a number, as it is or as `addSlots` would make it, before `n_a` is written.
  unfoldable pub slot_at : ℤ → PaxosSlot
  unfolding found_or_new
  slot_at seq = found_or_new s.view (lookup seq s.slots)

  pub lookup-add_slots :
      (seq j : ℤ)
      → lookup j (add_slots seq s).1.slots
        ≡ (if seq == j then some (record (slot_at seq) { n_a = s.view }) else lookup j s.slots)
  unfolding add_slots slot_at
  lookup-add_slots seq j = lookup-insert seq j _ s.slots
