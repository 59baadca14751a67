-- ===== src/Paxos/Interleaving/Ratchet.antt =====
-- What no critical section of src/paxos/paxos_server.cpp takes back: views, promises, the highest slots
-- and decisions.
pub mod Sections
pub mod Steps
use chubby.Prelude.{
  ℕ, String, Bool, true, Option, some, [], ◌∷◌, ◌≡◌, refl, sym, ◌∙◌, ap, subst, inl, inr, arith,
  if◌then◌else◌, Bool-cases, of_branches, Option-cases, ◌||◌,
}
use chubby.Prelude.Int.{ℤ, pos, ◌≤ℤ◌, int_beq, ltb_ℤ, leb_ℤ}
use chubby.Prelude.Map.{Map, lookup, insert, int_eq}
use chubby.Prelude.Growing.{Grows, Grows-refl, Grows-trans, Grows-insert}
use chubby.Storage.{RocksDb, RocksDbWrapper}
use chubby.Paxos.Slot.{PaxosSlot, is_decided}
use chubby.Paxos.Messages.{
  Outcome, replied, ElectRequest, PrepareRequest, AcceptRequest, HeartbeatRequest,
  HeartbeatResponse,
}
use chubby.Paxos.Replica.{PaxosImpl, add_slots, found_or_new}
use chubby.Paxos.Replica.Slots.{slot_at}
use chubby.Paxos.Acceptor.{
  elect, promise, vote, decide, raise_view, raise_accepted, raise_slot, store_slot, apply_value,
}
use chubby.Paxos.Heartbeat.{heartbeat, absorb, fill_slots, merge_slot, merge_slots}
use chubby.Paxos.Leader.{detect_leader_failure, clear_election, conclude, Tally}
use chubby.Paxos.Proposer.{keep_highest}
use chubby.Paxos.Proposer.Phases.{Gathered}
use chubby.Paxos.Interleaving.{Stage, Proposal, begin_phase, end_phase}
use chubby.Paxos.Interleaving.Steps.{
  Turn, opens, elects, raises, marks, stretches, detects, clears, concludes,
}

-- What a slot may become: its promise does not go down, and a decision stays.
pub record SlotGrows (a b : PaxosSlot) : Type 0 where
  pub promise_lem : a.n_p ≤ℤ b.n_p
  pub stays_decided : is_decided a.status ≡ true → is_decided b.status ≡ true
  pub stays_value : is_decided a.status ≡ true → b.value ≡ a.value

pub SlotGrows-refl : (a : PaxosSlot) → SlotGrows a a
SlotGrows-refl a = record {
  promise_lem = omega arith;
  stays_decided = λ e. e;
  stays_value = λ e. refl;
}

pub SlotGrows-trans : (a b c : PaxosSlot) → SlotGrows a b → SlotGrows b c → SlotGrows a c
SlotGrows-trans a b c f g = record {
  promise_lem = ground (arith, f.promise_lem, g.promise_lem);
  stays_decided = λ e. g.stays_decided (f.stays_decided e);
  stays_value = λ e. g.stays_value (f.stays_decided e) ∙ f.stays_value e;
}

abbrev pub LogGrows : Map ℤ PaxosSlot → Map ℤ PaxosSlot → Type 0
LogGrows m m' = Grows SlotGrows m m'

module _ {Disk : Type 0} where
  -- What a replica may become.
  pub record ReplicaGrows (s t : PaxosImpl Disk) : Type 0 where
    pub view : s.view ≤ℤ t.view
    pub highest_accepted_seq : s.highest_accepted_seq ≤ℤ t.highest_accepted_seq
    pub highest_slot : s.highest_slot ≤ℤ t.highest_slot
    pub lowest_slot : t.lowest_slot ≡ s.lowest_slot
    pub log : LogGrows s.slots t.slots

  pub ReplicaGrows-refl : (s : PaxosImpl Disk) → ReplicaGrows s s
  ReplicaGrows-refl s = record {
    view = omega arith;
    highest_accepted_seq = omega arith;
    highest_slot = omega arith;
    lowest_slot = refl;
    log = Grows-refl SlotGrows SlotGrows-refl s.slots;
  }

  pub ReplicaGrows-trans :
      (r s t : PaxosImpl Disk) → ReplicaGrows r s → ReplicaGrows s t → ReplicaGrows r t
  ReplicaGrows-trans r s t f g = record {
    view = ground (arith, f.view, g.view);
    highest_accepted_seq = ground (arith, f.highest_accepted_seq, g.highest_accepted_seq);
    highest_slot = ground (arith, f.highest_slot, g.highest_slot);
    lowest_slot = g.lowest_slot ∙ f.lowest_slot;
    log = Grows-trans SlotGrows SlotGrows-trans r.slots s.slots t.slots f.log g.log;
  }

  -- A section that leaves the log alone.
  pub ReplicaGrows-of_slots :
      (s t : PaxosImpl Disk)
      → t.slots ≡ s.slots
      → s.view ≤ℤ t.view
      → s.highest_accepted_seq ≤ℤ t.highest_accepted_seq
      → s.highest_slot ≤ℤ t.highest_slot
      → t.lowest_slot ≡ s.lowest_slot
      → ReplicaGrows s t
  ReplicaGrows-of_slots s t same view accepted highest lowest = record {
    view = view;
    highest_accepted_seq = accepted;
    highest_slot = highest;
    lowest_slot = lowest;
    log = rw same (Grows-refl SlotGrows SlotGrows-refl s.slots);
  }

  -- A section that writes one slot.
  pub ReplicaGrows-store_slot :
      (seq : ℤ) (new : PaxosSlot) (s : PaxosImpl Disk)
      → ((old : PaxosSlot) → lookup seq s.slots ≡ some old → SlotGrows old new)
      → ReplicaGrows s (store_slot seq new s)
  unfolding store_slot
  ReplicaGrows-store_slot seq new s follows = record {
    view = omega arith;
    highest_accepted_seq = omega arith;
    highest_slot = omega arith;
    lowest_slot = refl;
    log = Grows-insert SlotGrows SlotGrows-refl seq new s.slots follows;
  }

  -- The same for a slot that is there.
  pub ReplicaGrows-at :
      (seq : ℤ) (old new : PaxosSlot) (s : PaxosImpl Disk)
      → lookup seq s.slots ≡ some old
      → SlotGrows old new
      → ReplicaGrows s (store_slot seq new s)
  ReplicaGrows-at seq old new s at grows =
      ReplicaGrows-store_slot seq new s
        (λ other found. subst (λ a. SlotGrows a new) (ground (arith, at, found)) grows)

  -- A change of other fields of the slot that `slot_at` reads.
  slot_at_found :
      (seq : ℤ) (old : PaxosSlot) (s : PaxosImpl Disk)
      → lookup seq s.slots ≡ some old
      → slot_at s seq ≡ old
  unfolding slot_at found_or_new
  slot_at_found seq old s at = rw at

  pub ReplicaGrows-slot_at :
      (seq : ℤ) (new : PaxosSlot) (s : PaxosImpl Disk)
      → SlotGrows (slot_at s seq) new
      → ReplicaGrows s (store_slot seq new s)
  ReplicaGrows-slot_at seq new s grows =
      ReplicaGrows-store_slot seq new s
        (λ old found. subst (λ a. SlotGrows a new) (slot_at_found seq old s found) grows)

  pub ReplicaGrows-add_slots : (seq : ℤ) (s : PaxosImpl Disk) → ReplicaGrows s (add_slots seq s).1
  unfolding add_slots store_slot slot_at
  ReplicaGrows-add_slots seq s =
      ReplicaGrows-slot_at seq (record (slot_at s seq) { n_a = s.view }) s
        (record { promise_lem = omega arith; stays_decided = λ e. e; stays_value = λ e. refl })

pub SlotGrows-decide : (value : String) (a : PaxosSlot) → SlotGrows a (decide value a)
unfolding decide
SlotGrows-decide value a = elim (Bool-cases (is_decided a.status)) [
  | inl done ↦ rw done (SlotGrows-refl a)
  | inr open_ ↦ rw open_ (record {
    promise_lem = omega arith;
    stays_decided = λ e. refl;
    stays_value = λ e. absurd (ground arith);
  })
]

pub SlotGrows-promise :
    (null_text : String) (request : PrepareRequest) (d : ℤ) (a : PaxosSlot)
    → SlotGrows a (promise null_text request d a).1
unfolding promise
SlotGrows-promise null_text request d a = elim (Bool-cases (ltb_ℤ a.n_p request.proposal_number)) [
  | inl newer ↦
      rw newer
        (record { promise_lem = ground arith; stays_decided = λ e. e; stays_value = λ e. refl })
  | inr older ↦ rw older (SlotGrows-refl a)
]

pub SlotGrows-vote :
    (null_text : String) (request : AcceptRequest) (d : ℤ) (a : PaxosSlot)
    → SlotGrows a (vote null_text request d a).1
unfolding vote
SlotGrows-vote null_text request d a = elim (Bool-cases (leb_ℤ a.n_a request.view)) [
  | inl newer ↦
      rw newer
        (record { promise_lem = omega arith; stays_decided = λ e. e; stays_value = λ e. refl })
  | inr older ↦ rw older (SlotGrows-refl a)
]
