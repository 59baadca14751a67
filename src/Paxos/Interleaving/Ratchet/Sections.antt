-- ===== src/Paxos/Interleaving/Ratchet/Sections.antt =====
-- No critical section of src/paxos/paxos_server.cpp takes back a view, a promise or a decision.
use chubby.Prelude.{ℕ, String, some, [], ◌∷◌, ◌≡◌, refl, ◌∙◌, arith, of_branches}
use chubby.Prelude.Int.{ℤ, pos, int_beq, ltb_ℤ}
use chubby.Prelude.Map.{Map, lookup, int_eq, beq_refl}
use chubby.Storage.{RocksDb, RocksDbWrapper}
use chubby.Paxos.Slot.{PaxosSlot}
use chubby.Paxos.Messages.{ElectRequest, Outcome, HeartbeatRequest, HeartbeatResponse}
use chubby.Paxos.Replica.{PaxosImpl, add_slots}
use chubby.Paxos.Replica.Slots.{slot_at, lookup-add_slots}
use chubby.Paxos.Acceptor.{elect, decide, raise_view, raise_accepted, raise_slot, apply_value}
use chubby.Paxos.Heartbeat.{heartbeat, absorb, fill_slots, merge_slot, merge_slots}
use chubby.Paxos.Leader.{detect_leader_failure, clear_election, conclude, Tally}
use chubby.Paxos.Proposer.{keep_highest}
use chubby.Paxos.Proposer.Phases.{Gathered}
use chubby.Paxos.Interleaving.{Stage, Proposal, begin_phase, end_phase}
use chubby.Paxos.Interleaving.Steps.{
  Turn, opens, elects, raises, marks, stretches, detects, clears, concludes,
}
use chubby.Paxos.Interleaving.Ratchet.{
  ReplicaGrows, ReplicaGrows-refl, ReplicaGrows-trans, ReplicaGrows-of_slots, ReplicaGrows-slot_at,
  ReplicaGrows-at, ReplicaGrows-add_slots, SlotGrows-decide,
}

module _ {Disk : Type 0} where
  ReplicaGrows-elect :
      (request : ElectRequest) (s : PaxosImpl Disk) → ReplicaGrows s (elect request s).1
  unfolding elect
  ReplicaGrows-elect request s =
      ReplicaGrows-of_slots s (elect request s).1 (ground arith) (ground arith) (ground arith)
        (ground arith) (ground arith)

  ReplicaGrows-raise_view : (view : ℤ) (s : PaxosImpl Disk) → ReplicaGrows s (raise_view view s)
  unfolding raise_view
  ReplicaGrows-raise_view view s =
      ReplicaGrows-of_slots s (raise_view view s) (ground arith) (ground arith) (ground arith)
        (ground arith) (ground arith)

  ReplicaGrows-raise_accepted :
      (seq : ℤ) (s : PaxosImpl Disk) → ReplicaGrows s (raise_accepted seq s)
  unfolding raise_accepted
  ReplicaGrows-raise_accepted seq s =
      ReplicaGrows-of_slots s (raise_accepted seq s) (ground arith) (ground arith) (ground arith)
        (ground arith) (ground arith)

  ReplicaGrows-raise_slot : (seq : ℤ) (s : PaxosImpl Disk) → ReplicaGrows s (raise_slot seq s)
  unfolding raise_slot
  ReplicaGrows-raise_slot seq s =
      ReplicaGrows-of_slots s (raise_slot seq s) (ground arith) (ground arith) (ground arith)
        (ground arith) (ground arith)

  ReplicaGrows-detect_leader_failure :
      (s : PaxosImpl Disk) → ReplicaGrows s (detect_leader_failure s).1
  unfolding detect_leader_failure
  ReplicaGrows-detect_leader_failure s =
      ReplicaGrows-of_slots s (detect_leader_failure s).1 (ground arith) (ground arith)
        (ground arith) (ground arith) (ground arith)

  ReplicaGrows-conclude :
      (target : ℤ) (stubs : ℕ) (t : Tally) (s : PaxosImpl Disk)
      → ReplicaGrows s (conclude target stubs t s).1
  unfolding conclude
  ReplicaGrows-conclude target stubs t s =
      ReplicaGrows-of_slots s (conclude target stubs t s).1 (ground arith) (ground arith)
        (ground arith) (ground arith) (ground arith)

  pub ReplicaGrows-Turn : {s t : PaxosImpl Disk} → Turn s t → ReplicaGrows s t
  unfolding clear_election
  ReplicaGrows-Turn (opens {s = s} seq) = ReplicaGrows-add_slots seq s
  ReplicaGrows-Turn (elects {s = s} request) = ReplicaGrows-elect request s
  ReplicaGrows-Turn (raises {s = s} view) = ReplicaGrows-raise_view view s
  ReplicaGrows-Turn (marks {s = s} seq) = ReplicaGrows-raise_accepted seq s
  ReplicaGrows-Turn (stretches {s = s} seq) = ReplicaGrows-raise_slot seq s
  ReplicaGrows-Turn (detects {s = s}) = ReplicaGrows-detect_leader_failure s
  ReplicaGrows-Turn (clears {s = s}) =
      ReplicaGrows-of_slots s (clear_election s) refl (omega arith) (omega arith) (omega arith) refl
  ReplicaGrows-Turn (concludes {s = s} target stubs t) = ReplicaGrows-conclude target stubs t s

  slot_added :
      (seq : ℤ) (s : PaxosImpl Disk)
      → lookup seq (add_slots seq s).1.slots ≡ some (add_slots seq s).0
  unfolding add_slots slot_at
  slot_added seq s = lookup-add_slots s seq seq ∙ rw (beq_refl seq)

  ReplicaGrows-merge_slot :
      (seq : ℤ) (value : String) (s : PaxosImpl Disk) → ReplicaGrows s (merge_slot seq value s)
  unfolding merge_slot
  ReplicaGrows-merge_slot seq value s =
      let (slot, s') = add_slots seq s in
      ReplicaGrows-trans s s' _ (ReplicaGrows-add_slots seq s) (
        ReplicaGrows-at seq slot (decide value slot) s' (slot_added seq s)
          (SlotGrows-decide value slot))

  ReplicaGrows-merge_slots :
      (received : Map ℤ PaxosSlot) (s : PaxosImpl Disk) → ReplicaGrows s (merge_slots received s)
  unfolding merge_slots
  ReplicaGrows-merge_slots [] s = ReplicaGrows-refl s
  ReplicaGrows-merge_slots ((seq, slot) ∷ rest) s =
      ReplicaGrows-trans s (merge_slot seq slot.value s) _
        (ReplicaGrows-merge_slot seq slot.value s)
        (ReplicaGrows-merge_slots rest (merge_slot seq slot.value s))

  pub ReplicaGrows-absorb :
      (response : HeartbeatResponse) (s : PaxosImpl Disk)
      → ReplicaGrows s (absorb (some response) s)
  unfolding absorb
  ReplicaGrows-absorb response s = ReplicaGrows-merge_slots (fill_slots response.slots) s

  abbrev Grown : PaxosImpl Disk → Outcome HeartbeatResponse × PaxosImpl Disk → Type 0
  Grown s result = ReplicaGrows s result.1

  pub ReplicaGrows-heartbeat :
      (request : HeartbeatRequest) (s : PaxosImpl Disk) → ReplicaGrows s (heartbeat request s).1
  unfolding heartbeat
  ReplicaGrows-heartbeat request s =
      let seen = raise_view request.view s in
      let adopted : PaxosImpl Disk = record seen {
        done = request.done;
        missed_heartbeats = pos 0;
      } in
      of_branches (Grown s) (int_beq (pos s.me) request.id) _ _
        (ReplicaGrows-of_slots s (record s { missed_heartbeats = pos 0 }) refl (omega arith)
          (omega arith) (omega arith) refl)
        (of_branches (Grown s) (ltb_ℤ request.view s.view) _ _ (ReplicaGrows-refl s) (
          ReplicaGrows-trans s adopted _
            (ReplicaGrows-trans s seen adopted (ReplicaGrows-raise_view request.view s) (
              ReplicaGrows-of_slots seen adopted refl (omega arith) (omega arith) (omega arith)
                refl))
            (ReplicaGrows-merge_slots (fill_slots request.slots) adopted)))

  abbrev Passed : PaxosImpl Disk → Stage × PaxosImpl Disk → Type 0
  Passed s result = ReplicaGrows s result.1

  pub ReplicaGrows-begin_phase :
      (p : Proposal) (s : PaxosImpl Disk) → ReplicaGrows s (begin_phase p s).1
  unfolding begin_phase
  ReplicaGrows-begin_phase p s =
      ReplicaGrows-slot_at p.seq _ s
        (record { promise_lem = omega arith; stays_decided = λ e. e; stays_value = λ e. refl })

  pub ReplicaGrows-end_phase :
      (g : Gathered) (p : Proposal) (s : PaxosImpl Disk) → ReplicaGrows s (end_phase g p s).1
  unfolding end_phase keep_highest
  ReplicaGrows-end_phase g p s =
      let s' = keep_highest p.seq g.highest_n s in
      let kept : ReplicaGrows s s' =
        ReplicaGrows-slot_at p.seq _ s
          (record { promise_lem = omega arith; stays_decided = λ e. e; stays_value = λ e. refl }) in
      of_branches (Passed s) (ltb_ℤ p.my_view g.highest_na) _ _
        (ReplicaGrows-trans s s' _ kept (ReplicaGrows-raise_view g.highest_na s'))
        (of_branches (Passed s) g.is_decided_prep _ _ kept kept)

pub ReplicaGrows-apply_value :
    (R : RocksDb) (value : String) (s t : PaxosImpl (RocksDbWrapper R))
    → apply_value R value s ≡ some t
    → ReplicaGrows s t
unfolding apply_value
ReplicaGrows-apply_value R value s t e =
    ReplicaGrows-of_slots s t (ground arith) (ground arith) (ground arith) (ground arith)
      (ground arith)
