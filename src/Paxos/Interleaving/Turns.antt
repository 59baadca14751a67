-- ===== src/Paxos/Interleaving/Turns.antt =====
-- The critical sections of src/paxos/paxos_server.cpp keep the values of a replica's log among those of
-- its slots.
use chubby.Prelude.{ℕ, String, some, List, ◌≡◌, inl, inr, subst, arith, Bool-cases, of_branches}
use chubby.Prelude.Int.{ℤ, pos, int_beq, ltb_ℤ, leb_ℤ}
use chubby.Prelude.Map.{Map, int_eq}
use chubby.Prelude.Entries.{Entries, All}
use chubby.Storage.{RocksDb, RocksDbWrapper}
use chubby.Paxos.Slot.{PaxosSlot, SlotMessage}
use chubby.Paxos.Messages.{
  Outcome, PrepareRequest, AcceptRequest, HeartbeatRequest, HeartbeatResponse,
}
use chubby.Paxos.Replica.{PaxosImpl}
use chubby.Paxos.Acceptor.{
  elect, promise, vote, raise_view, raise_accepted, raise_slot, apply_value,
}
use chubby.Paxos.Heartbeat.{
  heartbeat, begin_heartbeats, absorb, fill_slots, request_slots, wire_slots,
}
use chubby.Paxos.Leader.{detect_leader_failure, clear_election, conclude, Tally}
use chubby.Paxos.Interleaving.Steps.{
  Turn, opens, elects, raises, marks, stretches, detects, clears, concludes, with_reply,
}
use chubby.Paxos.Interleaving.Sound.{
  SlotSound, LogSound, CalledMessage, LogSound-add_slots, LogSound-merge_slots, Called-fill_slots,
  Called-wire_slots, Called-request_slots, Called-reply_slots,
}

-- Sections that leave the log alone.
slots-elect :
    {Disk : Type 0} (request : _) (s : PaxosImpl Disk) → (elect request s).1.slots ≡ s.slots
unfolding elect
slots-elect request s = ground arith

slots-conclude :
    {Disk : Type 0} (target : ℤ) (stubs : ℕ) (t : Tally) (s : PaxosImpl Disk)
    → (conclude target stubs t s).1.slots ≡ s.slots
unfolding conclude
slots-conclude target stubs t s = ground arith

slots-detect_leader_failure :
    {Disk : Type 0} (s : PaxosImpl Disk) → (detect_leader_failure s).1.slots ≡ s.slots
unfolding detect_leader_failure
slots-detect_leader_failure s = ground arith

pub slots-raise_view :
    {Disk : Type 0} (view : ℤ) (s : PaxosImpl Disk) → (raise_view view s).slots ≡ s.slots
unfolding raise_view
slots-raise_view view s = ground arith

slots-raise_accepted :
    {Disk : Type 0} (seq : ℤ) (s : PaxosImpl Disk) → (raise_accepted seq s).slots ≡ s.slots
unfolding raise_accepted
slots-raise_accepted seq s = ground arith

slots-raise_slot :
    {Disk : Type 0} (seq : ℤ) (s : PaxosImpl Disk) → (raise_slot seq s).slots ≡ s.slots
unfolding raise_slot
slots-raise_slot seq s = ground arith

pub slots-apply_value :
    (R : RocksDb) (value : String) (s t : PaxosImpl (RocksDbWrapper R))
    → apply_value R value s ≡ some t
    → t.slots ≡ s.slots
unfolding apply_value
slots-apply_value R value s t e = ground arith

module _ (Called : ℤ → String → Type 0) where
  pub SlotSound-promise :
      (null_text : String) (request : PrepareRequest) (d seq : ℤ) (slot : PaxosSlot)
      → SlotSound Called seq slot
      → SlotSound Called seq (promise null_text request d slot).1
  unfolding promise
  SlotSound-promise null_text request d seq slot sound =
      elim (Bool-cases (ltb_ℤ slot.n_p request.proposal_number)) [
        | inl newer ↦ rw newer (record { voted = sound.voted; decision = sound.decision })
        | inr older ↦ rw older sound
      ]

  pub SlotSound-vote :
      (null_text : String) (request : AcceptRequest) (d seq : ℤ) (slot : PaxosSlot)
      → Called seq request.value
      → SlotSound Called seq slot
      → SlotSound Called seq (vote null_text request d slot).1
  unfolding vote
  SlotSound-vote null_text request d seq slot called sound =
      elim (Bool-cases (leb_ℤ slot.n_a request.view)) [
        | inl newer ↦ rw newer (record { voted = inr called; decision = sound.decision })
        | inr older ↦ rw older sound
      ]

  -- A reply to a heartbeat that brings values of the slots only.
  abbrev pub CalledReply : HeartbeatResponse → Type 0
  CalledReply response = Entries (CalledMessage Called) response.slots

module _ (Called : ℤ → String → Type 0) {Disk : Type 0} where
  abbrev Kept : PaxosImpl Disk → PaxosImpl Disk → Type 0
  Kept s t = LogSound Called s → LogSound Called t

  pub LogSound-of_slots : (s t : PaxosImpl Disk) → t.slots ≡ s.slots → Kept s t
  LogSound-of_slots s t same sound = rw same sound

  pub LogSound-Turn : {s t : PaxosImpl Disk} → Turn s t → Kept s t
  unfolding clear_election
  LogSound-Turn (opens {s = s} seq) sound = LogSound-add_slots Called seq s sound
  LogSound-Turn (elects {s = s} request) sound = rw (slots-elect request s) sound
  LogSound-Turn (raises {s = s} view) sound = rw (slots-raise_view view s) sound
  LogSound-Turn (marks {s = s} seq) sound = rw (slots-raise_accepted seq s) sound
  LogSound-Turn (stretches {s = s} seq) sound = rw (slots-raise_slot seq s) sound
  LogSound-Turn (detects {s = s}) sound = rw (slots-detect_leader_failure s) sound
  LogSound-Turn clears sound = sound
  LogSound-Turn (concludes {s = s} target stubs t) sound =
      rw (slots-conclude target stubs t s) sound

  pub LogSound-absorb :
      (response : HeartbeatResponse) (s : PaxosImpl Disk)
      → Entries (CalledMessage Called) response.slots
      → Kept s (absorb (some response) s)
  unfolding absorb
  LogSound-absorb response s called =
      LogSound-merge_slots Called (fill_slots response.slots) s
        (Called-fill_slots Called response.slots called)

  -- A result of `Heartbeat` that is as it should be.
  abbrev Beaten : List HeartbeatResponse → Outcome HeartbeatResponse × PaxosImpl Disk → Type 0
  Beaten replies result =
      LogSound Called result.1 × All (CalledReply Called) (with_reply result.0 replies)

  pub LogSound-heartbeat :
      (request : HeartbeatRequest) (replies : List HeartbeatResponse) (s : PaxosImpl Disk)
      → Entries (CalledMessage Called) request.slots
      → All (CalledReply Called) replies
      → LogSound Called s
      → LogSound Called (heartbeat request s).1
        × All (CalledReply Called) (with_reply (heartbeat request s).0 replies)
  unfolding heartbeat
  LogSound-heartbeat request replies s called fine sound =
      let received = fill_slots request.slots in
      let adopted : PaxosImpl Disk = record (raise_view request.view s) {
        done = request.done;
        missed_heartbeats = pos 0;
      } in
      let before : LogSound Called adopted =
        LogSound-of_slots s adopted (slots-raise_view request.view s) sound in
      of_branches (Beaten replies) (int_beq (pos s.me) request.id) _ _ (sound, (tt, fine))
        (of_branches (Beaten replies) (ltb_ℤ request.view s.view) _ _ (sound, fine)
          (
            LogSound-merge_slots Called received adopted
                (Called-fill_slots Called request.slots called) before,
            (
              Called-wire_slots Called _
                  (Called-reply_slots Called adopted.view received adopted.slots before),
              fine,
            ),
          ))

  pub Called-begin_heartbeats :
      (view : ℤ) (slots : Map ℤ SlotMessage) (s : PaxosImpl Disk)
      → begin_heartbeats s ≡ some (view, slots)
      → LogSound Called s
      → Entries (CalledMessage Called) slots
  unfolding begin_heartbeats
  Called-begin_heartbeats view slots s e sound =
      subst (Entries (CalledMessage Called)) made
        (Called-wire_slots Called _ (Called-request_slots Called s.view s.slots sound))
    where
      made : wire_slots (request_slots s.view s.slots) ≡ slots
      made = ground arith
