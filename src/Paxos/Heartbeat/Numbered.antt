-- ===== src/Paxos/Heartbeat/Numbered.antt =====
-- A replica keeps its number when it handles heartbeats and their replies.
use chubby.Prelude.{◌≡◌, refl, ◌∙◌, Option, none, some, [], ◌∷◌, of_branches, arith}
use chubby.Prelude.Int.{ℤ, pos, int_beq, ltb_ℤ}
use chubby.Prelude.Map.{Map, int_eq, string_eq}
use chubby.Paxos.Slot.{PaxosSlot}
use chubby.Paxos.Messages.{Outcome, HeartbeatRequest, HeartbeatResponse}
use chubby.Paxos.Replica.{PaxosImpl, add_slots}
use chubby.Paxos.Acceptor.{raise_view, store_slot}
use chubby.Paxos.Heartbeat.{heartbeat, absorb, merge_slot, merge_slots, fill_slots}

module _ {Disk : Type 0} where
  me-merge_slots :
      (received : Map ℤ PaxosSlot) (s : PaxosImpl Disk) → (merge_slots received s).me ≡ s.me
  unfolding merge_slots merge_slot store_slot add_slots
  me-merge_slots [] s = refl
  me-merge_slots ((seq, slot) ∷ rest) s = me-merge_slots rest (merge_slot seq slot.value s)

  pub me-absorb :
      (response : Option HeartbeatResponse) (s : PaxosImpl Disk) → (absorb response s).me ≡ s.me
  unfolding absorb
  me-absorb none s = refl
  me-absorb (some response) s = me-merge_slots (fill_slots response.slots) s

  me-raise_view : (view : ℤ) (s : PaxosImpl Disk) → (raise_view view s).me ≡ s.me
  unfolding raise_view
  me-raise_view view s = ground arith

  pub me-heartbeat :
      (request : HeartbeatRequest) (s : PaxosImpl Disk) → (heartbeat request s).1.me ≡ s.me
  unfolding heartbeat
  me-heartbeat request s =
      let P = λ (result : Outcome HeartbeatResponse × PaxosImpl Disk). result.1.me ≡ s.me in
      of_branches P (int_beq (pos s.me) request.id) _ _ refl (
        of_branches P (ltb_ℤ request.view s.view) _ _ refl
          (me-merge_slots (fill_slots request.slots) _ ∙ me-raise_view request.view s))
