-- ===== src/Paxos/Heartbeat.antt =====
-- The exchange of decided slots by heartbeats: `Heartbeat` and `SendHeartbeats` of
-- src/paxos/paxos_server.cpp.
pub mod Merging
pub mod Spreading
pub mod Numbered
pub mod Sending
use chubby.Prelude.{String, Option, none, some, List, [], ◌∷◌, ◌++◌, if◌then◌else◌}
use chubby.Prelude.Int.{ℤ, pos, ltb_ℤ, int_beq, ◌%ℤ◌}
use chubby.Prelude.Map.{Map, lookup, insert, int_eq, ◌==◌, string_eq}
use chubby.Paxos.Slot.{
  PaxosSlot, SlotMessage, init_slot, is_decided, decided, to_protobuf, fill_slot,
}
use chubby.Paxos.Messages.{Outcome, replied, refused, aborted, HeartbeatRequest, HeartbeatResponse}
use chubby.Paxos.Replica.{PaxosImpl, add_slots}
use chubby.Paxos.Acceptor.{decide, raise_view, store_slot}
use chubby.Paxos.Network.{Cluster, Delivery, call, locally}

-- The loop that turns the wire's map of slots into one of slots.
unfoldable pub fill_slots : Map ℤ SlotMessage → Map ℤ PaxosSlot
unfolding fill_slot
fill_slots [] = []
fill_slots ((seq, m) ∷ rest) = insert seq (fill_slot m) (fill_slots rest)

-- The loop that turns slots into the wire's map.
unfoldable pub wire_slots : Map ℤ PaxosSlot → Map ℤ SlotMessage
unfolding to_protobuf
wire_slots [] = []
wire_slots ((seq, slot) ∷ rest) = insert seq (to_protobuf slot) (wire_slots rest)

-- A fresh slot with a decided value, for a request; its status stays `PENDING`.
unfoldable pub announced : ℤ → String → PaxosSlot
unfolding init_slot
announced view value = record (init_slot view) { value = value }

-- The same for a reply, which sets the status.
unfoldable pub confirmed : ℤ → String → PaxosSlot
unfolding init_slot
confirmed view value = record (init_slot view) { value = value; status = decided }

-- The decided slots that the request lacks, for the reply.
unfoldable pub reply_slots : ℤ → Map ℤ PaxosSlot → Map ℤ PaxosSlot → Map ℤ PaxosSlot
unfolding confirmed
reply_slots view request_slots [] = []
reply_slots view request_slots ((seq, slot) ∷ rest) =
    let others = reply_slots view request_slots rest in
    if is_decided slot.status
    then elim (lookup seq request_slots) [
      | none ↦ insert seq (confirmed view slot.value) others
      | some _ ↦ others
    ]
    else others

-- The decided slots of the sender.
unfoldable pub request_slots : ℤ → Map ℤ PaxosSlot → Map ℤ PaxosSlot
unfolding announced
request_slots view [] = []
request_slots view ((seq, slot) ∷ rest) =
    let others = request_slots view rest in
    if is_decided slot.status then insert seq (announced view slot.value) others else others

module _ {Disk : Type 0} where
  -- One received slot: it is added to the log, and decided unless it is so already.
  unfoldable pub merge_slot : ℤ → String → PaxosImpl Disk → PaxosImpl Disk
  unfolding add_slots decide store_slot
  merge_slot seq value s = let (slot, s') = add_slots seq s in store_slot seq (decide value slot) s'

  unfoldable pub merge_slots : Map ℤ PaxosSlot → PaxosImpl Disk → PaxosImpl Disk
  merge_slots [] s = s
  merge_slots ((seq, slot) ∷ rest) s = merge_slots rest (merge_slot seq slot.value s)

  -- `Heartbeat`, which runs under `mu`.
  unfoldable pub heartbeat :
      HeartbeatRequest → PaxosImpl Disk → Outcome HeartbeatResponse × PaxosImpl Disk
  unfolding raise_view fill_slots reply_slots wire_slots merge_slots
  heartbeat request s =
      if int_beq (pos s.me) request.id
      then (replied (record { status = ""; slots = [] }), record s { missed_heartbeats = pos 0 })
      else if ltb_ℤ request.view s.view
      then (refused aborted, s)
      else (let s1 = record (raise_view request.view s) {
        done = request.done;
        missed_heartbeats = pos 0;
      } in
          let received = fill_slots request.slots in
          (
            replied (record {
              status = "";
              slots = wire_slots (reply_slots s1.view received s1.slots);
            }),
            merge_slots received s1,
          ))

  -- The section under `mu` with which `SendHeartbeats` begins; `none` if this is not the leader.
  unfoldable pub begin_heartbeats : PaxosImpl Disk → Option (ℤ × Map ℤ SlotMessage)
  unfolding request_slots wire_slots
  begin_heartbeats s =
      if int_beq (s.view %ℤ s.group_size) (pos s.me)
      then some (s.view, wire_slots (request_slots s.view s.slots))
      else none

  -- What the leader does with a reply.
  unfoldable pub absorb : Option HeartbeatResponse → PaxosImpl Disk → PaxosImpl Disk
  unfolding fill_slots merge_slots
  absorb none s = s
  absorb (some response) s = merge_slots (fill_slots response.slots) s

  -- The loop over the stubs, with a delivery for each. The request is one object: the entries of
  -- `done` are added to it for each peer, and none is taken out.
  unfoldable pub send_loop :
      String
      → ℤ
      → Map ℤ SlotMessage
      → List ℤ
      → List (String × Delivery)
      → Cluster Disk
      → Cluster Disk
  unfolding heartbeat absorb call locally
  send_loop self view slots done [] cluster = cluster
  send_loop self view slots done ((address, how) ∷ rest) cluster = elim (lookup self cluster) [
    | none ↦ cluster
    | some sender ↦
        let sent = done ++ sender.done in
        let request : HeartbeatRequest = record {
          id = pos sender.me;
          view = view;
          done = sent;
          slots = slots;
        } in
        let (response, cluster1) = call how address (heartbeat request) cluster in
        let cluster2 =
          if address == self then cluster1 else locally self (absorb response) cluster1 in
        send_loop self view slots sent rest cluster2
  ]

  -- `SendHeartbeats`
  unfoldable pub send_heartbeats : String → List (String × Delivery) → Cluster Disk → Cluster Disk
  unfolding begin_heartbeats send_loop
  send_heartbeats self peers cluster = elim (lookup self cluster) [
    | none ↦ cluster
    | some sender ↦ elim (begin_heartbeats sender) [
      | none ↦ cluster
      | some (view, slots) ↦ send_loop self view slots [] peers cluster
    ]
  ]
