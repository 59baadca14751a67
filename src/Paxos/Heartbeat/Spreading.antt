-- ===== src/Paxos/Heartbeat/Spreading.antt =====
-- How a decided slot travels from the leader's log into that of a peer.
use chubby.Prelude.{
  String, ◌≡◌, ◌≢◌, refl, ap, ◌∙◌, ◌⊎◌, inl, inr, true, false, Bool-cases, Option, Option-cases,
  none, some, List, [], ◌∷◌, if◌then◌else◌, arith,
}
use chubby.Prelude.Int.{ℤ, pos, ◌≤ℤ◌, int_beq_iff}
use chubby.Prelude.Map.{Map, lookup, lookup-insert, int_eq, ◌==◌}
use chubby.Paxos.Slot.{PaxosSlot, SlotMessage, init_slot, is_decided, to_protobuf, fill_slot}
use chubby.Paxos.Slot.Wire.{fill_slot-to_protobuf}
use chubby.Paxos.Messages.{HeartbeatRequest}
use chubby.Paxos.Replica.{PaxosImpl, found_or_new}
use chubby.Paxos.Replica.Slots.{slot_at}
use chubby.Paxos.Acceptor.{decide}
use chubby.Paxos.Heartbeat.{
  heartbeat, begin_heartbeats, request_slots, wire_slots, fill_slots, announced,
}
use chubby.Paxos.Heartbeat.Merging.{merges, adopted, merged, raised_rest, slot_at_found}

found_at :
    (j seq : ℤ) (first slot : PaxosSlot) (rest : Map ℤ PaxosSlot)
    → lookup j ((seq, first) ∷ rest) ≡ some slot
    → (((seq == j) ≡ true) × (first ≡ slot)) ⊎ (((seq == j) ≡ false) × (lookup j rest ≡ some slot))
unfolding lookup
found_at j seq first slot rest e = ground arith

lookup-request_slots :
    (view j : ℤ) (slots : Map ℤ PaxosSlot) (slot : PaxosSlot)
    → lookup j slots ≡ some slot
    → is_decided slot.status ≡ true
    → lookup j (request_slots view slots) ≡ some (announced view slot.value)
unfolding lookup request_slots
lookup-request_slots view j [] slot e known = ground arith
lookup-request_slots view j ((seq, first) ∷ rest) slot e known =
    elim (found_at j seq first slot rest e) [
      | inl (hit, same) ↦
          rw (same, known)
            (lookup-insert seq j (announced view slot.value) (request_slots view rest) ∙ rw hit)
      | inr (miss, later) ↦
          let more = lookup-request_slots view j rest slot later known in
          elim (Bool-cases (is_decided first.status)) [
            | inl is ↦ rw is (
                lookup-insert seq j (announced view first.value) (request_slots view rest)
                ∙ rw miss more)
            | inr not ↦ rw not more
          ]
    ]

abbrev via {ℓ κ} : {A : Type ℓ} {B : Type κ} → (A → B) → Option A → Option B
via f none = none
via f (some x) = some (f x)

lookup-wire_slots :
    (j : ℤ) (slots : Map ℤ PaxosSlot)
    → lookup j (wire_slots slots) ≡ via to_protobuf (lookup j slots)
unfolding lookup wire_slots
lookup-wire_slots j [] = refl
lookup-wire_slots j ((seq, first) ∷ rest) =
    lookup-insert seq j (to_protobuf first) (wire_slots rest)
    ∙ ground (arith, lookup-wire_slots j rest)

lookup-fill_slots :
    (j : ℤ) (messages : Map ℤ SlotMessage)
    → lookup j (fill_slots messages) ≡ via fill_slot (lookup j messages)
unfolding lookup fill_slots
lookup-fill_slots j [] = refl
lookup-fill_slots j ((seq, first) ∷ rest) =
    lookup-insert seq j (fill_slot first) (fill_slots rest)
    ∙ ground (arith, lookup-fill_slots j rest)

-- What a peer finds in the leader's heartbeat for a slot that the leader has decided.
arrives :
    (view j : ℤ) (slots : Map ℤ PaxosSlot) (slot : PaxosSlot)
    → lookup j slots ≡ some slot
    → is_decided slot.status ≡ true
    → lookup j (fill_slots (wire_slots (request_slots view slots)))
      ≡ some (announced view slot.value)
unfolding announced init_slot
arrives view j slots slot e known =
    lookup-fill_slots j (wire_slots (request_slots view slots))
    ∙ rw
        (
          lookup-wire_slots j (request_slots view slots),
          lookup-request_slots view j slots slot e known,
        )
        (ap some ((fill_slot-to_protobuf (announced view slot.value) tt).0))

decide_at :
    (value : String) (slot : PaxosSlot)
    → (is_decided (decide value slot).status ≡ true)
      × ((decide value slot).value ≡ (if is_decided slot.status then slot.value else value))
unfolding decide
decide_at value slot = ground arith

module _ {Disk : Type 0} where
  begun_slots :
      (s : PaxosImpl Disk) (view : ℤ) (slots : Map ℤ SlotMessage)
      → begin_heartbeats s ≡ some (view, slots)
      → slots ≡ wire_slots (request_slots view s.slots)
  unfolding begin_heartbeats
  begun_slots s view slots begun = ground arith

  -- The view only matters for what a new slot is made of.
  same_log :
      (a b : PaxosImpl Disk) (j : ℤ)
      → a.slots ≡ b.slots
      → ((slot_at a j).status ≡ (slot_at b j).status) × ((slot_at a j).value ≡ (slot_at b j).value)
  unfolding slot_at found_or_new init_slot
  same_log a b j e = elim (Option-cases (lookup j b.slots)) [
    | inl gone ↦ rw (e, gone) (refl, refl)
    | inr (slot, found) ↦ rw (e, found) (refl, refl)
  ]

  -- When the replica of the current view, `s`, sends a heartbeat to a peer in that view or an earlier
  -- one, every slot that `s` has decided is decided at the peer: with the peer's own value if the peer
  -- had decided it, and with that of `s` otherwise. The peer's database stays as it was.
  pub heartbeat_spreads :
      (s peer : PaxosImpl Disk) (view : ℤ) (slots : Map ℤ SlotMessage) (done : List ℤ) (j : ℤ)
      (slot : PaxosSlot)
      → begin_heartbeats s ≡ some (view, slots)
      → pos peer.me ≢ pos s.me
      → peer.view ≤ℤ view
      → lookup j s.slots ≡ some slot
      → is_decided slot.status ≡ true
      → let request : HeartbeatRequest = record {
        id = pos s.me;
        view = view;
        done = done;
        slots = slots;
      } in
        let peer' = (heartbeat request peer).1 in
        (is_decided (slot_at peer' j).status ≡ true)
        × ((slot_at peer' j).value
            ≡ (if is_decided (slot_at peer j).status then (slot_at peer j).value else slot.value))
        × (peer'.paxos_db ≡ peer.paxos_db)
  unfolding announced
  heartbeat_spreads s peer view slots done j slot begun other behind e known =
      let request : HeartbeatRequest = record {
        id = pos s.me;
        view = view;
        done = done;
        slots = slots;
      } in
      let m = merges request peer (ground (arith, int_beq_iff (pos peer.me) (pos s.me))) behind in
      let found : lookup j (fill_slots slots) ≡ some (announced view slot.value) =
        ap (λ x. lookup j (fill_slots x)) (begun_slots s view slots begun)
        ∙ arrives view j s.slots slot e known in
      let held = record (slot_at (adopted request peer) j) { n_a = (adopted request peer).view } in
      let now : slot_at (heartbeat request peer).1 j ≡ decide slot.value held =
        slot_at_found (heartbeat request peer).1 j (decide slot.value held)
          (m.log j ∙ ap (merged (adopted request peer) j) found) in
      let (status, value) = same_log (adopted request peer) peer j (raised_rest request peer).0 in
      rw now (
        (decide_at slot.value held).0,
        (decide_at slot.value held).1
            ∙ (λ i. if is_decided (status i) then value i else slot.value),
        m.paxos_db,
      )
