-- ===== src/Paxos/Interleaving/Sound.antt =====
-- Where the values of a replica's log and of the wire come from, and the sections that keep it so.
use chubby.Prelude.{
  String, true, [], ◌∷◌, ◌≡◌, refl, ◌⊎◌, inl, inr, arith, Bool-cases, Option-cases,
}
use chubby.Prelude.Int.{ℤ}
use chubby.Prelude.Map.{Map, lookup, int_eq, string_eq}
use chubby.Prelude.Entries.{Entries, Entries-insert, Entries-lookup}
use chubby.Paxos.Slot.{PaxosSlot, SlotMessage, is_decided, init_slot, fill_slot, to_protobuf}
use chubby.Paxos.Replica.{PaxosImpl, add_slots, found_or_new}
use chubby.Paxos.Replica.Slots.{slot_at}
use chubby.Paxos.Acceptor.{decide, store_slot}
use chubby.Paxos.Heartbeat.{
  fill_slots, wire_slots, request_slots, reply_slots, announced, confirmed, merge_slot, merge_slots,
}

module _ (Called : ℤ → String → Type 0) where
  -- A value that a vote may stand for: none yet, or one of the slot's.
  abbrev pub Voted : ℤ → String → Type 0
  Voted seq value = (value ≡ "") ⊎ Called seq value

  -- A slot whose vote and whose decision are values of the slot.
  pub record SlotSound (seq : ℤ) (slot : PaxosSlot) : Type 0 where
    pub voted : Voted seq slot.v_a
    pub decision : is_decided slot.status ≡ true → Called seq slot.value

  abbrev pub LogSound : {Disk : Type 0} → PaxosImpl Disk → Type 0
  LogSound s = Entries SlotSound s.slots

  -- Slots that bring values: of a heartbeat, and on the wire.
  abbrev pub CalledSlot : ℤ → PaxosSlot → Type 0
  CalledSlot seq slot = Called seq slot.value

  abbrev pub CalledMessage : ℤ → SlotMessage → Type 0
  CalledMessage seq m = Called seq m.value

  SlotSound-found_or_new :
      (seq view : ℤ) (slots : Map ℤ PaxosSlot)
      → Entries SlotSound slots
      → SlotSound seq (found_or_new view (lookup seq slots))
  unfolding found_or_new init_slot
  SlotSound-found_or_new seq view slots sound = elim (Option-cases (lookup seq slots)) [
    | inl missing ↦ rw missing (record { voted = inl refl; decision = λ e. absurd (ground arith) })
    | inr (slot, found) ↦ rw found (Entries-lookup SlotSound seq slot slots sound found)
  ]

  pub SlotSound-slot_at :
      {Disk : Type 0} (seq : ℤ) (s : PaxosImpl Disk) → LogSound s → SlotSound seq (slot_at s seq)
  unfolding slot_at
  SlotSound-slot_at seq s sound = SlotSound-found_or_new seq s.view s.slots sound

  pub LogSound-store_slot :
      {Disk : Type 0} (seq : ℤ) (slot : PaxosSlot) (s : PaxosImpl Disk)
      → SlotSound seq slot
      → LogSound s
      → LogSound (store_slot seq slot s)
  unfolding store_slot
  LogSound-store_slot seq slot s here sound = Entries-insert SlotSound seq slot s.slots here sound

  pub LogSound-add_slots :
      {Disk : Type 0} (seq : ℤ) (s : PaxosImpl Disk) → LogSound s → LogSound (add_slots seq s).1
  unfolding add_slots
  LogSound-add_slots seq s sound =
      let old = SlotSound-found_or_new seq s.view s.slots sound in
      Entries-insert SlotSound seq _ s.slots (record { voted = old.voted; decision = old.decision })
        sound

  pub SlotSound-decide :
      (seq : ℤ) (value : String) (slot : PaxosSlot)
      → Called seq value
      → SlotSound seq slot
      → SlotSound seq (decide value slot)
  unfolding decide
  SlotSound-decide seq value slot called sound = elim (Bool-cases (is_decided slot.status)) [
    | inl done ↦ rw done sound
    | inr open_ ↦ rw open_ (record { voted = sound.voted; decision = λ e. called })
  ]

  LogSound-merge_slot :
      {Disk : Type 0} (seq : ℤ) (value : String) (s : PaxosImpl Disk)
      → Called seq value
      → LogSound s
      → LogSound (merge_slot seq value s)
  unfolding merge_slot add_slots
  LogSound-merge_slot seq value s called sound =
      let old = SlotSound-found_or_new seq s.view s.slots sound in
      LogSound-store_slot seq _ (add_slots seq s).1
        (SlotSound-decide seq value (add_slots seq s).0 called
          (record { voted = old.voted; decision = old.decision }))
        (LogSound-add_slots seq s sound)

  pub LogSound-merge_slots :
      {Disk : Type 0} (received : Map ℤ PaxosSlot) (s : PaxosImpl Disk)
      → Entries CalledSlot received
      → LogSound s
      → LogSound (merge_slots received s)
  unfolding merge_slots
  LogSound-merge_slots [] s called sound = sound
  LogSound-merge_slots ((seq, slot) ∷ rest) s called sound =
      LogSound-merge_slots rest _ called.1 (LogSound-merge_slot seq slot.value s called.0 sound)

  pub Called-fill_slots :
      (m : Map ℤ SlotMessage) → Entries CalledMessage m → Entries CalledSlot (fill_slots m)
  unfolding fill_slots fill_slot
  Called-fill_slots [] called = tt
  Called-fill_slots ((seq, message) ∷ rest) called =
      Entries-insert CalledSlot seq _ (fill_slots rest) called.0 (Called-fill_slots rest called.1)

  pub Called-wire_slots :
      (m : Map ℤ PaxosSlot) → Entries CalledSlot m → Entries CalledMessage (wire_slots m)
  unfolding wire_slots to_protobuf
  Called-wire_slots [] called = tt
  Called-wire_slots ((seq, slot) ∷ rest) called =
      Entries-insert CalledMessage seq _ (wire_slots rest) called.0
        (Called-wire_slots rest called.1)

  pub Called-request_slots :
      (view : ℤ) (slots : Map ℤ PaxosSlot)
      → Entries SlotSound slots
      → Entries CalledSlot (request_slots view slots)
  unfolding request_slots announced
  Called-request_slots view [] sound = tt
  Called-request_slots view ((seq, slot) ∷ rest) sound =
      let others = Called-request_slots view rest sound.1 in
      elim (Bool-cases (is_decided slot.status)) [
        | inl done ↦ rw done (
            Entries-insert CalledSlot seq _ (request_slots view rest) (sound.0.decision done)
              others)
        | inr open_ ↦ rw open_ others
      ]

  pub Called-reply_slots :
      (view : ℤ) (received slots : Map ℤ PaxosSlot)
      → Entries SlotSound slots
      → Entries CalledSlot (reply_slots view received slots)
  unfolding reply_slots confirmed
  Called-reply_slots view received [] sound = tt
  Called-reply_slots view received ((seq, slot) ∷ rest) sound =
      let others = Called-reply_slots view received rest sound.1 in
      elim (Bool-cases (is_decided slot.status)) [
        | inr open_ ↦ rw open_ others
        | inl done ↦ elim (Option-cases (lookup seq received)) [
          | inr (known, found) ↦ rw (done, found) others
          | inl missing ↦
              rw (done, missing)
                (Entries-insert CalledSlot seq _ (reply_slots view received rest)
                  (sound.0.decision done) others)
        ]
      ]
