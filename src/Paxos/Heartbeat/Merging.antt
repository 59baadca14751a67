-- ===== src/Paxos/Heartbeat/Merging.antt =====
-- `Heartbeat` on its three branches, and what becomes of the log.
use chubby.Prelude.{
  String, ◌≡◌, ◌≢◌, refl, ◌∙◌, ◌⊎◌, inl, inr, false, Bool-cases, Option, none, some, [], ◌∷◌,
  if◌then◌else◌, arith,
}
use chubby.Prelude.Int.{ℤ, pos, ◌<ℤ◌, ◌≤ℤ◌, <ℤ-cases, int_beq, int_beq_iff, eq_of_parts}
use chubby.Prelude.Map.{Map, lookup, int_eq, ◌==◌, beq_refl}
use chubby.Paxos.Slot.{PaxosSlot}
use chubby.Paxos.Messages.{Outcome, replied, refused, aborted, HeartbeatRequest, HeartbeatResponse}
use chubby.Paxos.Replica.{PaxosImpl, add_slots, found_or_new}
use chubby.Paxos.Replica.Slots.{slot_at}
use chubby.Paxos.Acceptor.{decide, store_slot, raise_view}
use chubby.Paxos.Acceptor.Parts.{log_stored}
use chubby.Paxos.Heartbeat.{merge_slot, merge_slots, heartbeat, fill_slots, reply_slots, wire_slots}

decide_twice :
    (first second : String) (view : ℤ) (slot : PaxosSlot)
    → decide second (record (decide first (record slot { n_a = view })) { n_a = view })
      ≡ decide first (record slot { n_a = view })
unfolding decide
decide_twice first second view slot = ground arith

module _ {Disk : Type 0} where
  -- The slot under a number, when a slot for it may have been received: without one it is as it was,
  -- and with one it is decided, by the value that it had if it was decided before.
  abbrev pub merged : PaxosImpl Disk → ℤ → Option PaxosSlot → Option PaxosSlot
  merged s j none = lookup j s.slots
  merged s j (some received) = some (decide received.value (record (slot_at s j) { n_a = s.view }))

  lookup-merge_slot :
      (seq j : ℤ) (value : String) (s : PaxosImpl Disk)
      → lookup j (merge_slot seq value s).slots ≡ (
          if seq == j
          then some (decide value (record (slot_at s seq) { n_a = s.view }))
          else lookup j s.slots)
  unfolding merge_slot slot_at
  lookup-merge_slot seq j value s = log_stored s seq _ (add_slots seq s).1 refl j

  -- What the merge of one slot leaves alone.
  pub record SameAround (s s' : PaxosImpl Disk) : Type 0 where
    pub view : s'.view ≡ s.view
    pub paxos_db : s'.paxos_db ≡ s.paxos_db
    pub done : s'.done ≡ s.done
    pub missed_heartbeats : s'.missed_heartbeats ≡ s.missed_heartbeats

  merge_slots-SameAround :
      (received : Map ℤ PaxosSlot) (s : PaxosImpl Disk) → SameAround s (merge_slots received s)
  unfolding merge_slots merge_slot store_slot add_slots
  merge_slots-SameAround [] s = record {
    view = refl;
    paxos_db = refl;
    done = refl;
    missed_heartbeats = refl;
  }
  merge_slots-SameAround ((seq, slot) ∷ rest) s =
      let more = merge_slots-SameAround rest (merge_slot seq slot.value s) in
      record {
        view = more.view;
        paxos_db = more.paxos_db;
        done = more.done;
        missed_heartbeats = more.missed_heartbeats;
      }

  view-merge_slot :
      (seq : ℤ) (value : String) (s : PaxosImpl Disk) → (merge_slot seq value s).view ≡ s.view
  unfolding merge_slot add_slots store_slot
  view-merge_slot seq value s = refl

  pub slot_at_found :
      (s : PaxosImpl Disk) (j : ℤ) (slot : PaxosSlot)
      → lookup j s.slots ≡ some slot
      → slot_at s j ≡ slot
  unfolding slot_at found_or_new
  slot_at_found s j slot e = rw e

  -- A slot that the merge of one slot does not touch, and the slot that it does.
  merged_other :
      (seq j : ℤ) (value : String) (s : PaxosImpl Disk) (found : Option PaxosSlot)
      → (seq == j) ≡ false
      → merged (merge_slot seq value s) j found ≡ merged s j found
  unfolding slot_at
  merged_other seq j value s none miss = lookup-merge_slot seq j value s ∙ rw miss
  merged_other seq j value s (some received) miss =
      rw (view-merge_slot seq value s, lookup-merge_slot seq j value s, miss)

  merged_same :
      (j : ℤ) (value : String) (s : PaxosImpl Disk) (found : Option PaxosSlot)
      → merged (merge_slot j value s) j found
        ≡ some (decide value (record (slot_at s j) { n_a = s.view }))
  unfolding decide slot_at lookup merge_slot
  merged_same j value s none = lookup-merge_slot j j value s ∙ rw (beq_refl j)
  merged_same j value s (some received) = rw (
    view-merge_slot j value s,
    slot_at_found (merge_slot j value s) j (decide value (record (slot_at s j) { n_a = s.view }))
        (lookup-merge_slot j j value s ∙ rw (beq_refl j)),
    decide_twice value received.value s.view (slot_at s j),
  )

  merged_step :
      (seq j : ℤ) (slot : PaxosSlot) (s : PaxosImpl Disk) (found : Option PaxosSlot)
      → merged (merge_slot seq slot.value s) j found
        ≡ merged s j (if seq == j then some slot else found)
  merged_step seq j slot s found = elim (Bool-cases (seq == j)) [
    | inl hit ↦ rw (hit, (int_beq_iff seq j).0 hit) (merged_same j slot.value s found)
    | inr miss ↦ rw miss (merged_other seq j slot.value s found miss)
  ]

  lookup-merge_slots :
      (received : Map ℤ PaxosSlot) (s : PaxosImpl Disk) (j : ℤ)
      → lookup j (merge_slots received s).slots ≡ merged s j (lookup j received)
  unfolding merge_slots lookup
  lookup-merge_slots [] s j = refl
  lookup-merge_slots ((seq, slot) ∷ rest) s j =
      lookup-merge_slots rest (merge_slot seq slot.value s) j
      ∙ merged_step seq j slot s (lookup j rest)

module _ {Disk : Type 0} (request : HeartbeatRequest) (s : PaxosImpl Disk) where
  -- The slots of the request.
  abbrev pub received_slots : Map ℤ PaxosSlot
  received_slots = fill_slots request.slots

  -- The state in which the slots of an accepted heartbeat are merged.
  abbrev pub adopted : PaxosImpl Disk
  adopted = record (raise_view request.view s) { done = request.done; missed_heartbeats = pos 0 }

  -- A heartbeat that is accepted: the replica is in the sender's view and has its `done`; every slot
  -- that was sent is decided, by the value that it had if it was decided before and by the value sent
  -- if not; every other slot is as it was; and nothing is written to the database.
  pub record Merged (result : Outcome HeartbeatResponse × PaxosImpl Disk) : Type 0 where
    pub reply :
        result.0
        ≡ replied (record {
          status = "";
          slots = wire_slots (reply_slots request.view received_slots s.slots);
        })
    pub log : (j : ℤ) → lookup j result.1.slots ≡ merged adopted j (lookup j received_slots)
    pub view : result.1.view ≡ request.view
    pub done : result.1.done ≡ request.done
    pub missed : result.1.missed_heartbeats ≡ pos 0
    pub paxos_db : result.1.paxos_db ≡ s.paxos_db

  raised : s.view ≤ℤ request.view → (raise_view request.view s).view ≡ request.view
  unfolding raise_view
  raised newer = ground (arith, eq_of_parts s.view request.view)

  pub raised_rest :
      ((raise_view request.view s).slots ≡ s.slots)
      × ((raise_view request.view s).paxos_db ≡ s.paxos_db)
  unfolding raise_view
  raised_rest = ground arith

  accepted :
      (int_beq (pos s.me) request.id) ≡ false
      → s.view ≤ℤ request.view
      → heartbeat request s ≡ (
        replied (record {
          status = "";
          slots = wire_slots (reply_slots adopted.view received_slots adopted.slots);
        }),
        merge_slots received_slots adopted,
      )
  unfolding heartbeat
  accepted other newer = ground arith

  pub merges :
      (int_beq (pos s.me) request.id) ≡ false
      → s.view ≤ℤ request.view
      → Merged (heartbeat request s)
  merges other newer =
      let around = merge_slots-SameAround received_slots adopted in
      rw (accepted other newer) (record {
        reply = rw (raised newer, raised_rest.0);
        log = lookup-merge_slots received_slots adopted;
        view = around.view ∙ raised newer;
        done = around.done;
        missed = around.missed_heartbeats;
        paxos_db = around.paxos_db ∙ raised_rest.1;
      })

  -- `Heartbeat`: one that the replica has sent itself only resets `missed_heartbeats`; one of an older
  -- view is refused and changes nothing; and any other is merged into the log.
  pub heartbeat_outcomes :
      ((pos s.me ≡ request.id)
        × (heartbeat request s ≡ (
          replied (record { status = ""; slots = [] }),
          record s { missed_heartbeats = pos 0 },
        )))
      ⊎ ((pos s.me ≢ request.id)
          × (request.view <ℤ s.view)
          × (heartbeat request s ≡ (refused aborted, s)))
      ⊎ ((pos s.me ≢ request.id) × (s.view ≤ℤ request.view) × Merged (heartbeat request s))
  unfolding heartbeat
  heartbeat_outcomes = elim (Bool-cases (int_beq (pos s.me) request.id)) [
    | inl mine ↦ inl ((int_beq_iff _ _).0 mine, rw (mine, heartbeat))
    | inr other ↦ elim (<ℤ-cases request.view s.view) [
      | inl older ↦ inr (inl (λ e. ground arith, older, ground arith))
      | inr newer ↦ inr (inr (λ e. ground arith, newer, merges other newer))
    ]
  ]
