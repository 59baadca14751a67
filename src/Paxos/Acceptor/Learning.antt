-- ===== src/Paxos/Acceptor/Learning.antt =====
-- `Learn` on all its branches, and that a decided value stays.
use chubby.Prelude.{
  ◌≡◌, refl, sym, ◌∙◌, ap, ◌⊎◌, inl, inr, some, none, String, true, false, if◌then◌else◌, arith,
  Bool-cases, Option-cases,
}
use chubby.Prelude.Int.{ℤ, ◌≤ℤ◌, ◌<ℤ◌, <ℤ-cases}
use chubby.Prelude.Map.{lookup, beq_refl, int_eq, ◌==◌}
use chubby.Storage.{RocksDb, RocksDbWrapper, put}
use chubby.Paxos.Slot.{PaxosSlot, is_decided, decided}
use chubby.Paxos.Messages.{
  Outcome, replied, refused, threw, invalid_argument, DecideRequest, DecideResponse,
}
use chubby.Paxos.KeyValue.{get_key_value}
use chubby.Paxos.Replica.{PaxosImpl, get_elem?, add_slots, found_or_new}
use chubby.Paxos.Replica.Slots.{slot_at, lookup-add_slots}
use chubby.Paxos.Acceptor.{decide, raise_slot, store_slot, apply_value, learn, finish_learn}
use chubby.Paxos.Acceptor.Parts.{SameBase, enter_old, log_stored, slots-raise_slot}

module _ (R : RocksDb) (s : PaxosImpl (RocksDbWrapper R)) where
  -- The result of a learn request that reaches the slot: the log has the given slot, and the
  -- database is the given one.
  pub record Leaves (request : DecideRequest) (reply : Outcome DecideResponse) (slot : PaxosSlot)
      (disk : RocksDbWrapper R) (result : Outcome DecideResponse × PaxosImpl (RocksDbWrapper R))
      : Type 0 where
    pub reply_lem : result.0 ≡ reply
    pub log :
        (j : ℤ)
        → lookup j result.1.slots ≡ (if request.seq == j then some slot else lookup j s.slots)
    pub disk_lem : result.1.paxos_db ≡ disk
    pub view : result.1.view ≡ s.view
    pub leader_dead : result.1.leader_dead ≡ s.leader_dead
    pub rest : SameBase s result.1

  -- The slot with the replica's view in it, as `addSlots` leaves it, and as a decision leaves it.
  abbrev pub kept_slot : ℤ → PaxosSlot
  kept_slot seq = record (slot_at s seq) { n_a = s.view }

  abbrev pub decided_slot : ℤ → String → PaxosSlot
  decided_slot seq value = record (slot_at s seq) { n_a = s.view; status = decided; value = value }

  module _ (request : DecideRequest) (d : ℤ) (known : get_elem? s.done s.me ≡ some d)
      (kept : s.lowest_slot ≤ℤ request.seq) where
    pub before_decision : PaxosImpl (RocksDbWrapper R)
    before_decision = raise_slot request.seq (add_slots request.seq s).1

    slots-before_decision : before_decision.slots ≡ (add_slots request.seq s).1.slots
    unfolding before_decision
    slots-before_decision = slots-raise_slot (add_slots request.seq s).1 request.seq

    pub learn_at_decision :
        learn R request s
        ≡ finish_learn R
            (is_decided (slot_at s request.seq).status)
            request
            d
            (store_slot request.seq (decide request.value (kept_slot request.seq)) before_decision)
    unfolding learn before_decision
    learn_at_decision = ground (
      arith,
      lookup-add_slots s request.seq request.seq,
      beq_refl request.seq,
      slots-raise_slot (add_slots request.seq s).1 request.seq,
    )

    Leaves-of_eq :
        (reply : Outcome DecideResponse) (slot : PaxosSlot) (disk : RocksDbWrapper R)
        → learn R request s
          ≡ (reply, record (store_slot request.seq slot before_decision) { paxos_db = disk })
        → Leaves request reply slot disk (learn R request s)
    unfolding before_decision raise_slot add_slots store_slot
    Leaves-of_eq reply slot disk e = rw e (record {
      reply_lem = refl;
      log = log_stored s request.seq slot before_decision slots-before_decision;
      disk_lem = refl;
      view = ground arith;
      leader_dead = ground arith;
      rest = record {
        done = ground arith;
        lowest_slot = ground arith;
        me = ground arith;
        num_servers = ground arith;
        first_port = ground arith;
        is_dead = ground arith;
        leader_election_happened = ground arith;
      };
    })

    pub learns_nothing :
        is_decided (slot_at s request.seq).status ≡ true
        → Leaves request
            (replied (record { latest_done = d }))
            (kept_slot request.seq)
            s.paxos_db
            (learn R request s)
    unfolding decide before_decision raise_slot add_slots store_slot
    learns_nothing old = Leaves-of_eq _ _ _ (learn_at_decision ∙ ground arith)

    pub learns_pair :
        (key value : String)
        → is_decided (slot_at s request.seq).status ≡ false
        → get_key_value request.value ≡ some (key, value)
        → Leaves request
            (replied (record { latest_done = d }))
            (decided_slot request.seq request.value)
            (put R s.paxos_db key value).1
            (learn R request s)
    unfolding decide before_decision raise_slot add_slots store_slot apply_value
    learns_pair key value new form = Leaves-of_eq _ _ _ (learn_at_decision ∙ ground arith)

    pub learns_and_throws :
        is_decided (slot_at s request.seq).status ≡ false
        → get_key_value request.value ≡ none
        → Leaves request threw
            (decided_slot request.seq request.value)
            s.paxos_db
            (learn R request s)
    unfolding decide before_decision raise_slot add_slots store_slot apply_value
    learns_and_throws new form = Leaves-of_eq _ _ _ (learn_at_decision ∙ ground arith)

  -- `Learn` when `done[me]` can be read. Below `lowest_slot` it is refused and nothing changes. A slot
  -- that is decided keeps its value, and the database its state. Otherwise the slot is decided with
  -- the request's value; if that has the form `key#value` the pair is put into the database and the
  -- handler replies, and if not the handler leaves by an exception, with the slot decided and nothing
  -- in the database.
  pub learn_outcomes :
      (request : DecideRequest) (d : ℤ)
      → get_elem? s.done s.me ≡ some d
      → ((request.seq <ℤ s.lowest_slot) × (learn R request s ≡ (refused invalid_argument, s)))
        ⊎ ((s.lowest_slot ≤ℤ request.seq)
            × (is_decided (slot_at s request.seq).status ≡ true)
            × Leaves request
                (replied (record { latest_done = d }))
                (kept_slot request.seq)
                s.paxos_db
                (learn R request s))
        ⊎ ((s.lowest_slot ≤ℤ request.seq)
            × (is_decided (slot_at s request.seq).status ≡ false)
            × ((pair : String × String) × (get_key_value request.value ≡ some pair)
                × Leaves request
                    (replied (record { latest_done = d }))
                    (decided_slot request.seq request.value)
                    (put R s.paxos_db pair.0 pair.1).1
                    (learn R request s)))
        ⊎ ((s.lowest_slot ≤ℤ request.seq)
            × (is_decided (slot_at s request.seq).status ≡ false)
            × (get_key_value request.value ≡ none)
            × Leaves request threw
                (decided_slot request.seq request.value)
                s.paxos_db
                (learn R request s))
  unfolding learn
  learn_outcomes request d known = elim (<ℤ-cases request.seq s.lowest_slot) [
    | inl old ↦ inl (old, rw (enter_old s request.seq old, learn))
    | inr kept ↦ elim (Bool-cases (is_decided (slot_at s request.seq).status)) [
      | inl done ↦ inr (inl (kept, done, learns_nothing request d known kept done))
      | inr open_ ↦ elim (Option-cases (get_key_value request.value)) [
        | inl form ↦
            inr (inr (inr (kept, open_, form, learns_and_throws request d known kept open_ form)))
        | inr (pair, form) ↦ inr (
            inr (
              inl (
                kept,
                open_,
                (pair, form, learns_pair request d known kept pair.0 pair.1 open_ form),
              )))
      ]
    ]
  ]

module _ (R : RocksDb) (s : PaxosImpl (RocksDbWrapper R)) where
  pub slot_after :
      {request : DecideRequest} {reply : Outcome DecideResponse} {slot : PaxosSlot}
      {disk : RocksDbWrapper R}
      → Leaves R s request reply slot disk (learn R request s)
      → slot_at (learn R request s).1 request.seq ≡ slot
  unfolding slot_at found_or_new
  slot_after {request} l = rw (l.log request.seq, beq_refl request.seq)

module _ (R : RocksDb) (s : PaxosImpl (RocksDbWrapper R)) where
  -- After a slot has been decided with a value of the form `key#value`, any later learn request for
  -- it, whatever its value, replies and leaves that slot's value and the database as they were.
  pub learn_again :
      (first second : DecideRequest) (d : ℤ) (key value : String)
      → get_elem? s.done s.me ≡ some d
      → s.lowest_slot ≤ℤ first.seq
      → is_decided (slot_at s first.seq).status ≡ false
      → get_key_value first.value ≡ some (key, value)
      → second.seq ≡ first.seq
      → let t = (learn R first s).1 in
        let u = (learn R second t).1 in
        ((learn R second t).0 ≡ replied (record { latest_done = d }))
        × ((slot_at u first.seq).value ≡ first.value)
        × (u.paxos_db ≡ (put R s.paxos_db key value).1)
  learn_again first second d key value known kept new form same = (
    again.reply_lem,
    ap (λ k. (slot_at (learn R second t).1 k).value) (sym same)
        ∙ ap (λ (x : PaxosSlot). x.value) (slot_after R t again)
        ∙ ap (λ (x : PaxosSlot). x.value) at_slot,
    again.disk_lem ∙ once.disk_lem,
  )
    where
      t : PaxosImpl (RocksDbWrapper R)
      t = (learn R first s).1

      once :
          Leaves R s first
            (replied (record { latest_done = d }))
            (decided_slot R s first.seq first.value)
            (put R s.paxos_db key value).1
            (learn R first s)
      once = learns_pair R s first d known kept key value new form

      at_slot : slot_at t second.seq ≡ decided_slot R s first.seq first.value
      at_slot = rw same (slot_after R s once)

      again :
          Leaves R t second
            (replied (record { latest_done = d }))
            (kept_slot R t second.seq)
            t.paxos_db
            (learn R second t)
      again =
          learns_nothing R t second d (rw (once.rest.done, once.rest.me) known)
            (rw (once.rest.lowest_slot, same) kept) (rw at_slot)
