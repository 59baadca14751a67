-- ===== src/Paxos/Cell/Telling.antt =====
-- What `Learn` for one slot makes of a replica in a calm view.
use chubby.Prelude.{
  ℕ, String, ◌≡◌, refl, ap, ◌∙◌, ◌⊎◌, inl, inr, true, false, Option, Option-cases, none, some,
}
use chubby.Prelude.Int.{ℤ, pos, negsuc, ◌≤ℤ◌}
use chubby.Prelude.Map.{int_eq}
use chubby.Storage.{RocksDb, RocksDbWrapper, put}
use chubby.Paxos.Slot.{PaxosSlot, is_decided}
use chubby.Paxos.Messages.{Outcome, DecideRequest, DecideResponse}
use chubby.Paxos.KeyValue.{get_key_value}
use chubby.Paxos.Replica.{PaxosImpl}
use chubby.Paxos.Replica.Slots.{slot_at}
use chubby.Paxos.Acceptor.{learn}
use chubby.Paxos.Acceptor.Learning.{
  Leaves, slot_after, learns_nothing, learns_pair, learns_and_throws,
}
use chubby.Paxos.Cell.Keeping.{Keeps, IsCalm, Voting}

module _ (R : RocksDb) where
  -- What is written for a value, if it has the form `key#value`.
  abbrev pub written_pair : RocksDbWrapper R → Option (String × String) → RocksDbWrapper R
  written_pair db none = db
  written_pair db (some (key, value)) = (put R db key value).1

  abbrev pub after_value : String → RocksDbWrapper R → RocksDbWrapper R
  after_value value db = written_pair db (get_key_value value)

  module _ (seq : ℤ) (value : String) where
    -- Either nothing has been decided yet, or the value has, and it has been applied once.
    abbrev pub Outcomes : PaxosImpl (RocksDbWrapper R) → PaxosImpl (RocksDbWrapper R) → Type 0
    Outcomes s0 s =
        ((is_decided (slot_at s seq).status ≡ false) × (s.paxos_db ≡ s0.paxos_db))
        ⊎ ((is_decided (slot_at s seq).status ≡ true)
            × ((slot_at s seq).value ≡ value)
            × (s.paxos_db ≡ after_value value s0.paxos_db))

    pub record Told (s0 s : PaxosImpl (RocksDbWrapper R)) : Type 0 where
      pub keeps : Keeps seq s0 s
      pub outcome : Outcomes s0 s

    pub Voting-Told : (s0 s : PaxosImpl (RocksDbWrapper R)) → Voting seq s0 s → Told s0 s
    Voting-Told s0 s v = record { keeps = v.keeps; outcome = inl (v.open_, v.paxos_db) }

  module _ (view : ℕ) (s0 s : PaxosImpl (RocksDbWrapper R)) (calm : IsCalm view s)
      (request : DecideRequest) (kept : pos 0 ≤ℤ request.seq) where
    low_learn : s.lowest_slot ≤ℤ request.seq
    low_learn = rw calm.lowest_slot kept

    Keeps-Leaves :
        {reply : Outcome DecideResponse} {slot : PaxosSlot} {disk : RocksDbWrapper R}
        → Keeps request.seq s0 s
        → Leaves R s request reply slot disk (learn R request s)
        → Keeps request.seq s0 (learn R request s).1
    Keeps-Leaves k l = record {
      view = l.view ∙ k.view;
      lowest_slot = l.rest.lowest_slot ∙ k.lowest_slot;
      done = l.rest.done ∙ k.done;
      me = l.rest.me ∙ k.me;
      num_servers = l.rest.num_servers ∙ k.num_servers;
      first_port = l.rest.first_port ∙ k.first_port;
      is_dead = l.rest.is_dead ∙ k.is_dead;
      leader_dead = l.leader_dead ∙ k.leader_dead;
      leader_election_happened = l.rest.leader_election_happened ∙ k.leader_election_happened;
      others = λ j miss. l.log j ∙ rw miss (k.others j miss);
    }

    Told-Leaves :
        {reply : Outcome DecideResponse} {slot : PaxosSlot} {disk : RocksDbWrapper R}
        → Keeps request.seq s0 s
        → Leaves R s request reply slot disk (learn R request s)
        → is_decided slot.status ≡ true
        → slot.value ≡ request.value
        → disk ≡ after_value request.value s0.paxos_db
        → Told request.seq request.value s0 (learn R request s).1
          × (is_decided (slot_at (learn R request s).1 request.seq).status ≡ true)
    Told-Leaves k l known text db =
        let at = slot_after R s l in
        let now = ap (λ (x : PaxosSlot). is_decided x.status) at ∙ known in
        (
          record {
            keeps = Keeps-Leaves k l;
            outcome = inr (now, ap (λ (x : PaxosSlot). x.value) at ∙ text, l.disk_lem ∙ db);
          },
          now,
        )

    -- The slot is decided afterwards, and the value applied once, whether the handler replies or not.
    pub learn-Told :
        Told request.seq request.value s0 s
        → Told request.seq request.value s0 (learn R request s).1
          × (is_decided (slot_at (learn R request s).1 request.seq).status ≡ true)
    learn-Told t = elim t.outcome [
      | inr (known, text, db) ↦
          Told-Leaves t.keeps (learns_nothing R s request (negsuc 0) calm.done low_learn known)
            known text db
      | inl (open_, db) ↦ elim (Option-cases (get_key_value request.value)) [
        | inl form ↦
            Told-Leaves t.keeps
              (learns_and_throws R s request (negsuc 0) calm.done low_learn open_ form) refl refl
              (rw form db)
        | inr ((key, value), form) ↦
            Told-Leaves t.keeps
              (learns_pair R s request (negsuc 0) calm.done low_learn key value open_ form) refl
              refl (rw form (ap (λ d. (put R d key value).1) db))
      ]
    ]
