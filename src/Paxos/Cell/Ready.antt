-- ===== src/Paxos/Cell/Ready.antt =====
-- A cell in which slot after slot can be decided.
use chubby.Prelude.{
  ℕ, ◌≤◌, String, ◌≡◌, refl, sym, ap, subst, ◌∙◌, ◌⊎◌, inl, inr, true, false, Bool-cases, some,
  List, [], ◌∷◌, ◌||◌, arith, if◌then◌else◌,
}
use chubby.Prelude.Int.{ℤ, pos, ◌≤ℤ◌, ◌<ℤ◌, ltb_ℤ}
use chubby.Prelude.Map.{lookup, insert, lookup-insert, beq_refl, ◌==◌, string_eq, int_eq}
use chubby.Storage.{RocksDb, RocksDbWrapper}
use chubby.Paxos.Slot.{PaxosSlot, is_decided}
use chubby.Paxos.Replica.{PaxosImpl, add_slots, found_or_new}
use chubby.Paxos.Replica.Slots.{slot_at}
use chubby.Paxos.Network.{Cluster}
use chubby.Paxos.Proposer.{Links, run, starts, start_at, leads, finished}
use chubby.Paxos.Proposer.Phases.{member}
use chubby.Paxos.Cell.{Near, Near-back, Near-refl, Near-insert, Near-map}
use chubby.Paxos.Cell.Keeping.{IsBlank, Keeps, Keeps-IsCalm, Keeps-add_slots}
use chubby.Paxos.Cell.Telling.{Told, after_value}
use chubby.Paxos.Cell.Rounds.{AllCalm}
use chubby.Paxos.Cell.Deciding.{reaches}
use chubby.Paxos.Cell.Opening.{IsOpen, start-Near, start_decides}

module _ {Disk : Type 0} (seq j : ℤ) where
  pub Keeps-slot_at :
      {s0 s : PaxosImpl Disk} → Keeps seq s0 s → (seq == j) ≡ false → slot_at s j ≡ slot_at s0 j
  unfolding slot_at
  Keeps-slot_at k other = rw (k.others j other, k.view) refl

module _ {Disk : Type 0} (seq : ℤ) where
  Keeps-refl : (s : PaxosImpl Disk) → Keeps seq s s
  Keeps-refl s = record {
    view = refl;
    lowest_slot = refl;
    done = refl;
    me = refl;
    num_servers = refl;
    first_port = refl;
    is_dead = refl;
    leader_dead = refl;
    leader_election_happened = refl;
    others = λ j miss. refl;
  }

  Keeps-trans : {s t u : PaxosImpl Disk} → Keeps seq s t → Keeps seq t u → Keeps seq s u
  Keeps-trans k l = record {
    view = l.view ∙ k.view;
    lowest_slot = l.lowest_slot ∙ k.lowest_slot;
    done = l.done ∙ k.done;
    me = l.me ∙ k.me;
    num_servers = l.num_servers ∙ k.num_servers;
    first_port = l.first_port ∙ k.first_port;
    is_dead = l.is_dead ∙ k.is_dead;
    leader_dead = l.leader_dead ∙ k.leader_dead;
    leader_election_happened = l.leader_election_happened ∙ k.leader_election_happened;
    others = λ j miss. l.others j miss ∙ k.others j miss;
  }

  add_slots-known :
      (s : PaxosImpl Disk)
      → is_decided (slot_at s seq).status ≡ true
      → is_decided (slot_at (add_slots seq s).1 seq).status ≡ true
  unfolding add_slots slot_at found_or_new
  add_slots-known s known =
      rw (lookup-insert seq seq (record (slot_at s seq) { n_a = s.view }) s.slots, beq_refl seq)
        known

  add_slots-paxos_db : (s : PaxosImpl Disk) → (add_slots seq s).1.paxos_db ≡ s.paxos_db
  unfolding add_slots
  add_slots-paxos_db s = refl

pub Keeps-leads :
    {Disk : Type 0} {s0 s : PaxosImpl Disk} (seq : ℤ) → Keeps seq s0 s → leads s ≡ leads s0
unfolding leads
Keeps-leads seq k = rw (k.view, k.num_servers, k.me) refl

module _ (R : RocksDb) (view : ℕ) (self : String) where
  -- In a calm view, with a leader at an address and its database open, each slot is decided at the
  -- leader or blank everywhere.
  pub record IsReady (cluster : Cluster (RocksDbWrapper R)) : Type 0 where
    pub calm : AllCalm view cluster
    pub leader : PaxosImpl (RocksDbWrapper R)
    pub here : lookup self cluster ≡ some leader
    pub lead : leads leader ≡ true
    pub slots :
        (seq : ℤ)
        → pos 0 ≤ℤ seq
        → (is_decided (slot_at leader seq).status ≡ true)
          ⊎ ((a : String) (s : PaxosImpl (RocksDbWrapper R))
              → lookup a cluster ≡ some s
              → IsBlank (slot_at s seq))

  -- What a run for a slot that is not negative leaves.
  pub record Advanced (seq : ℤ) (v : String) (cluster now : Cluster (RocksDbWrapper R))
      (ready : IsReady cluster) : Type 0 where
    pub near : Near (Keeps seq) cluster now
    pub leader : PaxosImpl (RocksDbWrapper R)
    pub here : lookup self now ≡ some leader
    pub known : is_decided (slot_at leader seq).status ≡ true
    pub keeps : Keeps seq ready.leader leader
    pub paxos_db : leader.paxos_db ≡ (
        if is_decided (slot_at ready.leader seq).status
        then ready.leader.paxos_db
        else after_value R v ready.leader.paxos_db)

  module _ (seq : ℤ) (v : String) (cluster now : Cluster (RocksDbWrapper R))
      (ready : IsReady cluster) (done : Advanced seq v cluster now ready) where
    pub slots_after :
        (j : ℤ)
        → pos 0 ≤ℤ j
        → (is_decided (slot_at done.leader j).status ≡ true)
          ⊎ ((a : String) (s : PaxosImpl (RocksDbWrapper R))
              → lookup a now ≡ some s
              → IsBlank (slot_at s j))
    slots_after j kept = elim (Bool-cases (seq == j)) [
      | inl hit ↦
          let same = (int_eq.same_iff seq j).0 hit in
          inl (subst (λ n. is_decided (slot_at done.leader n).status ≡ true) same done.known)
      | inr other ↦ elim (ready.slots j kept) [
        | inl known ↦ inl (
            ap (λ (x : PaxosSlot). is_decided x.status) (Keeps-slot_at seq j done.keeps other)
            ∙ known)
        | inr blank ↦ inr (λ a s there.
            let (s0, was, k) = Near-back (Keeps seq) a cluster now s done.near there in
            subst IsBlank (sym (Keeps-slot_at seq j k other)) (blank a s0 was))
      ]
    ]

    unfoldable pub ready_after : IsReady now
    ready_after = record {
      calm = λ a s there.
          let (s0, was, k) = Near-back (Keeps seq) a cluster now s done.near there in
          Keeps-IsCalm k (ready.calm a s0 was);
      leader = done.leader;
      here = done.here;
      lead = Keeps-leads seq done.keeps ∙ ready.lead;
      slots = slots_after;
    }

  module _ (stubs : ℕ) (first second : Links) (more : List Links) (seq : ℤ) (v : String)
      (cluster : Cluster (RocksDbWrapper R)) (ready : IsReady cluster) where
    -- A negative slot is below `lowest_slot`.
    pub start_negative :
        seq <ℤ pos 0
        → run R "" stubs (first ∷ second ∷ more) (starts self seq v) [] cluster
          ≡ (finished, cluster)
    unfolding run start_at member
    start_negative low =
        let old : ltb_ℤ seq ready.leader.lowest_slot ≡ true =
          ground (arith, low, (ready.calm self ready.leader ready.here).lowest_slot) in
        rw (ready.here, start_at, old) refl

    -- A slot that the leader has decided.
    decided_run :
        pos 0 ≤ℤ seq
        → is_decided (slot_at ready.leader seq).status ≡ true
        → run R "" stubs (first ∷ second ∷ more) (starts self seq v) [] cluster
          ≡ (finished, insert self (add_slots seq ready.leader).1 cluster)
    unfolding run start_at member add_slots slot_at
    decided_run kept known =
        let new : ltb_ℤ seq ready.leader.lowest_slot ≡ false =
          ground (arith, kept, (ready.calm self ready.leader ready.here).lowest_slot) in
        let ends : (is_decided (add_slots seq ready.leader).0.status || ready.leader.is_dead)
            ≡ true =
          ground (arith, known) in
        rw (ready.here, start_at, new, ends) refl

    pub decided-Advanced :
        pos 0 ≤ℤ seq
        → is_decided (slot_at ready.leader seq).status ≡ true
        → Advanced seq v cluster
            (run R "" stubs (first ∷ second ∷ more) (starts self seq v) [] cluster).1
            ready
    decided-Advanced kept known =
        let s' = (add_slots seq ready.leader).1 in
        rw (decided_run kept known) (record {
          near =
              Near-insert (Keeps seq) self cluster cluster ready.leader s'
                (Near-refl (Keeps seq) cluster (λ a s was. Keeps-refl seq s)) ready.here
                (λ s0 was k. Keeps-trans seq k (Keeps-add_slots seq ready.leader));
          leader = s';
          here = lookup-insert self self s' cluster ∙ rw (beq_refl self) refl;
          known = add_slots-known seq ready.leader known;
          keeps = Keeps-add_slots seq ready.leader;
          paxos_db = add_slots-paxos_db seq ready.leader ∙ rw known refl;
        })

    pub blank-Advanced :
        2 ≤ stubs
        → pos 0 ≤ℤ seq
        → reaches self second.learns ≡ true
        → is_decided (slot_at ready.leader seq).status ≡ false
        → Advanced seq v cluster
            (run R "" stubs (first ∷ second ∷ more) (starts self seq v) [] cluster).1
            ready
    blank-Advanced many kept reached open_ = elim (ready.slots seq kept) [
      | inl known ↦ cc
      | inr blank ↦
          let ready' : IsOpen view seq cluster = record { calm = ready.calm; blank = blank } in
          let (ends, (t, there, has)) =
            start_decides R stubs first second more view seq v self cluster ready.leader many kept
              ready.here ready.lead ready' self ready.leader ready.here reached in
          record {
            near =
                Near-map (Told R seq v) (Keeps seq) cluster _ (λ a s0 s was told. told.keeps)
                  (start-Near R stubs first second more view seq v self cluster ready.leader many
                    kept ready.here ready.lead ready');
            leader = t;
            here = there;
            known = has.status;
            keeps = has.keeps;
            paxos_db = has.paxos_db ∙ rw open_ refl;
          }
    ]

    -- A run for a slot that is not negative, with a learn request that reaches the leader.
    pub run-Advanced :
        2 ≤ stubs
        → pos 0 ≤ℤ seq
        → reaches self second.learns ≡ true
        → Advanced seq v cluster
            (run R "" stubs (first ∷ second ∷ more) (starts self seq v) [] cluster).1
            ready
    run-Advanced many kept reached =
        elim (Bool-cases (is_decided (slot_at ready.leader seq).status)) [
          | inl known ↦ decided-Advanced kept known
          | inr open_ ↦ blank-Advanced many kept reached open_
        ]
