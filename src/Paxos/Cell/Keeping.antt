-- ===== src/Paxos/Cell/Keeping.antt =====
-- What `Prepare`, `Accept` and `Learn` for one slot keep of a replica in a calm view.
use chubby.Prelude.{ℕ, ◌≡◌, refl, ◌∙◌, false, some}
use chubby.Prelude.Int.{ℤ, pos, negsuc}
use chubby.Prelude.Map.{lookup, lookup-insert, beq_refl, int_eq, ◌==◌}
use chubby.Paxos.Slot.{PaxosSlot, is_decided}
use chubby.Paxos.Replica.{PaxosImpl, get_elem?, add_slots, found_or_new}
use chubby.Paxos.Replica.Slots.{slot_at}
use chubby.Paxos.Proposer.{keep_highest}
use chubby.Paxos.Acceptor.{store_slot}
use chubby.Paxos.Acceptor.Parts.{log_stored}

-- A slot that nobody has voted in, or decided.
pub record IsBlank (slot : PaxosSlot) : Type 0 where
  pub v_a : slot.v_a ≡ ""
  pub open_ : is_decided slot.status ≡ false

module _ {Disk : Type 0} (seq : ℤ) where
  -- All but the slot, the marks of the highest slots, and the database.
  pub record Keeps (s0 s : PaxosImpl Disk) : Type 0 where
    pub view : s.view ≡ s0.view
    pub lowest_slot : s.lowest_slot ≡ s0.lowest_slot
    pub done : s.done ≡ s0.done
    pub me : s.me ≡ s0.me
    pub num_servers : s.num_servers ≡ s0.num_servers
    pub first_port : s.first_port ≡ s0.first_port
    pub is_dead : s.is_dead ≡ s0.is_dead
    pub leader_dead : s.leader_dead ≡ s0.leader_dead
    pub leader_election_happened : s.leader_election_happened ≡ s0.leader_election_happened
    pub others : (j : ℤ) → (seq == j) ≡ false → lookup j s.slots ≡ lookup j s0.slots

  -- A replica that has only been asked for promises, and one that has only been asked for promises
  -- and votes.
  pub record Asked (s0 s : PaxosImpl Disk) : Type 0 where
    pub keeps : Keeps s0 s
    pub paxos_db : s.paxos_db ≡ s0.paxos_db
    pub blank : IsBlank (slot_at s seq)

  pub record Voting (s0 s : PaxosImpl Disk) : Type 0 where
    pub keeps : Keeps s0 s
    pub paxos_db : s.paxos_db ≡ s0.paxos_db
    pub open_ : is_decided (slot_at s seq).status ≡ false

  pub Asked-Voting : (s0 s : PaxosImpl Disk) → Asked s0 s → Voting s0 s
  Asked-Voting s0 s a = record { keeps = a.keeps; paxos_db = a.paxos_db; open_ = a.blank.open_ }

-- A replica that takes requests for a slot in a view, with nothing forgotten.
pub record IsCalm {Disk : Type 0} (view : ℕ) (s : PaxosImpl Disk) : Type 0 where
  pub view_lem : s.view ≡ pos view
  pub lowest_slot : s.lowest_slot ≡ pos 0
  pub done : get_elem? s.done s.me ≡ some (negsuc 0)
  pub is_dead : s.is_dead ≡ false
  pub leader_dead : s.leader_dead ≡ false

module _ {Disk : Type 0} {view : ℕ} {seq : ℤ} where
  pub Keeps-IsCalm : {s0 s : PaxosImpl Disk} → Keeps seq s0 s → IsCalm view s0 → IsCalm view s
  Keeps-IsCalm {s0} {s} k c = record {
    view_lem = k.view ∙ c.view_lem;
    lowest_slot = k.lowest_slot ∙ c.lowest_slot;
    done = rw (k.done, k.me) c.done;
    is_dead = k.is_dead ∙ c.is_dead;
    leader_dead = k.leader_dead ∙ c.leader_dead;
  }

module _ {Disk : Type 0} (s : PaxosImpl Disk) (seq : ℤ) where
  -- The slot is stored in a replica that only differs in its marks.
  pub stored_slot :
      (slot : PaxosSlot) (t : PaxosImpl Disk)
      → t.slots ≡ (add_slots seq s).1.slots
      → slot_at (store_slot seq slot t) seq ≡ slot
  unfolding slot_at found_or_new
  stored_slot slot t e = rw (log_stored s seq slot t e seq, beq_refl seq)

  pub stored_others :
      (slot : PaxosSlot) (t : PaxosImpl Disk)
      → t.slots ≡ (add_slots seq s).1.slots
      → (j : ℤ) → (seq == j) ≡ false
      → lookup j (store_slot seq slot t).slots ≡ lookup j s.slots
  stored_others slot t e j miss = log_stored s seq slot t e j ∙ rw miss

module _ {Disk : Type 0} (seq : ℤ) (s0 s t : PaxosImpl Disk) (slot : PaxosSlot) where
  -- A slot is stored in a replica that keeps what `s` keeps.
  pub Keeps-store :
      t.slots ≡ (add_slots seq s).1.slots
      → Keeps seq s0 s
      → Keeps seq s t
      → Keeps seq s0 (store_slot seq slot t)
  unfolding store_slot
  Keeps-store e k l = record {
    view = l.view ∙ k.view;
    lowest_slot = l.lowest_slot ∙ k.lowest_slot;
    done = l.done ∙ k.done;
    me = l.me ∙ k.me;
    num_servers = l.num_servers ∙ k.num_servers;
    first_port = l.first_port ∙ k.first_port;
    is_dead = l.is_dead ∙ k.is_dead;
    leader_dead = l.leader_dead ∙ k.leader_dead;
    leader_election_happened = l.leader_election_happened ∙ k.leader_election_happened;
    others = λ j miss. stored_others s seq slot t e j miss ∙ k.others j miss;
  }

module _ {Disk : Type 0} (seq : ℤ) (s : PaxosImpl Disk) where
  pub Keeps-add_slots : Keeps seq s (add_slots seq s).1
  unfolding add_slots
  Keeps-add_slots = record {
    view = refl;
    lowest_slot = refl;
    done = refl;
    me = refl;
    num_servers = refl;
    first_port = refl;
    is_dead = refl;
    leader_dead = refl;
    leader_election_happened = refl;
    others = λ j miss. lookup-insert seq j _ s.slots ∙ rw miss;
  }

module _ {Disk : Type 0} (seq : ℤ) where
  pub Asked-refl : (s : PaxosImpl Disk) → IsBlank (slot_at s seq) → Asked seq s s
  Asked-refl s blank = record {
    keeps = record {
      view = refl;
      lowest_slot = refl;
      done = refl;
      me = refl;
      num_servers = refl;
      first_port = refl;
      is_dead = refl;
      leader_dead = refl;
      leader_election_happened = refl;
      others = λ j miss. refl;
    };
    paxos_db = refl;
    blank = blank;
  }

  -- A blank slot is stored in the replica.
  pub Asked-store :
      (s0 s : PaxosImpl Disk) (slot : PaxosSlot)
      → IsBlank slot
      → Asked seq s0 s
      → Asked seq s0 (store_slot seq slot s)
  unfolding store_slot slot_at found_or_new
  Asked-store s0 s slot blank a = record {
    keeps = record {
      view = a.keeps.view;
      lowest_slot = a.keeps.lowest_slot;
      done = a.keeps.done;
      me = a.keeps.me;
      num_servers = a.keeps.num_servers;
      first_port = a.keeps.first_port;
      is_dead = a.keeps.is_dead;
      leader_dead = a.keeps.leader_dead;
      leader_election_happened = a.keeps.leader_election_happened;
      others = λ j miss. lookup-insert seq j slot s.slots ∙ rw miss (a.keeps.others j miss);
    };
    paxos_db = a.paxos_db;
    blank = rw (lookup-insert seq seq slot s.slots, beq_refl seq) blank;
  }

  pub Asked-add_slots : (s0 s : PaxosImpl Disk) → Asked seq s0 s → Asked seq s0 (add_slots seq s).1
  unfolding store_slot add_slots slot_at
  Asked-add_slots s0 s a =
      Asked-store s0 s (record (slot_at s seq) { n_a = s.view })
        (record { v_a = a.blank.v_a; open_ = a.blank.open_ }) a

  pub Asked-keep_highest :
      (s0 s : PaxosImpl Disk) (highest_n : ℤ)
      → Asked seq s0 s
      → Asked seq s0 (keep_highest seq highest_n s)
  unfolding keep_highest
  Asked-keep_highest s0 s highest_n a =
      Asked-store s0 s (record (slot_at s seq) { highest_n = highest_n })
        (record { v_a = a.blank.v_a; open_ = a.blank.open_ }) a
