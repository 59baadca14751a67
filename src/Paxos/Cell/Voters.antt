-- ===== src/Paxos/Cell/Voters.antt =====
-- `Prepare` and `Accept` on a replica in a calm view.
use chubby.Prelude.{ℕ, ◌≡◌, refl, sym, ap, subst, ◌∙◌, false, if◌then◌else◌, arith}
use chubby.Prelude.Int.{ℤ, pos, negsuc, ◌≤ℤ◌, ltb_ℤ}
use chubby.Prelude.Map.{int_eq}
use chubby.Paxos.Slot.{PaxosSlot, is_decided}
use chubby.Paxos.Messages.{replied, PrepareRequest, PrepareResponse, AcceptRequest, AcceptResponse}
use chubby.Paxos.Replica.{PaxosImpl, add_slots}
use chubby.Paxos.Replica.Slots.{slot_at}
use chubby.Paxos.Acceptor.{
  prepare, accept, promise, decided_value, store_slot, raise_view, raise_accepted,
}
use chubby.Paxos.Acceptor.Promising.{prepare_at_promise}
use chubby.Paxos.Acceptor.Accepting.{accept_newer, before_vote}
use chubby.Paxos.Cell.Keeping.{
  IsBlank, Asked, Voting, IsCalm, Keeps-store, Keeps-add_slots, stored_slot,
}

promise-IsBlank :
    (request : PrepareRequest) (d : ℤ) (slot : PaxosSlot)
    → IsBlank slot
    → IsBlank (promise "" request d slot).1
unfolding promise
promise-IsBlank request d slot b = ground (arith, b)

promise_reply :
    (request : PrepareRequest) (d : ℤ) (slot : PaxosSlot)
    → IsBlank slot
    → let r = (promise "" request d slot).0 in (r.n_a ≡ slot.n_a) × (r.v_a ≡ "") × (r.value ≡ "")
unfolding promise
promise_reply request d slot b = ground (arith, b)

module _ {Disk : Type 0} where
  raise_view_same : (view : ℤ) (s : PaxosImpl Disk) → s.view ≡ view → raise_view view s ≡ s
  unfolding raise_view
  raise_view_same view s e = ground arith

  kept_view : (seq : ℤ) (s : PaxosImpl Disk) → (add_slots seq s).1.view ≡ s.view
  unfolding add_slots
  kept_view seq s = refl

  raised_accepted :
      (seq : ℤ) (s : PaxosImpl Disk)
      → (mark : ℤ) × (raise_accepted seq s ≡ record s { highest_accepted_seq = mark })
  unfolding raise_accepted
  raised_accepted seq s =
      (if ltb_ℤ s.highest_accepted_seq seq then seq else s.highest_accepted_seq, ground arith)

module _ {Disk : Type 0} (seq : ℤ) (s0 : PaxosImpl Disk) where
  Voting-store :
      (s : PaxosImpl Disk) (slot : PaxosSlot)
      → is_decided slot.status ≡ false
      → Voting seq s0 s
      → Voting seq s0 (store_slot seq slot (add_slots seq s).1)
  unfolding store_slot add_slots
  Voting-store s slot open_ a = record {
    keeps = Keeps-store seq s0 s (add_slots seq s).1 slot refl a.keeps (Keeps-add_slots seq s);
    paxos_db = a.paxos_db;
    open_ = rw (stored_slot s seq slot (add_slots seq s).1 refl) open_;
  }

  Voting-raise_accepted :
      (s : PaxosImpl Disk) → Voting seq s0 s → Voting seq s0 (raise_accepted seq s)
  unfolding slot_at
  Voting-raise_accepted s a = rw (raised_accepted seq s).1 (record {
    keeps = record {
      view = a.keeps.view;
      lowest_slot = a.keeps.lowest_slot;
      done = a.keeps.done;
      me = a.keeps.me;
      num_servers = a.keeps.num_servers;
      first_port = a.keeps.first_port;
      is_dead = a.keeps.is_dead;
      leader_dead = a.keeps.leader_dead;
      leader_election_happened = a.keeps.leader_election_happened;
      others = a.keeps.others;
    };
    paxos_db = a.paxos_db;
    open_ = a.open_;
  })

module _ {Disk : Type 0} (view : ℕ) (s0 s : PaxosImpl Disk) (calm : IsCalm view s) where
  module _ (request : PrepareRequest) (kept : pos 0 ≤ℤ request.seq) where
    low_prepare : s.lowest_slot ≤ℤ request.seq
    low_prepare = rw calm.lowest_slot kept

    asked_slot : PaxosSlot
    asked_slot = record (slot_at s request.seq) { n_a = s.view }

    promised : PaxosSlot
    unfolding asked_slot
    promised = (promise "" request (negsuc 0) asked_slot).1

    prepared : prepare "" request s ≡ (
      replied (promise "" request (negsuc 0) asked_slot).0,
      store_slot request.seq promised (add_slots request.seq s).1,
    )
    unfolding promised asked_slot
    prepared = prepare_at_promise "" s request (negsuc 0) calm.done low_prepare

    pub prepare-Asked : Asked request.seq s0 s → Asked request.seq s0 (prepare "" request s).1
    unfolding promised asked_slot store_slot add_slots
    prepare-Asked a = rw prepared (record {
      keeps =
          Keeps-store request.seq s0 s (add_slots request.seq s).1 promised refl a.keeps
            (Keeps-add_slots request.seq s);
      paxos_db = a.paxos_db;
      blank =
          subst IsBlank (sym (stored_slot s request.seq promised (add_slots request.seq s).1 refl))
            (promise-IsBlank request (negsuc 0) asked_slot
              (record { v_a = a.blank.v_a; open_ = a.blank.open_ }));
    })

    -- A reply of a replica whose slot is blank, if it is a promise.
    pub prepare-blank_reply :
        (response : PrepareResponse)
        → IsBlank (slot_at s request.seq)
        → (prepare "" request s).0 ≡ replied response
        → (response.n_a ≡ pos view) × (response.v_a ≡ "") × (response.value ≡ "")
    unfolding asked_slot
    prepare-blank_reply response blank e =
        let same : (promise "" request (negsuc 0) asked_slot).0 ≡ response =
          cc (ap (λ r. r.0) prepared) in
        let (n_a, v_a, value) =
          promise_reply request (negsuc 0) asked_slot
            (record { v_a = blank.v_a; open_ = blank.open_ }) in
        (
          ap (λ (r : PrepareResponse). r.n_a) (sym same) ∙ n_a ∙ calm.view_lem,
          ap (λ (r : PrepareResponse). r.v_a) (sym same) ∙ v_a,
          ap (λ (r : PrepareResponse). r.value) (sym same) ∙ value,
        )

  module _ (request : AcceptRequest) (kept : pos 0 ≤ℤ request.seq)
      (same_view : request.view ≡ pos view) where
    low_accept : s.lowest_slot ≤ℤ request.seq
    low_accept = rw calm.lowest_slot kept

    voted : PaxosSlot
    voted = record (slot_at s request.seq) { n_a = request.view; v_a = request.value }

    abbrev ok_reply : AcceptResponse
    ok_reply = record {
      status = "OK";
      latest_done = negsuc 0;
      value = decided_value "" (slot_at s request.seq);
      view = s.view;
    }

    not_raised :
        before_vote "" s request (negsuc 0) calm.done low_accept ≡ (add_slots request.seq s).1
    unfolding before_vote
    not_raised =
        raise_view_same request.view (add_slots request.seq s).1
          (kept_view request.seq s ∙ calm.view_lem ∙ sym same_view)

    accepted : accept "" request s ≡ (
      replied ok_reply,
      raise_accepted request.seq (store_slot request.seq voted (add_slots request.seq s).1),
    )
    unfolding voted
    accepted =
        accept_newer "" s request (negsuc 0) calm.done low_accept
          (rw (calm.view_lem, same_view) (omega arith))
        ∙ ap (λ t. (replied ok_reply, raise_accepted request.seq (store_slot request.seq voted t)))
            not_raised

    pub accept-Voting : Voting request.seq s0 s → Voting request.seq s0 (accept "" request s).1
    unfolding voted
    accept-Voting a =
        rw accepted
          (Voting-raise_accepted request.seq s0 _ (Voting-store request.seq s0 s voted a.open_ a))

    -- The reply of a replica whose slot is open.
    pub accept-open_reply :
        (response : AcceptResponse)
        → is_decided (slot_at s request.seq).status ≡ false
        → (accept "" request s).0 ≡ replied response
        → (response.latest_done ≡ negsuc 0) × (response.value ≡ "")
    accept-open_reply response open_ e =
        let same : ok_reply ≡ response = cc (ap (λ r. r.0) accepted) in
        (
          ap (λ (r : AcceptResponse). r.latest_done) (sym same),
          ap (λ (r : AcceptResponse). r.value) (sym same) ∙ rw open_,
        )
