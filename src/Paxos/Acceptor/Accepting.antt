-- ===== src/Paxos/Acceptor/Accepting.antt =====
-- `Accept` on its three branches: the reply, and the replica that it leaves.
use chubby.Prelude.{◌≡◌, refl, false, ◌∙◌, ◌⊎◌, inl, inr, some, String, if◌then◌else◌, arith}
use chubby.Prelude.Int.{ℤ, pos, ◌≤ℤ◌, ◌<ℤ◌, ltb_ℤ, leb_ℤ, <ℤ-cases}
use chubby.Prelude.Map.{lookup, beq_refl, int_eq, ◌==◌}
use chubby.Paxos.Messages.{
  Outcome, replied, refused, invalid_argument, AcceptRequest, AcceptResponse,
}
use chubby.Paxos.Replica.{PaxosImpl, get_elem?, add_slots}
use chubby.Paxos.Replica.Slots.{slot_at, lookup-add_slots}
use chubby.Paxos.Acceptor.Parts.{
  SameBase, enter_old, log_stored, slots-raise_view, slots-raise_accepted,
}
use chubby.Paxos.Acceptor.{
  vote, raise_view, raise_accepted, store_slot, accept, decided_value, finish_vote,
}

module _ {Disk : Type 0} (null_text : String) (s : PaxosImpl Disk) where
  -- A vote: the reply tells the view that the replica was in, the slot holds the request's view and
  -- value, the replica is in the request's view, with the failure of the leader forgotten if that is a
  -- later one, and `highest_accepted_seq` covers the slot.
  pub record CastsVote (request : AcceptRequest) (d : ℤ)
      (result : Outcome AcceptResponse × PaxosImpl Disk) : Type 0 where
    pub reply :
        result.0
        ≡ replied (record {
          status = "OK";
          latest_done = d;
          value = decided_value null_text (slot_at s request.seq);
          view = s.view;
        })
    pub log :
        (j : ℤ)
        → lookup j result.1.slots ≡ (
            if request.seq == j
            then some (record (slot_at s request.seq) { n_a = request.view; v_a = request.value })
            else lookup j s.slots)
    pub view : result.1.view ≡ request.view
    pub leader_dead :
        result.1.leader_dead ≡ (if ltb_ℤ s.view request.view then false else s.leader_dead)
    pub missed_heartbeats :
        result.1.missed_heartbeats
        ≡ (if ltb_ℤ s.view request.view then pos 0 else s.missed_heartbeats)
    pub highest_slot : result.1.highest_slot ≡ s.highest_slot
    pub paxos_db : result.1.paxos_db ≡ s.paxos_db
    pub mark :
        result.1.highest_accepted_seq
        ≡ (if ltb_ℤ s.highest_accepted_seq request.seq then request.seq else s.highest_accepted_seq)
    pub rest : SameBase s result.1

  -- A refusal: the reply says so, and all that changes is that the slot exists and carries the
  -- replica's view.
  pub record RefusesVote (request : AcceptRequest) (d : ℤ)
      (result : Outcome AcceptResponse × PaxosImpl Disk) : Type 0 where
    pub reply :
        result.0
        ≡ replied (record {
          status = "REJECT";
          latest_done = d;
          value = decided_value null_text (slot_at s request.seq);
          view = s.view;
        })
    pub log :
        (j : ℤ)
        → lookup j result.1.slots ≡ (
            if request.seq == j
            then some (record (slot_at s request.seq) { n_a = s.view })
            else lookup j s.slots)
    pub view : result.1.view ≡ s.view
    pub leader_dead : result.1.leader_dead ≡ s.leader_dead
    pub missed_heartbeats : result.1.missed_heartbeats ≡ s.missed_heartbeats
    pub highest_slot : result.1.highest_slot ≡ s.highest_slot
    pub paxos_db : result.1.paxos_db ≡ s.paxos_db
    pub mark : result.1.highest_accepted_seq ≡ s.highest_accepted_seq
    pub rest : SameBase s result.1

  module _ (request : AcceptRequest) (d : ℤ) (known : get_elem? s.done s.me ≡ some d)
      (kept : s.lowest_slot ≤ℤ request.seq) where
    -- The replica after the sections that come before the vote.
    unfoldable pub before_vote : PaxosImpl Disk
    before_vote = raise_view request.view (add_slots request.seq s).1

    accept_at_vote : accept null_text request s ≡ (
        let slot = record (slot_at s request.seq) { n_a = s.view } in
        let (response, slot') = vote null_text request d slot in
        (
          replied response,
          finish_vote request
              (leb_ℤ s.view request.view)
              (store_slot request.seq slot' before_vote),
        ))
    unfolding accept before_vote
    accept_at_vote =
        ground (arith, lookup-add_slots s request.seq request.seq, beq_refl request.seq)

    slots-before_vote : before_vote.slots ≡ (add_slots request.seq s).1.slots
    unfolding before_vote
    slots-before_vote = slots-raise_view (add_slots request.seq s).1 request.seq request.view

    rest-before_vote : SameBase s before_vote
    unfolding before_vote raise_view add_slots
    rest-before_vote = record {
      done = ground arith;
      lowest_slot = ground arith;
      me = ground arith;
      num_servers = ground arith;
      first_port = ground arith;
      is_dead = ground arith;
      leader_election_happened = ground arith;
    }

    pub accept_newer :
        s.view ≤ℤ request.view
        → accept null_text request s ≡ (
          replied (record {
            status = "OK";
            latest_done = d;
            value = decided_value null_text (slot_at s request.seq);
            view = s.view;
          }),
          raise_accepted request.seq (
              store_slot request.seq
                (record (slot_at s request.seq) { n_a = request.view; v_a = request.value })
                before_vote),
        )
    unfolding vote
    accept_newer newer = accept_at_vote ∙ ground arith

    accept_older :
        request.view <ℤ s.view
        → accept null_text request s ≡ (
          replied (record {
            status = "REJECT";
            latest_done = d;
            value = decided_value null_text (slot_at s request.seq);
            view = s.view;
          }),
          store_slot request.seq (record (slot_at s request.seq) { n_a = s.view }) before_vote,
        )
    unfolding vote
    accept_older older = accept_at_vote ∙ ground arith

    casts_vote : s.view ≤ℤ request.view → CastsVote request d (accept null_text request s)
    unfolding before_vote raise_view raise_accepted add_slots store_slot
    casts_vote newer = rw (accept_newer newer) (record {
      reply = refl;
      log =
          λ j. rw slots-raise_accepted (log_stored s request.seq _ before_vote slots-before_vote j);
      view = ground arith;
      leader_dead = ground arith;
      missed_heartbeats = ground arith;
      highest_slot = ground arith;
      paxos_db = ground arith;
      mark = ground arith;
      rest = ground (arith, rest-before_vote);
    })

    refuses_vote : request.view <ℤ s.view → RefusesVote request d (accept null_text request s)
    unfolding before_vote raise_view add_slots store_slot
    refuses_vote older = rw (accept_older older) (record {
      reply = refl;
      log = log_stored s request.seq _ before_vote slots-before_vote;
      view = ground arith;
      leader_dead = ground arith;
      missed_heartbeats = ground arith;
      highest_slot = ground arith;
      paxos_db = ground arith;
      mark = ground arith;
      rest = ground (arith, rest-before_vote);
    })

  -- `Accept` when `done[me]` can be read: below `lowest_slot` it is refused and nothing changes; from
  -- the replica's view on it casts its vote, whatever number the slot has promised; and in an older
  -- view it refuses to vote. A request of a later view resets `leader_dead` and `missed_heartbeats`, and
  -- no other request touches them; the database is as it was.
  pub accept_outcomes :
      (request : AcceptRequest) (d : ℤ)
      → get_elem? s.done s.me ≡ some d
      → ((request.seq <ℤ s.lowest_slot)
          × (accept null_text request s ≡ (refused invalid_argument, s)))
        ⊎ ((s.lowest_slot ≤ℤ request.seq)
            × (s.view ≤ℤ request.view)
            × CastsVote request d (accept null_text request s))
        ⊎ ((s.lowest_slot ≤ℤ request.seq)
            × (request.view <ℤ s.view)
            × RefusesVote request d (accept null_text request s))
  unfolding accept
  accept_outcomes request d known = elim (<ℤ-cases request.seq s.lowest_slot) [
    | inl old ↦ inl (old, rw (enter_old s request.seq old, accept))
    | inr kept ↦ elim (<ℤ-cases request.view s.view) [
      | inl older ↦ inr (inr (kept, older, refuses_vote request d known kept older))
      | inr newer ↦ inr (inl (kept, newer, casts_vote request d known kept newer))
    ]
  ]
