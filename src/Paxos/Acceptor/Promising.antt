-- ===== src/Paxos/Acceptor/Promising.antt =====
-- `Prepare` on its three branches.
use chubby.Prelude.{◌≡◌, refl, ◌∙◌, ◌⊎◌, inl, inr, some, String, if◌then◌else◌, arith}
use chubby.Prelude.Int.{ℤ, ◌≤ℤ◌, ◌<ℤ◌, <ℤ-cases}
use chubby.Prelude.Map.{lookup, beq_refl, int_eq, ◌==◌}
use chubby.Paxos.Messages.{
  Outcome, replied, refused, invalid_argument, PrepareRequest, PrepareResponse,
}
use chubby.Paxos.Replica.{PaxosImpl, get_elem?, add_slots}
use chubby.Paxos.Replica.Slots.{slot_at, lookup-add_slots}
use chubby.Paxos.Acceptor.{promise, store_slot, prepare, decided_value}
use chubby.Paxos.Acceptor.Parts.{SameBase, enter_old, log_stored}

module _ {Disk : Type 0} (null_text : String) (s : PaxosImpl Disk) where
  -- The reply to a prepare request, with the status and the number that it names. The number of the
  -- accepted value is always given as the replica's view.
  abbrev pub prepare_reply : PrepareRequest → ℤ → String → ℤ → PrepareResponse
  prepare_reply request d status highest_n = record {
    status = status;
    n_a = s.view;
    v_a = (slot_at s request.seq).v_a;
    highest_n = highest_n;
    latest_done = d;
    value = decided_value null_text (slot_at s request.seq);
  }

  -- The result of a prepare request: the given reply, and a log in which the slot has the given
  -- promise and the replica's view, and is otherwise as it was.
  pub record Answers (request : PrepareRequest) (reply : PrepareResponse) (n_p : ℤ)
      (result : Outcome PrepareResponse × PaxosImpl Disk) : Type 0 where
    pub reply_lem : result.0 ≡ replied reply
    pub log :
        (j : ℤ)
        → lookup j result.1.slots ≡ (
            if request.seq == j
            then some (record (slot_at s request.seq) { n_a = s.view; n_p = n_p })
            else lookup j s.slots)
    pub view : result.1.view ≡ s.view
    pub rest : SameBase s result.1

  module _ (request : PrepareRequest) (d : ℤ) (known : get_elem? s.done s.me ≡ some d)
      (kept : s.lowest_slot ≤ℤ request.seq) where
    pub prepare_at_promise : prepare null_text request s ≡ (
        let slot = record (slot_at s request.seq) { n_a = s.view } in
        let (response, slot') = promise null_text request d slot in
        (replied response, store_slot request.seq slot' (add_slots request.seq s).1))
    unfolding prepare
    prepare_at_promise =
        ground (arith, lookup-add_slots s request.seq request.seq, beq_refl request.seq)

    Answers-of_eq :
        (reply : PrepareResponse) (n_p : ℤ)
        → prepare null_text request s ≡ (
          replied reply,
          store_slot request.seq
              (record (slot_at s request.seq) { n_a = s.view; n_p = n_p })
              (add_slots request.seq s).1,
        )
        → Answers request reply n_p (prepare null_text request s)
    unfolding add_slots store_slot
    Answers-of_eq reply n_p e = rw e (record {
      reply_lem = refl;
      log = log_stored s request.seq _ (add_slots request.seq s).1 refl;
      view = refl;
      rest = record {
        done = refl;
        lowest_slot = refl;
        me = refl;
        num_servers = refl;
        first_port = refl;
        is_dead = refl;
        leader_election_happened = refl;
      };
    })

    gives_promise :
        (slot_at s request.seq).n_p <ℤ request.proposal_number
        → Answers request
            (prepare_reply request d "OK" request.proposal_number)
            request.proposal_number
            (prepare null_text request s)
    unfolding promise
    gives_promise newer = Answers-of_eq _ _ (prepare_at_promise ∙ ground arith)

    keeps_promise :
        request.proposal_number ≤ℤ (slot_at s request.seq).n_p
        → Answers request
            (prepare_reply request d "Reject" (slot_at s request.seq).n_p)
            (slot_at s request.seq).n_p
            (prepare null_text request s)
    unfolding promise
    keeps_promise older = Answers-of_eq _ _ (prepare_at_promise ∙ ground arith)

  -- `Prepare` when `done[me]` can be read: below `lowest_slot` it is refused and nothing changes; a
  -- number above the slot's promise is promised; and any other is rejected with the promise that
  -- stands. Whichever it answers, the reply gives the replica's view as the number of the accepted
  -- value, and the slot takes that number over.
  pub prepare_outcomes :
      (request : PrepareRequest) (d : ℤ)
      → get_elem? s.done s.me ≡ some d
      → ((request.seq <ℤ s.lowest_slot)
          × (prepare null_text request s ≡ (refused invalid_argument, s)))
        ⊎ ((s.lowest_slot ≤ℤ request.seq)
            × ((slot_at s request.seq).n_p <ℤ request.proposal_number)
            × Answers request
                (prepare_reply request d "OK" request.proposal_number)
                request.proposal_number
                (prepare null_text request s))
        ⊎ ((s.lowest_slot ≤ℤ request.seq)
            × (request.proposal_number ≤ℤ (slot_at s request.seq).n_p)
            × Answers request
                (prepare_reply request d "Reject" (slot_at s request.seq).n_p)
                (slot_at s request.seq).n_p
                (prepare null_text request s))
  unfolding prepare
  prepare_outcomes request d known = elim (<ℤ-cases request.seq s.lowest_slot) [
    | inl old ↦ inl (old, rw (enter_old s request.seq old, prepare))
    | inr kept ↦ elim (<ℤ-cases (slot_at s request.seq).n_p request.proposal_number) [
      | inl newer ↦ inr (inl (kept, newer, gives_promise request d known kept newer))
      | inr older ↦ inr (inr (kept, older, keeps_promise request d known kept older))
    ]
  ]
