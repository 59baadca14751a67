-- ===== src/Paxos/Cell/Rounds.antt =====
-- The three loops of a proposer over a cell in a calm view.
use chubby.Prelude.{
  ℕ, arith, ◌≤◌, String, ◌≡◌, refl, ap, ◌∙◌, inl, inr, false, Bool-cases, some, List, [], ◌∷◌, ◌||◌,
}
use chubby.Prelude.Int.{ℤ, pos, ◌≤ℤ◌}
use chubby.Prelude.Map.{lookup, string_eq}
use chubby.Paxos.Messages.{replied, PrepareRequest, PrepareResponse, AcceptRequest}
use chubby.Paxos.Replica.{PaxosImpl}
use chubby.Paxos.Acceptor.{prepare, accept}
use chubby.Paxos.Network.{Cluster, Delivery, delivered, lost, reply_lost, call}
use chubby.Paxos.Network.Calls.{call-Effect}
use chubby.Paxos.Proposer.Phases.{
  Gathered, Votes, hangs, member, gather, enough, latest_done, sender_id, prepare_loop, accept_loop,
  take_vote, count_vote,
}
use chubby.Paxos.Cell.{Near, Near-back, Near-call}
use chubby.Paxos.Cell.Keeping.{IsCalm, Asked, Voting, Keeps-IsCalm}
use chubby.Paxos.Cell.Voters.{prepare-Asked, prepare-blank_reply, accept-Voting, accept-open_reply}
use chubby.Paxos.Cell.Gathering.{IsBlankReply, IsGathering, gather-IsGathering}

-- Every replica of the cell is calm.
abbrev pub AllCalm : {Disk : Type 0} → ℕ → Cluster Disk → Type 0
AllCalm {Disk} view cluster =
    (address : String) (s : PaxosImpl Disk) → lookup address cluster ≡ some s → IsCalm view s

pub nobody_hangs : (address : String) (how : Delivery) → hangs [] address how ≡ false
unfolding hangs member
nobody_hangs address delivered = refl
nobody_hangs address lost = refl
nobody_hangs address reply_lost = refl

module _ {Disk : Type 0} (view : ℕ) (before : Cluster Disk) (calm : AllCalm view before) where
  module _ (request : PrepareRequest) (kept : pos 0 ≤ℤ request.seq) where
    call-Asked :
        (how : Delivery) (address : String) (now : Cluster Disk)
        → Near (Asked request.seq) before now
        → Near (Asked request.seq) before (call how address (prepare "" request) now).1
    call-Asked how address now near =
        Near-call (Asked request.seq) how address (prepare "" request) before now
          (λ s0 s was a.
            prepare-Asked view s0 s (Keeps-IsCalm a.keeps (calm address s0 was)) request kept a)
          near

    blank_response :
        (how : Delivery) (address : String) (now : Cluster Disk) (r : PrepareResponse)
        → Near (Asked request.seq) before now
        → (call how address (prepare "" request) now).0 ≡ some r
        → IsBlankReply view r
    blank_response how address now r near e =
        elim (call-Effect how address (prepare "" request) now) [
          | inl (no_reply, same) ↦ cc
          | inr (s, here, change, inl no_reply) ↦ cc
          | inr (s, here, change, inr (a, got, made)) ↦
              let same : a ≡ r = cc in
              let (s0, was, asked) = Near-back (Asked request.seq) address before now s near here in
              let still = Keeps-IsCalm asked.keeps (calm address s0 was) in
              let (n_a, v_a, value) =
                prepare-blank_reply view s0 s still request kept r asked.blank
                  (made ∙ ap replied same) in
              record { n_a = n_a; v_a = v_a; value = value }
        ]

  module _ (seq : ℤ) (kept : pos 0 ≤ℤ seq) where
    pub prepare_loop-IsGathering :
        (self v : String) (stubs : ℕ) (number : ℤ) (peers : List (String × Delivery)) (g : Gathered)
        (now : Cluster Disk)
        → 2 ≤ stubs
        → IsGathering view v g
        → Near (Asked seq) before now
        → let (stuck, g', now') = prepare_loop "" self [] stubs seq number peers g now in
          (stuck ≡ false) × IsGathering view v g' × Near (Asked seq) before now'
    unfolding prepare_loop
    prepare_loop-IsGathering self v stubs number [] g now many i near = (refl, i, near)
    prepare_loop-IsGathering self v stubs number ((address, how) ∷ rest) g now many i near =
        let request : PrepareRequest = record {
          seq = seq;
          proposal_number = number;
          latest_done = latest_done (lookup self now);
          sender_id = sender_id (lookup self now);
        } in
        let response = (call how address (prepare "" request) now).0 in
        let now' = (call how address (prepare "" request) now).1 in
        let near' = call-Asked request kept how address now near in
        let i' =
          gather-IsGathering view v stubs response g many
            (λ r e. blank_response request kept how address now r near e) i in
        let g' = (gather stubs response g).0 in
        elim (Bool-cases ((gather stubs response g).1 || enough stubs g')) [
          | inl stop ↦ rw (nobody_hangs address how, prepare_loop, stop) (refl, i', near')
          | inr go ↦
              rw (nobody_hangs address how, prepare_loop, go)
                (prepare_loop-IsGathering self v stubs number rest g' now' many i' near')
        ]

  module _ (request : AcceptRequest) (kept : pos 0 ≤ℤ request.seq)
      (same_view : request.view ≡ pos view) where
    call-Voting :
        (how : Delivery) (address : String) (now : Cluster Disk)
        → Near (Voting request.seq) before now
        → Near (Voting request.seq) before (call how address (accept "" request) now).1
    call-Voting how address now near =
        Near-call (Voting request.seq) how address (accept "" request) before now
          (λ s0 s was a.
            accept-Voting view s0 s (Keeps-IsCalm a.keeps (calm address s0 was)) request kept
              same_view a)
          near

    -- No reply tells of a decision.
    open_response :
        (how : Delivery) (address : String) (now : Cluster Disk) (t : Votes)
        → Near (Voting request.seq) before now
        → t.is_decided_acc ≡ false
        → (take_vote request.seq (call how address (accept "" request) now).0 t).is_decided_acc
          ≡ false
    unfolding take_vote count_vote
    open_response how address now t near undecided =
        elim (call-Effect how address (accept "" request) now) [
          | inl (no_reply, same) ↦ rw no_reply undecided
          | inr (s, here, change, inl no_reply) ↦ rw no_reply undecided
          | inr (s, here, change, inr (a, got, made)) ↦
              let (s0, was, voting) =
                Near-back (Voting request.seq) address before now s near here in
              let still = Keeps-IsCalm voting.keeps (calm address s0 was) in
              let (done, value) =
                accept-open_reply view s0 s still request kept same_view a voting.open_ made in
              rw (got, done, value) (ground (arith, kept, undecided))
        ]

  module _ (seq : ℤ) (kept : pos 0 ≤ℤ seq) where
    pub accept_loop-Voting :
        (self value : String) (peers : List (String × Delivery)) (t : Votes) (now : Cluster Disk)
        → t.is_decided_acc ≡ false
        → Near (Voting seq) before now
        → let (stuck, t', now') = accept_loop "" self [] seq (pos view) value peers t now in
          (stuck ≡ false) × (t'.is_decided_acc ≡ false) × Near (Voting seq) before now'
    unfolding accept_loop
    accept_loop-Voting self value [] t now undecided near = (refl, undecided, near)
    accept_loop-Voting self value ((address, how) ∷ rest) t now undecided near =
        let request : AcceptRequest = record {
          seq = seq;
          view = pos view;
          value = value;
          sender_id = sender_id (lookup self now);
          latest_done = latest_done (lookup self now);
        } in
        let (response, now') = call how address (accept "" request) now in
        let near' = call-Voting request kept refl how address now near in
        let undecided' = open_response request kept refl how address now t near undecided in
        rw (nobody_hangs address how, accept_loop)
          (accept_loop-Voting self value rest (take_vote seq response t) now' undecided' near')
