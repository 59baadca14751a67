-- ===== src/Paxos/Proposer/Lost.antt =====
-- The three loops of `StartOnNewSlot`, in src/paxos/paxos_server.cpp, when requests are lost.
use chubby.Prelude.{
  ℕ, String, ◌≡◌, ◌≢◌, refl, ◌⊎◌, inl, inr, false, Bool-cases, Option-cases, some, none, List, [],
  ◌∷◌, arith,
}
use chubby.Prelude.Int.{ℤ}
use chubby.Prelude.Map.{lookup, insert, string_eq}
use chubby.Storage.{RocksDb, RocksDbWrapper}
use chubby.Paxos.Messages.{Outcome, PrepareRequest, DecideRequest}
use chubby.Paxos.Replica.{PaxosImpl}
use chubby.Paxos.Acceptor.{prepare, learn}
use chubby.Paxos.Network.{Cluster, Delivery, delivered, lost, reply_lost, call, arrive}
use chubby.Paxos.Proposer.Phases.{
  Gathered, Votes, prepare_loop, accept_loop, learn_loop, gather, enough, member, hangs, take_vote,
  sender_id, latest_done,
}

-- No request arrives.
abbrev pub AllLost : List (String × Delivery) → Type 0
AllLost [] = Unit {0}
AllLost ((address, how) ∷ rest) = (how ≡ lost) × AllLost rest

-- The request to the peer arrives, and no other.
abbrev pub ReachesOnly : String → List (String × Delivery) → Type 0
ReachesOnly peer [] = ⊥
ReachesOnly peer ((address, how) ∷ rest) =
    ((address ≡ peer) × (how ≢ lost) × AllLost rest) ⊎ ((how ≡ lost) × ReachesOnly peer rest)

call_lost :
    {Disk A : Type 0} (address : String) (handler : PaxosImpl Disk → Outcome A × PaxosImpl Disk)
    (cluster : Cluster Disk)
    → call lost address handler cluster ≡ (none, cluster)
unfolding call arrive
call_lost address handler cluster = elim (Option-cases (lookup address cluster)) [
  | inl gone ↦ rw gone refl
  | inr (s, here) ↦ rw here refl
]

module _ {Disk : Type 0} (null_text : String) (self : String) (held : List String) where
  -- The loop goes on to its last stub, or leaves at once if the replies so far are enough.
  pub prepare_loop_lost :
      (stubs : ℕ) (seq number : ℤ) (peers : List (String × Delivery)) (g : Gathered)
      (cluster : Cluster Disk)
      → AllLost peers
      → prepare_loop null_text self held stubs seq number peers g cluster ≡ (false, g, cluster)
  unfolding prepare_loop hangs gather
  prepare_loop_lost stubs seq number [] g cluster all = refl
  prepare_loop_lost stubs seq number ((address, delivered) ∷ rest) g cluster all =
      absurd (ground (arith, all.0))
  prepare_loop_lost stubs seq number ((address, reply_lost) ∷ rest) g cluster all =
      absurd (ground (arith, all.0))
  prepare_loop_lost stubs seq number ((address, lost) ∷ rest) g cluster all =
      let more = prepare_loop_lost stubs seq number rest g cluster all.1 in
      let sender = lookup self cluster in
      let request : PrepareRequest = record {
        seq = seq;
        proposal_number = number;
        latest_done = latest_done sender;
        sender_id = sender_id sender;
      } in
      let unsent = call_lost address (prepare null_text request) cluster in
      elim (Bool-cases (enough stubs g)) [
        | inl over ↦ rw (prepare_loop, unsent, gather, over, unsent, gather) refl
        | inr on ↦ rw (prepare_loop, unsent, gather, on, unsent, gather) more
      ]

  pub accept_loop_lost :
      (seq my_view : ℤ) (value : String) (peers : List (String × Delivery)) (t : Votes)
      (cluster : Cluster Disk)
      → AllLost peers
      → accept_loop null_text self held seq my_view value peers t cluster ≡ (false, t, cluster)
  unfolding accept_loop hangs take_vote call arrive
  accept_loop_lost seq my_view value [] t cluster all = refl
  accept_loop_lost seq my_view value ((address, how) ∷ rest) t cluster all =
      let more = accept_loop_lost seq my_view value rest t cluster all.1 in
      elim (Option-cases (lookup address cluster)) [
        | inl gone ↦ rw (all.0, gone) more
        | inr (s, here) ↦ rw (all.0, here) more
      ]

module _ (R : RocksDb) (self : String) (held : List String) where
  -- The learn request for one peer.
  unfoldable pub request_of : ℤ → String → Cluster (RocksDbWrapper R) → DecideRequest
  request_of seq value cluster =
      let sender = lookup self cluster in
      record {
        seq = seq;
        value = value;
        sender_id = sender_id sender;
        latest_done = latest_done sender;
      }

  learn_loop_lost :
      (seq : ℤ) (value : String) (peers : List (String × Delivery))
      (cluster : Cluster (RocksDbWrapper R))
      → AllLost peers
      → learn_loop R self held seq value peers cluster ≡ (false, cluster)
  unfolding learn_loop hangs call arrive
  learn_loop_lost seq value [] cluster all = refl
  learn_loop_lost seq value ((address, how) ∷ rest) cluster all =
      let more = learn_loop_lost seq value rest cluster all.1 in
      elim (Option-cases (lookup address cluster)) [
        | inl gone ↦ rw (all.0, gone) more
        | inr (s, here) ↦ rw (all.0, here) more
      ]

  module _ (seq : ℤ) (value peer : String) (free : member peer held ≡ false) where
    learn_loop-step :
        (how : Delivery) (rest : List (String × Delivery)) (cluster : Cluster (RocksDbWrapper R))
        (s : PaxosImpl (RocksDbWrapper R))
        → how ≢ lost
        → AllLost rest
        → lookup peer cluster ≡ some s
        → learn_loop R self held seq value ((peer, how) ∷ rest) cluster
          ≡ (false, insert peer (learn R (request_of seq value cluster) s).1 cluster)
    unfolding learn_loop hangs call arrive request_of
    learn_loop-step lost rest cluster s arrives all here = absurd (arrives refl)
    learn_loop-step delivered rest cluster s arrives all here =
        let more =
          learn_loop_lost seq value rest
            (insert peer (learn R (request_of seq value cluster) s).1 cluster) all in
        rw (learn_loop, free, here, more) refl
    learn_loop-step reply_lost rest cluster s arrives all here =
        let more =
          learn_loop_lost seq value rest
            (insert peer (learn R (request_of seq value cluster) s).1 cluster) all in
        rw (learn_loop, free, here, more) refl

    pub learn_loop_told :
        (peers : List (String × Delivery)) (cluster : Cluster (RocksDbWrapper R))
        (s : PaxosImpl (RocksDbWrapper R))
        → ReachesOnly peer peers
        → lookup peer cluster ≡ some s
        → learn_loop R self held seq value peers cluster
          ≡ (false, insert peer (learn R (request_of seq value cluster) s).1 cluster)
    unfolding learn_loop hangs call arrive
    learn_loop_told [] cluster s told here = absurd told
    learn_loop_told ((address, how) ∷ rest) cluster s (inl (named, arrives, all)) here =
        rw named (learn_loop-step how rest cluster s arrives all here)
    learn_loop_told ((address, how) ∷ rest) cluster s (inr (gone, told)) here =
        let more = learn_loop_told rest cluster s told here in
        elim (Option-cases (lookup address cluster)) [
          | inl nobody ↦ rw (gone, nobody) more
          | inr (other, there) ↦ rw (gone, there) more
        ]
