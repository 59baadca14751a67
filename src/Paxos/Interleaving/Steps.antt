-- ===== src/Paxos/Interleaving/Steps.antt =====
-- The state of a cell with the messages that have been sent, and its steps: each is one critical
-- section of src/paxos/paxos_server.cpp, the loop that chooses a number, or the sending of one message. What a step does with a reply
-- that may be any is a step for every value of it.
use chubby.Prelude.{ℕ, String, true, some, List, ◌∷◌, ◌≡◌}
use chubby.Prelude.Int.{ℤ}
use chubby.Prelude.Map.{Map, lookup, insert, int_eq, string_eq, nat_eq}
use chubby.Prelude.Entries.{Among}
use chubby.Storage.{RocksDb, RocksDbWrapper}
use chubby.Paxos.Slot.{PaxosSlot}
use chubby.Paxos.Messages.{
  Outcome, replied, refused, threw, undefined, ElectRequest, PrepareRequest, PrepareResponse,
  AcceptRequest, AcceptResponse, DecideRequest, HeartbeatRequest, HeartbeatResponse,
}
use chubby.Paxos.Replica.{PaxosImpl, add_slots}
use chubby.Paxos.Acceptor.{
  elect, promise, vote, decide, raise_view, raise_accepted, raise_slot, store_slot, apply_value,
}
use chubby.Paxos.Network.{Cluster}
use chubby.Paxos.Heartbeat.{heartbeat, begin_heartbeats, absorb}
use chubby.Paxos.Leader.{Tally, detect_leader_failure, clear_election, conclude}
use chubby.Paxos.Proposer.Phases.{Gathered, Votes, take_vote}
use chubby.Paxos.Interleaving.{
  Stage, called, admitted, choosing, preparing, prepared, accepting, telling, Proposal, may_propose,
  admit, pick_phase, begin_phase, end_phase, take_reply, after_votes,
}

-- The replicas, the runs of `StartOnNewSlot` by the number of their thread, and what has been sent. A
-- reply to a proposer stands with its request.
pub record World (R : RocksDb) : Type 0 where
  pub cell : Cluster (RocksDbWrapper R)
  pub threads : Map ℕ Proposal
  pub prepares : List PrepareRequest
  pub promises : List (PrepareRequest × PrepareResponse)
  pub accepts : List AcceptRequest
  pub votes : List (AcceptRequest × AcceptResponse)
  pub learns : List DecideRequest
  pub heartbeats : List HeartbeatRequest
  pub heartbeat_replies : List HeartbeatResponse

-- The critical sections of a replica that read no value of a slot from a message: `addSlots` in every
-- handler and in `Start`, `Elect`, the rise of `view`, of `highest_accepted_seq` and of
-- `highest_slot`, the detection of a failure, its end, and the last section of `Election`.
pub data Turn {Disk : Type 0} : PaxosImpl Disk → PaxosImpl Disk → Type 0 where
  opens : {s : PaxosImpl Disk} (seq : ℤ) → Turn s (add_slots seq s).1
  elects : {s : PaxosImpl Disk} (request : ElectRequest) → Turn s (elect request s).1
  raises : {s : PaxosImpl Disk} (view : ℤ) → Turn s (raise_view view s)
  marks : {s : PaxosImpl Disk} (seq : ℤ) → Turn s (raise_accepted seq s)
  stretches : {s : PaxosImpl Disk} (seq : ℤ) → Turn s (raise_slot seq s)
  detects : {s : PaxosImpl Disk} → Turn s (detect_leader_failure s).1
  clears : {s : PaxosImpl Disk} → Turn s (clear_election s)
  concludes :
      {s : PaxosImpl Disk} (target : ℤ) (stubs : ℕ) (t : Tally)
      → Turn s (conclude target stubs t s).1

abbrev pub with_reply : Outcome HeartbeatResponse → List HeartbeatResponse → List HeartbeatResponse
with_reply (replied response) replies = response ∷ replies
with_reply (refused code) replies = replies
with_reply threw replies = replies
with_reply undefined replies = replies

module _ {R : RocksDb} where
  -- The world with another state of one replica, and with another stage of one thread.
  abbrev pub place : String → PaxosImpl (RocksDbWrapper R) → World R → World R
  place self s w = record w { cell = insert self s w.cell }

  abbrev pub advance : ℕ → Proposal → Stage → World R → World R
  advance thread p stage w = record w {
    threads = insert thread (record p { stage = stage }) w.threads;
  }

module _ (R : RocksDb) (null_text : String) (stubs : ℕ) (Called : ℤ → String → Type 0) where
  -- The steps. `Called` tells with which slots and values `Start` is called, by a client or by a
  -- replica that forwards what it was called with.
  pub data Step : World R → World R → Type 0 where
    turns :
        {w : World R} {s t : PaxosImpl (RocksDbWrapper R)} (self : String)
        → lookup self w.cell ≡ some s
        → Turn s t
        → Step w (place self t w)
    -- `Start` makes a thread. It reads the view for it after it has released `mu`.
    starts :
        {w : World R} {s : PaxosImpl (RocksDbWrapper R)} (thread : ℕ) (self v : String)
        (seq my_view : ℤ)
        → lookup self w.cell ≡ some s
        → may_propose seq s ≡ true
        → Called seq v
        → Step w (record w {
          threads =
              insert thread
                (record { self = self; seq = seq; v = v; my_view = my_view; stage = called })
                w.threads;
        })
    admits :
        {w : World R} {s : PaxosImpl (RocksDbWrapper R)} (thread : ℕ) (p : Proposal)
        → lookup thread w.threads ≡ some p
        → p.stage ≡ called
        → lookup p.self w.cell ≡ some s
        → Step w (advance thread p (admit p s) w)
    picks :
        {w : World R} {s : PaxosImpl (RocksDbWrapper R)} (thread : ℕ) (p : Proposal)
        → lookup thread w.threads ≡ some p
        → p.stage ≡ admitted
        → lookup p.self w.cell ≡ some s
        → Step w (advance thread p (pick_phase p s) w)
    begins :
        {w : World R} {s : PaxosImpl (RocksDbWrapper R)} (thread : ℕ) (p : Proposal)
        → lookup thread w.threads ≡ some p
        → p.stage ≡ choosing
        → lookup p.self w.cell ≡ some s
        → Step w (advance thread p (begin_phase p s).0 (place p.self (begin_phase p s).1 w))
    asks :
        {w : World R} (thread : ℕ) (p : Proposal) (number : ℤ) (g : Gathered)
        (request : PrepareRequest)
        → lookup thread w.threads ≡ some p
        → p.stage ≡ preparing number g
        → request.seq ≡ p.seq
        → request.proposal_number ≡ number
        → Step w (record w { prepares = request ∷ w.prepares })
    -- The section of `Prepare` under the slot's mutex.
    promises :
        {w : World R} {s : PaxosImpl (RocksDbWrapper R)} (self : String) (request : PrepareRequest)
        (latest_done : ℤ) (slot : PaxosSlot)
        → Among request w.prepares
        → lookup self w.cell ≡ some s
        → lookup request.seq s.slots ≡ some slot
        → Step w
            (record (place self
              (store_slot request.seq (promise null_text request latest_done slot).1 s)
              w) {
                promises = (request, (promise null_text request latest_done slot).0) ∷ w.promises;
              })
    gathers :
        {w : World R} (thread : ℕ) (p : Proposal) (number : ℤ) (g : Gathered)
        (request : PrepareRequest) (response : PrepareResponse)
        → lookup thread w.threads ≡ some p
        → p.stage ≡ preparing number g
        → Among (request, response) w.promises
        → request.seq ≡ p.seq
        → Step w (advance thread p (take_reply stubs number response g) w)
    -- The loop ends with its last stub.
    exhausts :
        {w : World R} (thread : ℕ) (p : Proposal) (number : ℤ) (g : Gathered)
        → lookup thread w.threads ≡ some p
        → p.stage ≡ preparing number g
        → Step w (advance thread p (prepared g) w)
    settles :
        {w : World R} {s : PaxosImpl (RocksDbWrapper R)} (thread : ℕ) (p : Proposal) (g : Gathered)
        → lookup thread w.threads ≡ some p
        → p.stage ≡ prepared g
        → lookup p.self w.cell ≡ some s
        → Step w (advance thread p (end_phase g p s).0 (place p.self (end_phase g p s).1 w))
    proposes :
        {w : World R} (thread : ℕ) (p : Proposal) (value : String) (t : Votes)
        (request : AcceptRequest)
        → lookup thread w.threads ≡ some p
        → p.stage ≡ accepting value t
        → request.seq ≡ p.seq
        → request.view ≡ p.my_view
        → request.value ≡ value
        → Step w (record w { accepts = request ∷ w.accepts })
    -- The section of `Accept` under the slot's mutex.
    votes :
        {w : World R} {s : PaxosImpl (RocksDbWrapper R)} (self : String) (request : AcceptRequest)
        (latest_done : ℤ) (slot : PaxosSlot)
        → Among request w.accepts
        → lookup self w.cell ≡ some s
        → lookup request.seq s.slots ≡ some slot
        → Step w
            (record (place self
              (store_slot request.seq (vote null_text request latest_done slot).1 s)
              w) { votes = (request, (vote null_text request latest_done slot).0) ∷ w.votes })
    counts :
        {w : World R} (thread : ℕ) (p : Proposal) (value : String) (t : Votes)
        (request : AcceptRequest) (response : AcceptResponse)
        → lookup thread w.threads ≡ some p
        → p.stage ≡ accepting value t
        → Among (request, response) w.votes
        → request.seq ≡ p.seq
        → Step w (advance thread p (accepting value (take_vote p.seq (some response) t)) w)
    -- The threads of the accept phase are joined.
    joins :
        {w : World R} (thread : ℕ) (p : Proposal) (value : String) (t : Votes)
        → lookup thread w.threads ≡ some p
        → p.stage ≡ accepting value t
        → Step w (advance thread p (after_votes value t) w)
    tells :
        {w : World R} (thread : ℕ) (p : Proposal) (value : String) (request : DecideRequest)
        → lookup thread w.threads ≡ some p
        → p.stage ≡ telling value
        → request.seq ≡ p.seq
        → request.value ≡ value
        → Step w (record w { learns = request ∷ w.learns })
    -- The section of `Learn` under the slot's mutex, without its write to the database.
    learns :
        {w : World R} {s : PaxosImpl (RocksDbWrapper R)} (self : String) (request : DecideRequest)
        (slot : PaxosSlot)
        → Among request w.learns
        → lookup self w.cell ≡ some s
        → lookup request.seq s.slots ≡ some slot
        → Step w (place self (store_slot request.seq (decide request.value slot) s) w)
    writes :
        {w : World R} {s t : PaxosImpl (RocksDbWrapper R)} (self : String) (request : DecideRequest)
        → Among request w.learns
        → lookup self w.cell ≡ some s
        → apply_value R request.value s ≡ some t
        → Step w (place self t w)
    -- `SendHeartbeats` sends a request that its first section has made.
    announces :
        {w : World R} {s : PaxosImpl (RocksDbWrapper R)} (self : String)
        (request : HeartbeatRequest)
        → lookup self w.cell ≡ some s
        → begin_heartbeats s ≡ some (request.view, request.slots)
        → Step w (record w { heartbeats = request ∷ w.heartbeats })
    beats :
        {w : World R} {s : PaxosImpl (RocksDbWrapper R)} (self : String)
        (request : HeartbeatRequest)
        → Among request w.heartbeats
        → lookup self w.cell ≡ some s
        → Step w (record (place self (heartbeat request s).1 w) {
          heartbeat_replies = with_reply (heartbeat request s).0 w.heartbeat_replies;
        })
    absorbs :
        {w : World R} {s : PaxosImpl (RocksDbWrapper R)} (self : String)
        (response : HeartbeatResponse)
        → Among response w.heartbeat_replies
        → lookup self w.cell ≡ some s
        → Step w (place self (absorb (some response) s) w)

  -- What the world may come to.
  pub data Reach (w : World R) : World R → Type 0 where
    here : Reach w w
    next : {t u : World R} → Reach w t → Step t u → Reach w u
