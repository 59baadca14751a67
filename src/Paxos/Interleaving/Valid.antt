-- ===== src/Paxos/Interleaving/Valid.antt =====
-- Every step of the cell, src/paxos/paxos_server.cpp, keeps the values in the logs, the threads and the
-- messages among those with which `Start` is called.
pub mod Decided
use chubby.Prelude.{
  ℕ, ◌≤◌, String, true, Option, some, none, List, [], ◌∷◌, ◌≡◌, refl, sym, subst, inl, inr, arith,
}
use chubby.Prelude.Int.{ℤ}
use chubby.Prelude.Map.{Map, lookup, insert, int_eq, string_eq, nat_eq}
use chubby.Prelude.Entries.{All, All-Among, Among, Entries, Entries-insert, Entries-lookup}
use chubby.Storage.{RocksDb, RocksDbWrapper}
use chubby.Paxos.Slot.{PaxosSlot, is_decided}
use chubby.Paxos.Messages.{
  PrepareRequest, PrepareResponse, AcceptRequest, DecideRequest, HeartbeatRequest,
}
use chubby.Paxos.Replica.{PaxosImpl}
use chubby.Paxos.Acceptor.{promise, vote, decide, store_slot}
use chubby.Paxos.Interleaving.{Stage, Proposal, prepared, preparing, accepting, telling}
use chubby.Paxos.Interleaving.Steps.{
  World, Step, Reach, here, next, place, advance, turns, starts, admits, picks, begins, asks,
  promises, gathers, exhausts, settles, proposes, votes, counts, joins, tells, learns, writes,
  announces, beats, absorbs,
}
use chubby.Paxos.Interleaving.Sound.{
  SlotSound, LogSound, CalledMessage, LogSound-store_slot, SlotSound-decide,
}
use chubby.Paxos.Interleaving.Turns.{
  LogSound-Turn, SlotSound-promise, SlotSound-vote, CalledReply, LogSound-absorb,
  LogSound-heartbeat, Called-begin_heartbeats, slots-apply_value,
}
use chubby.Paxos.Interleaving.Phases.{
  ReplySound, StageSound, ReplySound-promise, StageSound-take_reply, StageSound-after_votes,
  StageSound-admit, StageSound-pick_phase, begin_phase-LogSound, end_phase-LogSound,
}

module _ (R : RocksDb) (stubs : ℕ) (several : 2 ≤ stubs) (Called : ℤ → String → Type 0) where
  abbrev Replica : Type 0
  Replica = PaxosImpl (RocksDbWrapper R)

  abbrev ReplicaSound : String → Replica → Type 0
  ReplicaSound address s = LogSound Called s

  abbrev ThreadSound : ℕ → Proposal → Type 0
  ThreadSound thread p = Called p.seq p.v × StageSound Called p.seq p.stage

  abbrev PromiseSound : PrepareRequest × PrepareResponse → Type 0
  PromiseSound (request, response) = ReplySound Called request.seq response

  abbrev AcceptSound : AcceptRequest → Type 0
  AcceptSound request = Called request.seq request.value

  abbrev LearnSound : DecideRequest → Type 0
  LearnSound request = Called request.seq request.value

  abbrev BeatSound : HeartbeatRequest → Type 0
  BeatSound request = Entries (CalledMessage Called) request.slots

  -- The invariant: every value in a log, in a thread and on the wire is one of its slot.
  pub record WorldSound (w : World R) : Type 0 where
    pub cell : Entries ReplicaSound w.cell
    pub threads : Entries ThreadSound w.threads
    pub promises : All PromiseSound w.promises
    pub accepts : All AcceptSound w.accepts
    pub learns : All LearnSound w.learns
    pub heartbeats : All BeatSound w.heartbeats
    pub heartbeat_replies : All (CalledReply Called) w.heartbeat_replies

  module _ (w : World R) (sound : WorldSound w) where
    replica_at : (self : String) (s : Replica) → lookup self w.cell ≡ some s → LogSound Called s
    replica_at self s at = Entries-lookup ReplicaSound self s w.cell sound.cell at

    thread_at :
        (thread : ℕ) (p : Proposal) → lookup thread w.threads ≡ some p → ThreadSound thread p
    thread_at thread p at = Entries-lookup ThreadSound thread p w.threads sound.threads at

    stage_at :
        (thread : ℕ) (p : Proposal) (stage : Stage)
        → lookup thread w.threads ≡ some p
        → p.stage ≡ stage
        → StageSound Called p.seq stage
    stage_at thread p stage at is = subst (StageSound Called p.seq) is (thread_at thread p at).1

    slot_in :
        (self : String) (s : Replica) (seq : ℤ) (slot : PaxosSlot)
        → lookup self w.cell ≡ some s
        → lookup seq s.slots ≡ some slot
        → SlotSound Called seq slot
    slot_in self s seq slot at found =
        Entries-lookup (SlotSound Called) seq slot s.slots (replica_at self s at) found

    place-WorldSound :
        (self : String) (s : Replica) → LogSound Called s → WorldSound (place self s w)
    place-WorldSound self s kept = record {
      cell = Entries-insert ReplicaSound self s w.cell kept sound.cell;
      threads = sound.threads;
      promises = sound.promises;
      accepts = sound.accepts;
      learns = sound.learns;
      heartbeats = sound.heartbeats;
      heartbeat_replies = sound.heartbeat_replies;
    }

    store_slot-WorldSound :
        (self : String) (s : Replica) (seq : ℤ) (slot : PaxosSlot)
        → lookup self w.cell ≡ some s
        → SlotSound Called seq slot
        → WorldSound (place self (store_slot seq slot s) w)
    store_slot-WorldSound self s seq slot at kept =
        place-WorldSound self _ (LogSound-store_slot Called seq slot s kept (replica_at self s at))

  advance-WorldSound :
      (w : World R) (sound : WorldSound w) (thread : ℕ) (p : Proposal) (stage : Stage)
      → lookup thread w.threads ≡ some p
      → StageSound Called p.seq stage
      → WorldSound (advance thread p stage w)
  advance-WorldSound w sound thread p stage at kept = record {
    cell = sound.cell;
    threads =
        Entries-insert ThreadSound thread _ w.threads ((thread_at w sound thread p at).0, kept)
          sound.threads;
    promises = sound.promises;
    accepts = sound.accepts;
    learns = sound.learns;
    heartbeats = sound.heartbeats;
    heartbeat_replies = sound.heartbeat_replies;
  }

  Step-WorldSound : {w u : World R} → Step R "" stubs Called w u → WorldSound w → WorldSound u
  Step-WorldSound (turns {w = w} {s = s} self at turn) sound =
      place-WorldSound w sound self _ (LogSound-Turn Called turn (replica_at w sound self s at))
  Step-WorldSound (starts {w = w} thread self v seq my_view at may asked) sound = record {
    cell = sound.cell;
    threads = Entries-insert ThreadSound thread _ w.threads (asked, tt) sound.threads;
    promises = sound.promises;
    accepts = sound.accepts;
    learns = sound.learns;
    heartbeats = sound.heartbeats;
    heartbeat_replies = sound.heartbeat_replies;
  }
  Step-WorldSound (admits {w = w} {s = s} thread p at is here_) sound =
      advance-WorldSound w sound thread p _ at (StageSound-admit Called p s)
  Step-WorldSound (picks {w = w} {s = s} thread p at is here_) sound =
      advance-WorldSound w sound thread p _ at
        (StageSound-pick_phase Called p s (thread_at w sound thread p at).0)
  Step-WorldSound (begins {w = w} {s = s} thread p at is here_) sound =
      let kept =
        begin_phase-LogSound Called p s (thread_at w sound thread p at).0
          (replica_at w sound p.self s here_) in
      advance-WorldSound _ (place-WorldSound w sound p.self _ kept.1) thread p _ at kept.0
  Step-WorldSound (asks thread p number g request at is same named) sound = record {
    cell = sound.cell;
    threads = sound.threads;
    promises = sound.promises;
    accepts = sound.accepts;
    learns = sound.learns;
    heartbeats = sound.heartbeats;
    heartbeat_replies = sound.heartbeat_replies;
  }
  Step-WorldSound (promises {w = w} {s = s} self request d slot asked at found) sound =
      let old = slot_in w sound self s request.seq slot at found in
      let placed =
        store_slot-WorldSound w sound self s request.seq _ at
          (SlotSound-promise Called "" request d request.seq slot old) in
      record {
        cell = placed.cell;
        threads = sound.threads;
        promises = (ReplySound-promise Called request d request.seq slot old, sound.promises);
        accepts = sound.accepts;
        learns = sound.learns;
        heartbeats = sound.heartbeats;
        heartbeat_replies = sound.heartbeat_replies;
      }
  Step-WorldSound (gathers {w = w} thread p number g request response at is sent same) sound =
      let reply =
        subst (λ seq. ReplySound Called seq response) same
          (All-Among PromiseSound (request, response) w.promises sound.promises sent) in
      advance-WorldSound w sound thread p _ at (
        StageSound-take_reply Called stubs several p.seq number response g reply
          (stage_at w sound thread p (preparing number g) at is))
  Step-WorldSound (exhausts {w = w} thread p number g at is) sound =
      advance-WorldSound w sound thread p (prepared g) at
        (stage_at w sound thread p (preparing number g) at is)
  Step-WorldSound (settles {w = w} {s = s} thread p g at is here_) sound =
      let kept =
        end_phase-LogSound Called g p s (thread_at w sound thread p at).0
          (stage_at w sound thread p (prepared g) at is) (replica_at w sound p.self s here_) in
      advance-WorldSound _ (place-WorldSound w sound p.self _ kept.1) thread p _ at kept.0
  Step-WorldSound (proposes {w = w} thread p value t request at is same_seq same_view same) sound =
      record {
        cell = sound.cell;
        threads = sound.threads;
        promises = sound.promises;
        accepts = (
          rw (same_seq, same) (stage_at w sound thread p (accepting value t) at is),
          sound.accepts,
        );
        learns = sound.learns;
        heartbeats = sound.heartbeats;
        heartbeat_replies = sound.heartbeat_replies;
      }
  Step-WorldSound (votes {w = w} {s = s} self request d slot sent at found) sound =
      let placed = store_slot-WorldSound w sound self s request.seq _ at (
        SlotSound-vote Called "" request d request.seq slot
          (All-Among AcceptSound request w.accepts sound.accepts sent)
          (slot_in w sound self s request.seq slot at found)) in
      record {
        cell = placed.cell;
        threads = sound.threads;
        promises = sound.promises;
        accepts = sound.accepts;
        learns = sound.learns;
        heartbeats = sound.heartbeats;
        heartbeat_replies = sound.heartbeat_replies;
      }
  Step-WorldSound (counts {w = w} thread p value t request response at is sent same) sound =
      advance-WorldSound w sound thread p _ at (stage_at w sound thread p (accepting value t) at is)
  Step-WorldSound (joins {w = w} thread p value t at is) sound =
      advance-WorldSound w sound thread p _ at (
        StageSound-after_votes Called p.seq value t
          (stage_at w sound thread p (accepting value t) at is))
  Step-WorldSound (tells {w = w} thread p value request at is same_seq same) sound = record {
    cell = sound.cell;
    threads = sound.threads;
    promises = sound.promises;
    accepts = sound.accepts;
    learns = (rw (same_seq, same) (stage_at w sound thread p (telling value) at is), sound.learns);
    heartbeats = sound.heartbeats;
    heartbeat_replies = sound.heartbeat_replies;
  }
  Step-WorldSound (learns {w = w} {s = s} self request slot sent at found) sound =
      store_slot-WorldSound w sound self s request.seq _ at (
        SlotSound-decide Called request.seq request.value slot
          (All-Among LearnSound request w.learns sound.learns sent)
          (slot_in w sound self s request.seq slot at found))
  Step-WorldSound (writes {w = w} {s = s} {t = t} self request sent at done) sound =
      place-WorldSound w sound self t
        (rw (slots-apply_value R request.value s t done) (replica_at w sound self s at))
  Step-WorldSound (announces {w = w} {s = s} self request at made) sound = record {
    cell = sound.cell;
    threads = sound.threads;
    promises = sound.promises;
    accepts = sound.accepts;
    learns = sound.learns;
    heartbeats = (
      Called-begin_heartbeats Called request.view request.slots s made
          (replica_at w sound self s at),
      sound.heartbeats,
    );
    heartbeat_replies = sound.heartbeat_replies;
  }
  Step-WorldSound (beats {w = w} {s = s} self request sent at) sound =
      let kept =
        LogSound-heartbeat Called request w.heartbeat_replies s
          (All-Among BeatSound request w.heartbeats sound.heartbeats sent) sound.heartbeat_replies
          (replica_at w sound self s at) in
      record {
        cell = (place-WorldSound w sound self _ kept.0).cell;
        threads = sound.threads;
        promises = sound.promises;
        accepts = sound.accepts;
        learns = sound.learns;
        heartbeats = sound.heartbeats;
        heartbeat_replies = kept.1;
      }
  Step-WorldSound (absorbs {w = w} {s = s} self response sent at) sound =
      place-WorldSound w sound self _ (
        LogSound-absorb Called response s
          (All-Among (CalledReply Called) response w.heartbeat_replies sound.heartbeat_replies sent)
          (replica_at w sound self s at))

  pub Reach-WorldSound : {w u : World R} → WorldSound w → Reach R "" stubs Called w u → WorldSound u
  Reach-WorldSound sound here = sound
  Reach-WorldSound sound (next run step) = Step-WorldSound step (Reach-WorldSound sound run)
