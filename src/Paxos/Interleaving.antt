-- ===== src/Paxos/Interleaving.antt =====
-- The cell with all its threads at once, in src/paxos/paxos_server.cpp: any number of runs of
-- `StartOnNewSlot` and of handlers, of `Election`, and of the two endless threads of `RunServer`
-- (src/server/server.cpp), in any order, one critical section after the other. A message that has been
-- sent may be delivered any number of times, at any later time, or never.
pub mod Steps
pub mod Sound
pub mod Turns
pub mod Phases
pub mod Valid
pub mod Ratchet
use chubby.Prelude.{
  ℕ, String, Bool, true, false, ◌||◌, not, Option, none, some, List, [], ◌∷◌, ◌≡◌, if◌then◌else◌,
}
use chubby.Prelude.Int.{ℤ, ◌≤ℤ◌, ltb_ℤ, leb_ℤ}
use chubby.Prelude.Map.{Map, lookup, insert, int_eq, string_eq, ◌==◌}
use chubby.Prelude.Entries.{Among}
use chubby.Storage.{RocksDb, RocksDbWrapper}
use chubby.Paxos.Slot.{PaxosSlot, SlotMessage, is_decided}
use chubby.Paxos.Messages.{
  Outcome, replied, refused, threw, undefined, ElectRequest, PrepareRequest, PrepareResponse,
  AcceptRequest, AcceptResponse, DecideRequest, HeartbeatRequest, HeartbeatResponse,
}
use chubby.Paxos.Replica.{PaxosImpl, add_slots}
use chubby.Paxos.Replica.Slots.{slot_at}
use chubby.Paxos.Acceptor.{
  elect, promise, vote, decide, raise_view, raise_accepted, raise_slot, store_slot, apply_value,
}
use chubby.Paxos.Network.{Cluster}
use chubby.Paxos.Heartbeat.{heartbeat, begin_heartbeats, absorb}
use chubby.Paxos.Leader.{Tally, detect_leader_failure, clear_election, conclude}
use chubby.Paxos.Proposer.{leads, keep_highest}
use chubby.Paxos.Proposer.Phases.{
  Gathered, Votes, gather_start, no_accepts, gather, enough, take_vote, choose_number,
}

-- Where a run of `StartOnNewSlot` stands: called; past the test of the slot; about to choose a number;
-- in the prepare phase, with its number; past the loop
-- of that phase; in the accept phase, with its value; in the learn phase; or at its end.
pub data Stage : Type 0 where
  called admitted choosing returned : Stage
  preparing : ℤ → Gathered → Stage
  prepared : Gathered → Stage
  accepting : String → Votes → Stage
  telling : String → Stage

-- A run of `StartOnNewSlot`, with the address of its replica and its arguments.
pub record Proposal : Type 0 where
  pub self : String
  pub seq : ℤ
  pub v : String
  pub my_view : ℤ
  pub stage : Stage

module _ {Disk : Type 0} where
  -- The checks of `Start`, after which it makes a thread for `StartOnNewSlot`.
  unfoldable pub may_propose : ℤ → PaxosImpl Disk → Bool
  unfolding slot_at leads
  may_propose seq s =
      if ltb_ℤ seq s.lowest_slot
      then false
      else if is_decided (slot_at s seq).status || s.is_dead
      then false
      else if leads s
      then not s.leader_dead
      else false

  -- `StartOnNewSlot`: the test under `slot->mu`.
  unfoldable pub admit : Proposal → PaxosImpl Disk → Stage
  unfolding slot_at
  admit p s = if is_decided (slot_at s p.seq).status || s.is_dead then returned else admitted

  -- The section under `mu` that follows.
  unfoldable pub pick_phase : Proposal → PaxosImpl Disk → Stage
  pick_phase p s =
      if leb_ℤ p.seq s.highest_accepted_seq then choosing else accepting p.v (no_accepts "")

  -- The loop that chooses a number, which takes no lock.
  unfoldable pub begin_phase : Proposal → PaxosImpl Disk → Stage × PaxosImpl Disk
  unfolding slot_at choose_number gather_start store_slot
  begin_phase p s =
      let slot = slot_at s p.seq in
      let number = choose_number s.num_servers slot in
      (
        preparing number (gather_start p.v slot.highest_n),
        store_slot p.seq (record slot { n = number }) s,
      )

  -- What follows the loop of the prepare phase. A run that meets a newer view goes to
  -- `StartOnForward`, which proposes nothing itself.
  unfoldable pub end_phase : Gathered → Proposal → PaxosImpl Disk → Stage × PaxosImpl Disk
  unfolding keep_highest raise_view
  end_phase g p s =
      let s' = keep_highest p.seq g.highest_n s in
      if ltb_ℤ p.my_view g.highest_na
      then (returned, raise_view g.highest_na s')
      else if g.is_decided_prep
      then (telling g.decided_v, s')
      else (accepting (if g.highest_va == "" then p.v else g.highest_va) (no_accepts ""), s')

-- The stage after a reply to a prepare request: the loop goes on, or it is left by a `break`.
unfoldable pub take_reply : ℕ → ℤ → PrepareResponse → Gathered → Stage
unfolding gather enough
take_reply stubs number response g =
    let (g', stop) = gather stubs (some response) g in
    if stop || enough stubs g' then prepared g' else preparing number g'

-- What follows the accept phase, whatever the votes are.
unfoldable pub after_votes : String → Votes → Stage
after_votes value t = if t.is_decided_acc then returned else telling value
