-- ===== src/Examples/Rounds.antt =====
-- The theorems on heartbeats and on the proposer, at the replicas of `Examples.Replicas`.
use text.Mathlib.TextEquality.{eq_iff}
use chubby.Prelude.{◌≡◌, ◌≢◌, refl, ◌⊎◌, inl, some, [], ◌∷◌, arith, if◌then◌else◌, true}
use chubby.Prelude.Int.{ℤ, pos, ◌<ℤ◌, ◌≤ℤ◌, ◌%ℤ◌}
use chubby.Prelude.Map.{Map, lookup, int_eq, string_eq}
use chubby.Storage.{RocksDbWrapper}
use chubby.Storage.Memory.{memory}
use chubby.Paxos.Slot.{PaxosSlot, SlotMessage, is_decided}
use chubby.Paxos.Messages.{replied, refused, aborted, HeartbeatRequest}
use chubby.Paxos.Replica.{PaxosImpl}
use chubby.Paxos.Replica.Slots.{slot_at}
use chubby.Paxos.Network.{Cluster, delivered, lost}
use chubby.Paxos.Heartbeat.{send_heartbeats, heartbeat, begin_heartbeats, wire_slots, request_slots}
use chubby.Paxos.Heartbeat.Merging.{heartbeat_outcomes, Merged}
use chubby.Paxos.Heartbeat.Sending.{send_heartbeats_lem, Peers}
use chubby.Paxos.Proposer.{Links, Run, run, proposes}
use chubby.Paxos.Proposer.Phases.{choose_number}
use chubby.Paxos.Proposer.Numbers.{choose_number_lem, Chosen}
use chubby.Examples.Replicas.{replica, cell}

abbrev slot_behind : PaxosSlot
slot_behind = record (slot_at (replica 0) (pos 1)) { n = pos 1; highest_n = pos 6 }

choose_number_lem_example : Chosen 3 (pos 6) (pos 1) (choose_number 3 slot_behind)
choose_number_lem_example = choose_number_lem 3 slot_behind (omega arith)

-- Replica 2 leads view 2; replica 0 knows no slot yet.
abbrev sent : Map ℤ SlotMessage
sent = wire_slots (request_slots (pos 2) (replica 2).slots)

abbrev beat : HeartbeatRequest
beat = record { id = pos 2; view = pos 2; done = pos 7 ∷ []; slots = sent }

abbrev newcomer : PaxosImpl (RocksDbWrapper memory)
newcomer = record (replica 0) { slots = []; view = pos 1 }

heartbeat_outcomes_example :
    ((pos 0 ≡ pos 2)
      × (heartbeat beat newcomer ≡ (
        replied (record { status = ""; slots = [] }),
        record newcomer { missed_heartbeats = pos 0 },
      )))
    ⊎ ((pos 0 ≢ pos 2) × (pos 2 <ℤ pos 1) × (heartbeat beat newcomer ≡ (refused aborted, newcomer)))
    ⊎ ((pos 0 ≢ pos 2) × (pos 1 ≤ℤ pos 2) × Merged beat newcomer (heartbeat beat newcomer))
heartbeat_outcomes_example = heartbeat_outcomes beat newcomer

-- The leader sends to itself, and to the newcomer; the request to "b" is lost.
abbrev calls : Peers
calls = ("a", delivered) ∷ ("b", lost) ∷ ("c", delivered) ∷ []

abbrev behind : Cluster (RocksDbWrapper memory)
behind = ("a", newcomer) ∷ ("b", newcomer) ∷ ("c", replica 2) ∷ []

-- The slot that the leader has decided.
abbrev taken : PaxosSlot
taken = slot_at (replica 2) (pos 1)

send_heartbeats_lem_example :
    (t : PaxosImpl (RocksDbWrapper memory)) × (lookup "a" (send_heartbeats "c" calls behind)
      ≡ some t)
    × (is_decided (slot_at t (pos 1)).status ≡ true)
    × ((slot_at t (pos 1)).value ≡ (
        if is_decided (slot_at newcomer (pos 1)).status
        then (slot_at newcomer (pos 1)).value
        else taken.value))
    × (t.paxos_db ≡ newcomer.paxos_db)
unfolding begin_heartbeats ◌%ℤ◌ lookup slot_at
send_heartbeats_lem_example =
    send_heartbeats_lem "c" "a" calls behind (replica 2) newcomer (pos 2) sent (pos 1) taken refl
      refl refl refl refl (λ e. ground (arith, eq_iff "a" "c"))
      (inl (
        refl,
        (λ e. ground arith),
        ((λ e. ground (arith, eq_iff "b" "a")), ((λ e. ground (arith, eq_iff "c" "a")), tt)),
      ))
      (λ e. ground arith) (omega arith)

-- Nobody hears of the value before the learn phase, and then only the replica at "b" does.
abbrev nobody_votes : Links
nobody_votes = record {
  prepares = ("a", lost) ∷ ("b", lost) ∷ ("c", lost) ∷ [];
  accepts = ("a", lost) ∷ ("b", lost) ∷ ("c", lost) ∷ [];
  learns = ("a", lost) ∷ ("b", delivered) ∷ ("c", lost) ∷ [];
  forward = lost;
}

abbrev unvoted : Run (RocksDbWrapper memory)
unvoted = run memory "" 3 (nobody_votes ∷ []) (proposes "a" (pos 4) "b#SHARED" (pos 2)) [] cell
