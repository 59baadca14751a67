-- ===== src/Examples/Replicas.antt =====
-- The replica's theorems at a replica of three, with one decided slot and one promised.
use chubby.Prelude.{
  ℕ, ◌+◌, ◌*◌, ◌%◌, ◌<◌, String, ◌≡◌, refl, ◌⊎◌, true, false, Option, some, none, List, [], ◌∷◌,
  arith,
}
use chubby.Prelude.Int.{ℤ, pos, ◌≤ℤ◌, ◌<ℤ◌, ◌+ℤ◌, ◌-ℤ◌}
use chubby.Prelude.Map.{Map, lookup, insert, keep, int_eq, string_eq}
use chubby.Storage.{RocksDbWrapper, put}
use chubby.Storage.Laws.{PutResult, put_result}
use chubby.Storage.Memory.{memory, memory_laws}
use chubby.Paxos.Slot.{PaxosSlot, init_slot, decided, is_decided}
use chubby.Paxos.Messages.{
  Outcome, replied, refused, threw, invalid_argument, DecideResponse, PrepareRequest, AcceptRequest,
  DecideRequest,
}
use chubby.Paxos.KeyValue.{get_key_value, key_value_of}
use chubby.Paxos.KeyValue.RoundTrip.{lacks, get_key_value-key_value_of}
use chubby.Paxos.Replica.{PaxosImpl, Indeterminate, construct, forget}
use chubby.Paxos.Replica.Slots.{slot_at}
use chubby.Paxos.Replica.Forgetting.{Forgotten, forget_lem}
use chubby.Paxos.Acceptor.{prepare, accept, learn}
use chubby.Paxos.Acceptor.Accepting.{accept_outcomes, CastsVote, RefusesVote}
use chubby.Paxos.Acceptor.Promising.{prepare_reply, prepare_outcomes, Answers}
use chubby.Paxos.Acceptor.Learning.{learn_again, learn_outcomes, Leaves, kept_slot, decided_slot}
use chubby.Paxos.Network.{Cluster, Delivery, delivered, lost}
use chubby.Paxos.Leader.{detect_leader_failure, canvass, conclude, no_votes, Tally}
use chubby.Paxos.Leader.Turn.{detect_outcomes, IsTurn}
use chubby.Paxos.Leader.Quorum.{election_quorum, supporters}

abbrev pub zeros : Indeterminate
zeros = record {
  highest_slot = pos 0;
  lowest_slot = pos 0;
  view = pos 0;
  missed_heartbeats = pos 0;
  highest_accepted_seq = pos 0;
  is_dead = false;
}

abbrev disk : RocksDbWrapper memory
disk = some []

abbrev one_decided : Map ℤ PaxosSlot
one_decided =
    (
      pos 1,
      record {
        n = pos 0;
        n_p = pos 5;
        n_a = pos 0;
        v_a = "a#FREE";
        highest_n = pos 0;
        value = "a#FREE";
        status = decided;
      },
    )
    ∷ []

abbrev pub replica : ℕ → PaxosImpl (RocksDbWrapper memory)
replica me = record {
  highest_slot = pos 1;
  lowest_slot = pos 1;
  done = pos 2 ∷ pos 1 ∷ pos 3 ∷ [];
  slots = one_decided;
  view = pos 2;
  me = me;
  leader_dead = false;
  group_size = 3;
  highest_log_idx = pos 0;
  first_port = 50051;
  last_port = 50053;
  self_port = 50052;
  missed_heartbeats = pos 3;
  highest_accepted_seq = pos 1;
  num_servers = 3;
  is_dead = false;
  leader_election_happened = false;
  server_address = "127.0.0.1:50052";
  paxos_db = disk;
}

constructed : (construct zeros 3 disk "127.0.0.1:50052" 50052).me ≡ 1
unfolding construct
constructed = refl

put_result_example : PutResult memory disk "a" "FREE"
put_result_example = put_result memory memory_laws disk "a" "FREE"

get_key_value-key_value_of_example :
    get_key_value (key_value_of "tmp/7" "SHARED") ≡ some ("tmp/7", "SHARED")
unfolding lacks
get_key_value-key_value_of_example = get_key_value-key_value_of "tmp/7" "SHARED" refl

-- Replica 0 reports that it is done with slot 3.
abbrev forgotten : Option (PaxosImpl (RocksDbWrapper memory))
forgotten = forget 0 (pos 3) (replica 1)

after_forget : PaxosImpl (RocksDbWrapper memory)
after_forget = record (replica 1) {
  done = pos 3 ∷ pos 1 ∷ pos 3 ∷ [];
  lowest_slot = pos 2;
  slots = [];
}

forget_lem_example : Forgotten 0 (pos 3) (replica 1) after_forget
unfolding forget after_forget ◌+ℤ◌ ◌-ℤ◌ keep
forget_lem_example = forget_lem 0 (pos 3) (replica 1) after_forget refl

abbrev vote_request : AcceptRequest
vote_request = record {
  seq = pos 4;
  view = pos 3;
  value = "b#SHARED";
  sender_id = pos 0;
  latest_done = pos 0;
}

accept_outcomes_example :
    ((vote_request.seq <ℤ (replica 1).lowest_slot)
      × (accept "" vote_request (replica 1) ≡ (refused invalid_argument, replica 1)))
    ⊎ (((replica 1).lowest_slot ≤ℤ vote_request.seq)
        × ((replica 1).view ≤ℤ vote_request.view)
        × CastsVote "" (replica 1) vote_request (pos 1) (accept "" vote_request (replica 1)))
    ⊎ (((replica 1).lowest_slot ≤ℤ vote_request.seq)
        × (vote_request.view <ℤ (replica 1).view)
        × RefusesVote "" (replica 1) vote_request (pos 1) (accept "" vote_request (replica 1)))
accept_outcomes_example = accept_outcomes "" (replica 1) vote_request (pos 1) refl

abbrev prepare_request : ℤ → PrepareRequest
prepare_request n = record {
  seq = pos 1;
  proposal_number = n;
  latest_done = pos 0;
  sender_id = pos 0;
}

prepare_outcomes_example :
    ((pos 1 <ℤ pos 1)
      × (prepare "" (prepare_request (pos 8)) (replica 1) ≡ (refused invalid_argument, replica 1)))
    ⊎ ((pos 1 ≤ℤ pos 1)
        × ((slot_at (replica 1) (pos 1)).n_p <ℤ pos 8)
        × Answers ""
            (replica 1)
            (prepare_request (pos 8))
            (prepare_reply "" (replica 1) (prepare_request (pos 8)) (pos 1) "OK" (pos 8))
            (pos 8)
            (prepare "" (prepare_request (pos 8)) (replica 1)))
    ⊎ ((pos 1 ≤ℤ pos 1)
        × (pos 8 ≤ℤ (slot_at (replica 1) (pos 1)).n_p)
        × Answers ""
            (replica 1)
            (prepare_request (pos 8))
            (prepare_reply ""
              (replica 1)
              (prepare_request (pos 8))
              (pos 1)
              "Reject"
              (slot_at (replica 1) (pos 1)).n_p)
            (slot_at (replica 1) (pos 1)).n_p
            (prepare "" (prepare_request (pos 8)) (replica 1)))
prepare_outcomes_example = prepare_outcomes "" (replica 1) (prepare_request (pos 8)) (pos 1) refl

after_prepare : PaxosImpl (RocksDbWrapper memory)
after_prepare = (prepare "" (prepare_request (pos 8)) (replica 1)).1

abbrev decide_request : String → DecideRequest
decide_request value = record { seq = pos 4; value = value; sender_id = pos 0; latest_done = pos 0 }

abbrev learned : PaxosImpl (RocksDbWrapper memory)
learned = (learn memory (decide_request "b#SHARED") (replica 1)).1

abbrev learned_again : PaxosImpl (RocksDbWrapper memory)
learned_again = (learn memory (decide_request "b#FREE") learned).1

learn_again_example :
    ((learn memory (decide_request "b#FREE") learned).0 ≡ replied (record { latest_done = pos 1 }))
    × ((slot_at learned_again (pos 4)).value ≡ "b#SHARED")
    × (learned_again.paxos_db ≡ (put memory disk "b" "SHARED").1)
unfolding slot_at lookup get_key_value init_slot
learn_again_example =
    learn_again memory (replica 1) (decide_request "b#SHARED") (decide_request "b#FREE") (pos 1) "b"
      "SHARED" refl (omega arith) refl refl refl

abbrev suspicious : PaxosImpl (RocksDbWrapper memory)
suspicious = record (replica 1) {
  missed_heartbeats = pos 0;
  leader_dead = true;
  leader_election_happened = true;
}

abbrev learned_result : Outcome DecideResponse × PaxosImpl (RocksDbWrapper memory)
learned_result = learn memory (decide_request "b#SHARED") (replica 1)

abbrev new_request : DecideRequest
new_request = decide_request "b#SHARED"

learn_outcomes_example :
    ((pos 4 <ℤ pos 1)
      × (learn memory new_request (replica 1) ≡ (refused invalid_argument, replica 1)))
    ⊎ ((pos 1 ≤ℤ pos 4)
        × (is_decided (slot_at (replica 1) (pos 4)).status ≡ true)
        × Leaves memory
            (replica 1)
            new_request
            (replied (record { latest_done = pos 1 }))
            (kept_slot memory (replica 1) (pos 4))
            disk
            learned_result)
    ⊎ ((pos 1 ≤ℤ pos 4)
        × (is_decided (slot_at (replica 1) (pos 4)).status ≡ false)
        × ((pair : String × String) × (get_key_value "b#SHARED" ≡ some pair)
            × Leaves memory
                (replica 1)
                new_request
                (replied (record { latest_done = pos 1 }))
                (decided_slot memory (replica 1) (pos 4) "b#SHARED")
                (put memory disk pair.0 pair.1).1
                learned_result))
    ⊎ ((pos 1 ≤ℤ pos 4)
        × (is_decided (slot_at (replica 1) (pos 4)).status ≡ false)
        × (get_key_value "b#SHARED" ≡ none)
        × Leaves memory
            (replica 1)
            new_request
            threw
            (decided_slot memory (replica 1) (pos 4) "b#SHARED")
            disk
            learned_result)
learn_outcomes_example = learn_outcomes memory (replica 1) new_request (pos 1) refl

detect_outcomes_example :
    ((pos 3 +ℤ pos 1 ≤ℤ pos 3)
      × (detect_leader_failure (replica 1)
          ≡ (none, record (replica 1) { missed_heartbeats = pos 3 +ℤ pos 1 })))
    ⊎ ((pos 3 <ℤ pos 3 +ℤ pos 1)
        × (2 % 3 ≡ 1)
        × (detect_leader_failure (replica 1) ≡ (none, suspicious)))
    ⊎ ((pos 3 <ℤ pos 3 +ℤ pos 1)
        × ((offset : ℤ) × IsTurn 2 1 3 offset
            × (detect_leader_failure (replica 1) ≡ (some (pos 2, offset), suspicious))))
detect_outcomes_example = detect_outcomes (replica 1) 2 refl (omega arith)

abbrev pub cell : Cluster (RocksDbWrapper memory)
cell = ("a", replica 0) ∷ ("b", replica 1) ∷ ("c", replica 2) ∷ []

abbrev links : List (String × Delivery)
links = ("a", lost) ∷ ("b", delivered) ∷ ("c", delivered) ∷ []

abbrev round : Tally × Cluster (RocksDbWrapper memory)
round = canvass "b" (pos 4) links no_votes cell

-- Replica 1 reaches one peer of two, which is enough.
election_quorum_example :
    (round.0.reject_count ≡ 0)
    × ((conclude (pos 4) 3 round.0 (replica 1)).0 ≡ true)
    × (3 < 2 * (supporters (pos 4) "b" links round.1 + 1))
unfolding canvass conclude lookup insert
election_quorum_example =
    election_quorum "b" (pos 4) 3 links cell (replica 1) refl (omega arith) refl
