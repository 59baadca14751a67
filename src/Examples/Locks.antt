-- ===== src/Examples/Locks.antt =====
-- The lock service on a Paxos service that applies each value at once.
use chubby.Prelude.{
  String, ◌≡◌, refl, true, false, Option, some, none, List, [], ◌∷◌, if◌then◌else◌, Bool, ◌||◌, sym,
  ap, ◌∙◌, inl, inr, ◌⊎◌, Bool-cases, arith,
}
use chubby.Prelude.Int.{ℤ, pos, ◌<ℤ◌, ◌+ℤ◌, int_beq_iff}
use chubby.Prelude.Map.{Map, lookup, insert, lookup-insert, string_eq, int_eq, ◌==◌}
use chubby.Paxos.Messages.{Outcome, replied}
use chubby.Paxos.KeyValue.{get_key_value, key_value_of}
use chubby.Paxos.KeyValue.RoundTrip.{lacks, get_key_value-key_value_of}
use chubby.Server.Service.{Consensus, Applies}
use chubby.Server.{
  ChubbyImpl, World, acquire_lock, release_lock, leader_address, AcquireLockRequest, LockResponse,
  next_slot,
}
use chubby.Server.Granting.{shared, exclusive, held, request_of, acquire_refines, absent}
use chubby.Server.Exclusion.{no_response, exclusive_excludes, acquire_all}
use chubby.Server.Releasing.{release_refines, release_of}
use chubby.Server.SlotNumber.{release_lost}
use chubby.Server.OpenSlots.{Request, acquires, releases, serve, next_open}
use chubby.Server.Leases.{expire_leases}
use chubby.Server.Leases.Expiry.{expire_leases_lem, ended, NoRepeat}

unfoldable pub put_pair : Option (String × String) → Map String String → Map String String
put_pair none m = m
put_pair (some (k, v)) m = insert k v m

unfoldable pub in_log : ℤ → List ℤ → Bool
in_log slot [] = false
in_log slot (decided ∷ rest) = decided == slot || in_log slot rest

-- The database, and the slots that are decided.
abbrev pub Log : Type 0
Log = Map String String × List ℤ

unfoldable pub start_in : Bool → ℤ → String → Log → Log
start_in true slot v log = log
start_in false slot v (m, slots) = (put_pair (get_key_value v) m, slot ∷ slots)

abbrev pub local : Consensus
local = record {
  State = Log;
  get = λ log k. lookup k log.0;
  start = λ slot v log. start_in (in_log slot log.1) slot v log;
  knows = λ log slot. in_log slot log.1;
  leader_election_happened = λ log. false;
  first_port = λ log. 50051;
  turn = λ log. pos 0;
}

applied_local :
    (slot : ℤ) (path mode j : String) (log : Log)
    → in_log slot log.1 ≡ false
    → lacks b'#' path ≡ true
    → lookup j (start_in (in_log slot log.1) slot (key_value_of path mode) log).0
      ≡ (if path == j then some mode else lookup j log.0)
unfolding put_pair start_in
applied_local slot path mode j log fresh plain =
    rw (fresh, get_key_value-key_value_of path mode plain) (lookup-insert path j mode log.0)

decides_local :
    (slot n : ℤ) (v : String) (log : Log)
    → in_log n (start_in (in_log slot log.1) slot v log).1
      ≡ (if slot == n then true else in_log n log.1)
unfolding start_in in_log
decides_local slot n v (m, slots) = elim (Bool-cases (in_log slot slots)) [
  | inl known ↦ rw known (elim (Bool-cases (slot == n)) [
    | inl hit ↦ rw hit (sym (ap (λ k. in_log k slots) ((int_beq_iff slot n).0 hit)) ∙ known)
    | inr miss ↦ rw miss
  ])
  | inr fresh ↦ rw fresh (ground arith)
]

pub local-Applies : Applies local
unfolding start_in
local-Applies = record {
  applied = applied_local;
  settled = λ slot v j log known. rw known;
  decides = decides_local;
  same_term = λ slot v p. refl;
}

abbrev server : ChubbyImpl
server = record {
  client_lock_map = ("p", "bob") ∷ [];
  client_lease_map = ("ann", 12000) ∷ ("bob", 12000) ∷ [];
  slot_number = pos 7;
}

abbrev shared_lock : Log
shared_lock = (("p", "SHARED") ∷ ("q", "EXCLUSIVE") ∷ [], pos 6 ∷ [])

abbrev acquired : Outcome LockResponse × World local
acquired = acquire_lock local no_response (request_of "ann" "p" "EXCLUSIVE") (server, shared_lock)

acquire_refines_example :
    (acquired.0
      ≡ replied (record {
        success = false;
        error_message = "SHARED_LOCK_HELD";
        current_leader = leader_address local acquired.1.1;
      }))
    × ((j : String)
        → lookup j acquired.1.1.0 ≡ (if "p" == j then some "SHARED" else lookup j shared_lock.0))
unfolding lacks lookup in_log start_in next_slot ◌+ℤ◌
acquire_refines_example =
    acquire_refines local local-Applies no_response "ann" "p" exclusive (held shared) server
      shared_lock 12000 refl refl refl refl refl

abbrev let_go : Outcome LockResponse × World local
let_go = release_lock local no_response (release_of "ann" "p") (server, shared_lock)

release_refines_example :
    (let_go.0
      ≡ replied (record {
        success = true;
        error_message = "NO_ERROR";
        current_leader = leader_address local let_go.1.1;
      }))
    × ((j : String)
        → lookup j let_go.1.1.0 ≡ (if "p" == j then some "FREE" else lookup j shared_lock.0))
unfolding lacks lookup in_log start_in
release_refines_example =
    release_refines local local-Applies no_response "ann" "p" (held shared) server shared_lock refl
      refl refl refl

abbrev history : List AcquireLockRequest
history = request_of "bob" "q" "SHARED" ∷ request_of "ann" "r" "EXCLUSIVE" ∷ []

abbrev later : World local
later = acquire_all local history (server, shared_lock)

abbrev asked : Outcome LockResponse × World local
asked = acquire_lock local no_response (request_of "ann" "q" "SHARED") later

exclusive_excludes_example :
    (lookup "q" later.1.0 ≡ some "EXCLUSIVE")
    × (asked.0
        ≡ replied (record {
          success = false;
          error_message = "EXCLUSIVE_LOCK_HELD";
          current_leader = leader_address local asked.1.1;
        }))
unfolding lacks lookup in_log start_in
exclusive_excludes_example =
    exclusive_excludes local local-Applies "q" history (server, shared_lock) "ann" shared 12000
      (refl, (refl, tt)) refl refl refl

abbrev ann_takes_r : World local
ann_takes_r =
    (acquire_lock local no_response (request_of "ann" "r" "EXCLUSIVE") (server, shared_lock)).1

abbrev ann_drops_r : Outcome LockResponse × World local
ann_drops_r = release_lock local no_response (release_of "ann" "r") ann_takes_r

release_lost_example :
    (ann_drops_r.0
      ≡ replied (record {
        success = true;
        error_message = "NO_ERROR";
        current_leader = leader_address local ann_drops_r.1.1;
      }))
    × (lookup "r" ann_drops_r.1.1.0 ≡ some "EXCLUSIVE")
unfolding lacks lookup in_log next_slot ◌+ℤ◌
release_lost_example =
    release_lost local local-Applies no_response no_response "ann" "ann" "r" exclusive absent server
      shared_lock 12000 refl refl refl refl refl refl

abbrev requests : List Request
requests =
    acquires no_response (request_of "ann" "r" "EXCLUSIVE")
    ∷ releases no_response (release_of "ann" "r")
    ∷ []

all_open : (n : ℤ) → server.slot_number <ℤ n → in_log n shared_lock.1 ≡ false
unfolding in_log
all_open n above = ground arith

abbrev served : World local
served = serve local requests (server, shared_lock)

next_open_example : in_log (next_slot served.0.slot_number) served.1.1 ≡ false
next_open_example =
    next_open local local-Applies requests (server, shared_lock) (omega arith) all_open

abbrev expired_at : World local
expired_at = expire_leases local 12000 (server, shared_lock)

expire_leases_lem_example :
    ((client : String)
      → lookup client expired_at.0.client_lease_map ≡ (
          if ended 12000 (lookup client server.client_lease_map)
          then none
          else lookup client server.client_lease_map))
    × (expired_at.0.client_lock_map ≡ server.client_lock_map)
    × (((j : String) → lookup j expired_at.1.0 ≡ lookup j shared_lock.0)
        ⊎ ((path : String) × ((j : String)
              → lookup j expired_at.1.0
                ≡ (if path == j then some "FREE" else lookup j shared_lock.0))))
unfolding NoRepeat lookup lacks
expire_leases_lem_example =
    expire_leases_lem local local-Applies 12000 server shared_lock (refl, (refl, tt)) (refl, tt)
