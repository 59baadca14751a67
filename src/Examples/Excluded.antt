-- ===== src/Examples/Excluded.antt =====
-- Two clients and one server, on the service of `Examples.Locks`.
use chubby.Prelude.{◌≡◌, ◌≢◌, refl, some, List, [], ◌∷◌}
use chubby.Prelude.Int.{pos, ◌+ℤ◌}
use chubby.Prelude.Map.{lookup}
use chubby.Paxos.Address.{to_string, address_of}
use chubby.Paxos.Network.{delivered}
use chubby.Paxos.KeyValue.RoundTrip.{lacks}
use chubby.Server.{
  ChubbyImpl, World, AcquireLockRequest, acquire_lock, carry_out, decision, put_mode, next_slot,
  leader_address,
}
use chubby.Server.Granting.{shared, request_of}
use chubby.Server.Exclusion.{acquire_all}
use chubby.Client.{ClientLib, chubby_lock, lock_result, settle}
use chubby.Client.Excluding.{lock_at, answer_of, lock_excludes}
use chubby.Examples.Clients.{client}
use chubby.Examples.Locks.{local, local-Applies, in_log, start_in}

abbrev server : ChubbyImpl
server = record {
  client_lock_map = [];
  client_lease_map = ("7", 12000) ∷ ("8", 12000) ∷ [];
  slot_number = pos 7;
}

abbrev open_lock : World local
open_lock = (server, (("p", "FREE") ∷ [], []))

abbrev after : World local
after = (lock_at local delivered 90 "p" "EXCLUSIVE" client open_lock).1

abbrev rival : ClientLib
rival = record client { client_id = pos 8 }

abbrev between : List AcquireLockRequest
between = request_of "8" "p" "EXCLUSIVE" ∷ request_of "7" "q" "SHARED" ∷ []

shut_out :
    (local.get (lock_at local delivered 90 "p" "EXCLUSIVE" client open_lock).1.1 "p"
      ≡ some "EXCLUSIVE")
    × ((lock_at local delivered 95 "p" "SHARED" rival (acquire_all local between after)).0
        ≢ some (pos 0, rival))
unfolding lookup lacks in_log start_in next_slot ◌+ℤ◌ lock_at answer_of chubby_lock lock_result
    settle acquire_lock carry_out decision put_mode to_string leader_address address_of
shut_out =
    lock_excludes local local-Applies "p" delivered delivered 90 95 client client rival rival shared
      between open_lock (refl, (refl, tt)) refl refl refl
