-- ===== src/Examples/Leased.antt =====
-- A session that is kept alive on the service of `Examples.Locks`: "me" holds "k" while "other" comes
-- and goes.
use text.Mathlib.TextEquality.{eq_iff}
use chubby.Prelude.{◌*◌, ◌≤◌, ◌≡◌, refl, true, none, List, [], ◌∷◌, arith, ◌+◌}
use chubby.Prelude.Int.{pos}
use chubby.Prelude.Map.{lookup, string_eq}
use chubby.Paxos.Messages.{replied}
use chubby.Paxos.KeyValue.RoundTrip.{lacks}
use chubby.Server.{ChubbyImpl}
use chubby.Server.Leases.{keep_alive, KeepAliveResponse, lease_timeout}
use chubby.Server.Leases.Expiry.{NoRepeat}
use chubby.Server.Leases.Protection.{Event, passes, renews, play, Protected, keep_alive_protects}
use chubby.Examples.Locks.{local, local-Applies}

abbrev server : ChubbyImpl
server = record {
  client_lock_map = ("k", "me") ∷ ("j", "other") ∷ [];
  client_lease_map = ("me", 12000) ∷ ("other", 13000) ∷ [];
  slot_number = pos 3;
}

abbrev events : List Event
events =
    passes 14000
    ∷ renews none 20000 "other" (pos 2)
    ∷ passes 23000
    ∷ renews none 23500 "me" (pos 2)
    ∷ passes 34000
    ∷ []

keep_alive_protects_example :
    ((r : KeepAliveResponse) × ((keep_alive none 11900 "me" (pos 2) server).0 ≡ replied r)
      × (r.success ≡ true)
      × (r.lease_timeout * 1000 ≤ 11900 + lease_timeout))
    × Protected local local-Applies "k" "me"
        (("k", "EXCLUSIVE") ∷ ("j", "EXCLUSIVE") ∷ [], [])
        (play local events (
          (keep_alive none 11900 "me" (pos 2) server).1,
          (("k", "EXCLUSIVE") ∷ ("j", "EXCLUSIVE") ∷ [], []),
        ))
unfolding NoRepeat lookup lacks
keep_alive_protects_example =
    keep_alive_protects local local-Applies "k" "me" none 11900 (pos 2) events server
      (("k", "EXCLUSIVE") ∷ ("j", "EXCLUSIVE") ∷ [], []) (λ e. ground arith) (refl, (refl, tt))
      (refl, (refl, tt)) (λ e. refl, (λ e. absurd (ground (arith, eq_iff "j" "k")), tt))
      (omega arith, (omega arith, (omega arith, tt)))
