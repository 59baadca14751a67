-- ===== src/Server/Leases.antt =====
-- Sessions, in src/server/server.cpp: the pass of `CheckAndExpireLeases`, `ReleaseLocksForClient`, and
-- `KeepAlive` after its wait. Times are in milliseconds of the steady clock.
pub mod Expiry
pub mod Sparing
pub mod Protection
use chubby.Prelude.{
  ℕ, ◌+◌, ◌/◌, String, Bool, true, false, ◌||◌, Option, none, some, List, [], ◌∷◌, if◌then◌else◌,
  leb, ltb,
}
use chubby.Prelude.Int.{ℤ}
use chubby.Prelude.Map.{Map, lookup, insert, erase, ◌==◌, string_eq}
use chubby.Paxos.Messages.{Outcome, replied, refused, aborted}
use chubby.Server.Service.{Consensus}
use chubby.Server.{ChubbyImpl, World, put_mode, is_held}

-- `lease_timeout`
abbrev pub lease_timeout : ℕ
lease_timeout = 12000

-- The clients whose lease has ended.
unfoldable pub expired : ℕ → Map String ℕ → List String
expired now [] = []
expired now ((client, lease) ∷ rest) =
    let others = expired now rest in if leb lease now then client ∷ others else others

unfoldable pub erase_all : List String → Map String ℕ → Map String ℕ
erase_all [] leases = leases
erase_all (client ∷ rest) leases = erase_all rest (erase client leases)

-- `locked_keys` of a client.
unfoldable pub keys_of : String → List (String × String) → List String
keys_of client [] = []
keys_of client ((path, owner) ∷ rest) =
    let others = keys_of client rest in if owner == client then path ∷ others else others

module _ (P : Consensus) where
  -- One path of `ReleaseLocksForClient`, under its mutex: a held path is set free.
  unfoldable pub free_key : String → World P → World P
  unfolding put_mode
  free_key path (c, p) = elim (P.get p path) [
    | none ↦ (c, p)
    | some value ↦ if is_held P value then put_mode P path "FREE" (c, p) else (c, p)
  ]

  unfoldable pub free_keys : List String → World P → World P
  unfolding free_key
  free_keys [] w = w
  free_keys (path ∷ rest) w = free_keys rest (free_key path w)

  -- `ReleaseLocksForClient`, which leaves `client_lock_map` as it is.
  unfoldable pub release_locks_for_client : String → World P → World P
  unfolding keys_of free_keys
  release_locks_for_client client (c, p) = free_keys (keys_of client c.client_lock_map) (c, p)

  unfoldable pub release_locks_for_all : List String → World P → World P
  unfolding release_locks_for_client
  release_locks_for_all [] w = w
  release_locks_for_all (client ∷ rest) w =
      release_locks_for_all rest (release_locks_for_client client w)

  -- One pass of the loop of `CheckAndExpireLeases`, at a time.
  unfoldable pub expire_leases : ℕ → World P → World P
  unfolding expired erase_all release_locks_for_all
  expire_leases now (c, p) =
      let clients = expired now c.client_lease_map in
      release_locks_for_all clients
        (record c { client_lease_map = erase_all clients c.client_lease_map }, p)

pub record KeepAliveResponse : Type 0 where
  pub success : Bool
  -- In whole seconds.
  pub lease_timeout : ℕ
  pub error_message : String
  pub epoch_number : ℤ

-- `KeepAlive` when it has waited, at the time at which its thread runs again: until 100 milliseconds
-- before the lease ends, or longer, and not at all for a client that has none. With `leader_dead` the request has gone to the leader before: a
-- failure there is the caller's, and otherwise the handler goes on.
unfoldable pub keep_alive :
    Option Bool → ℕ → String → ℤ → ChubbyImpl → Outcome KeepAliveResponse × ChubbyImpl
keep_alive (some false) woken client view c = (refused aborted, c)
keep_alive _ woken client view c = (
  replied (record {
    success = true;
    lease_timeout = (woken + lease_timeout) / 1000;
    error_message = "";
    epoch_number = view;
  }),
  record c { client_lease_map = insert client (woken + lease_timeout) c.client_lease_map },
)
