-- ===== src/Server/Service.antt =====
-- What `ChubbyImpl` uses of the Paxos service: the members that it reads and the two calls that it
-- makes, `paxos_db.Get` and `Start`.
use chubby.Prelude.{ℕ, String, ◌≡◌, Bool, true, false, Option, some, if◌then◌else◌}
use chubby.Prelude.Int.{ℤ}
use chubby.Prelude.Map.{◌==◌, string_eq, int_eq}
use chubby.Paxos.KeyValue.{key_value_of}
use chubby.Paxos.KeyValue.RoundTrip.{lacks}

pub record Consensus : Type 1 where
  pub State : Type 0
  pub get : State → String → Option String
  -- `Start(seq, v)` runs until its threads have been joined.
  pub start : ℤ → String → State → State
  -- Whether the slot of a number is decided.
  pub knows : State → ℤ → Bool
  pub leader_election_happened : State → Bool
  pub first_port : State → ℕ
  -- `view % num_servers`
  pub turn : State → ℤ

-- A service that decides each open slot it is asked about, and applies the value, before `Start`
-- returns; that leaves a decided slot and the database alone; and that lets through the requests of
-- the lock service.
pub record Applies (P : Consensus) : Type 0 where
  pub applied :
      (slot : ℤ) (path mode j : String) (p : P.State)
      → P.knows p slot ≡ false
      → lacks b'#' path ≡ true
      → P.get (P.start slot (key_value_of path mode) p) j
        ≡ (if path == j then some mode else P.get p j)
  pub settled :
      (slot : ℤ) (v j : String) (p : P.State)
      → P.knows p slot ≡ true
      → P.get (P.start slot v p) j ≡ P.get p j
  pub decides :
      (slot n : ℤ) (v : String) (p : P.State)
      → P.knows (P.start slot v p) n ≡ (if slot == n then true else P.knows p n)
  pub same_term :
      (slot : ℤ) (v : String) (p : P.State)
      → P.leader_election_happened (P.start slot v p) ≡ P.leader_election_happened p
