-- ===== src/Paxos/Network.antt =====
-- The replicas of a cell, and calls between them. A gRPC call reaches the peer or is lost, and its
-- reply reaches the caller or is lost; which of these happens is the environment's choice.
pub mod Calls
use chubby.Prelude.{String, Option, none, some, List, [], ◌∷◌, ℕ, zero, suc}
use chubby.Prelude.Int.{pos}
use chubby.Prelude.Map.{Map, lookup, insert, string_eq}
use chubby.Paxos.Messages.{Outcome, replied}
use chubby.Paxos.Replica.{PaxosImpl}
use chubby.Paxos.Address.{address_of}

pub data Delivery : Type 0 where
  delivered lost reply_lost : Delivery

-- The replicas that run, by address.
abbrev pub Cluster : Type 0 → Type 0
Cluster Disk = Map String (PaxosImpl Disk)

-- What the caller sees: the response, or nothing if the status is not ok.
abbrev pub seen {ℓ} : {A : Type ℓ} → Delivery → Outcome A → Option A
seen delivered (replied a) = some a
seen _ _ = none

module _ {Disk A : Type 0} where
  unfoldable pub arrive :
      Delivery
      → String
      → (PaxosImpl Disk → Outcome A × PaxosImpl Disk)
      → Cluster Disk
      → Option (PaxosImpl Disk)
      → Option A × Cluster Disk
  arrive how address handler cluster none = (none, cluster)
  arrive lost address handler cluster (some replica) = (none, cluster)
  arrive delivered address handler cluster (some replica) =
      let (outcome, replica') = handler replica in
      (seen delivered outcome, insert address replica' cluster)
  arrive reply_lost address handler cluster (some replica) =
      let (outcome, replica') = handler replica in (none, insert address replica' cluster)

  -- One call of a handler at an address.
  unfoldable pub call :
      Delivery
      → String
      → (PaxosImpl Disk → Outcome A × PaxosImpl Disk)
      → Cluster Disk
      → Option A × Cluster Disk
  unfolding arrive
  call how address handler cluster = arrive how address handler cluster (lookup address cluster)

-- A change that the replica at an address makes to itself.
unfoldable pub locally :
    {Disk : Type 0} → String → (PaxosImpl Disk → PaxosImpl Disk) → Cluster Disk → Cluster Disk
locally address change cluster = elim (lookup address cluster) [
  | none ↦ cluster
  | some replica ↦ insert address (change replica) cluster
]

-- The keys of `paxos_stubs_map` that `InitializeServerStubs` makes, from a first port on.
unfoldable pub stub_addresses : ℕ → ℕ → List String
unfolding address_of
stub_addresses zero port = []
stub_addresses (suc count) port = address_of (pos port) ∷ stub_addresses count (suc port)
