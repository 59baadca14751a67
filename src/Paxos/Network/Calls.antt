-- ===== src/Paxos/Network/Calls.antt =====
-- What a call does to the cell.
use chubby.Prelude.{◌≡◌, refl, ◌⊎◌, inl, inr, String, Option, none, some, Option-cases, arith}
use chubby.Prelude.Map.{lookup, insert, string_eq}
use chubby.Paxos.Messages.{Outcome, replied, refused, threw, undefined}
use chubby.Paxos.Replica.{PaxosImpl}
use chubby.Paxos.Network.{Delivery, delivered, lost, reply_lost, Cluster, seen, arrive, call}

seen_delivered :
    {A : Type 0} (o : Outcome A)
    → (seen delivered o ≡ none) ⊎ ((a : A) × (seen delivered o ≡ some a) × (o ≡ replied a))
seen_delivered (replied a) = inr (a, refl, refl)
seen_delivered (refused code) = inl refl
seen_delivered threw = inl refl
seen_delivered undefined = inl refl

module _ {Disk A : Type 0} where
  -- A call has no effect and no reply, or the replica at the address has run the handler, and the
  -- caller may have seen its response.
  abbrev pub Effect :
      String
      → (PaxosImpl Disk → Outcome A × PaxosImpl Disk)
      → Cluster Disk
      → Option A × Cluster Disk
      → Type 0
  Effect address handler cluster result =
      ((result.0 ≡ none) × (result.1 ≡ cluster))
      ⊎ ((s : PaxosImpl Disk) × (lookup address cluster ≡ some s)
          × (result.1 ≡ insert address (handler s).1 cluster)
          × ((result.0 ≡ none) ⊎ ((a : A) × (result.0 ≡ some a) × ((handler s).0 ≡ replied a))))

  pub call-Effect :
      (how : Delivery) (address : String) (handler : PaxosImpl Disk → Outcome A × PaxosImpl Disk)
      (cluster : Cluster Disk)
      → Effect address handler cluster (call how address handler cluster)
  unfolding call arrive
  call-Effect lost address handler cluster = elim (Option-cases (lookup address cluster)) [
    | inl e ↦ inl (ground arith)
    | inr (s, e) ↦ inl (ground arith)
  ]
  call-Effect delivered address handler cluster = elim (Option-cases (lookup address cluster)) [
    | inl e ↦ inl (ground arith)
    | inr (s, e) ↦ inr (s, e, ground arith, rw (e, arrive) (seen_delivered (handler s).0))
  ]
  call-Effect reply_lost address handler cluster = elim (Option-cases (lookup address cluster)) [
    | inl e ↦ inl (ground arith)
    | inr (s, e) ↦ inr (s, e, ground arith, inl (ground arith))
  ]
