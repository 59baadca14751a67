-- ===== src/Paxos/Cell.antt =====
-- A cell while a slot is being decided: what every replica keeps of the state in which it was when
-- the value came, whatever calls have reached it since.
pub mod Keeping
pub mod Voters
pub mod Telling
pub mod Gathering
pub mod Rounds
pub mod Deciding
pub mod Starting
pub mod Opening
pub mod Ready
use text.Mathlib.TextEquality.{eq_iff}
use chubby.Prelude.{
  String, ◌≡◌, refl, sym, ap, subst, ◌∙◌, inl, inr, true, false, Bool-cases, Option, Option-cases,
  none, some, if◌then◌else◌,
}
use chubby.Prelude.Map.{lookup, insert, lookup-insert, ◌==◌, string_eq}
use chubby.Paxos.Messages.{Outcome}
use chubby.Paxos.Replica.{PaxosImpl}
use chubby.Paxos.Network.{Cluster, Delivery, call, locally}
use chubby.Paxos.Network.Calls.{call-Effect}

module _ {Disk : Type 0} (R : PaxosImpl Disk → PaxosImpl Disk → Type 0) where
  -- A replica that was there is there, in a state that is related to the one it was in; and where none
  -- was, none is.
  abbrev pub Linked : Option (PaxosImpl Disk) → Option (PaxosImpl Disk) → Type 0
  Linked none now = now ≡ none
  Linked (some s0) now = (s : PaxosImpl Disk) × (now ≡ some s) × R s0 s

  pub Near : Cluster Disk → Cluster Disk → Type 0
  Near before now = (address : String) → Linked (lookup address before) (lookup address now)

  pub Near-at :
      (address : String) (before now : Cluster Disk) (s0 : PaxosImpl Disk)
      → Near before now
      → lookup address before ≡ some s0
      → (s : PaxosImpl Disk) × (lookup address now ≡ some s) × R s0 s
  unfolding Near
  Near-at address before now s0 near e = subst (λ o. Linked o (lookup address now)) e (near address)

  Linked-back :
      (o now : Option (PaxosImpl Disk)) (s : PaxosImpl Disk)
      → Linked o now
      → now ≡ some s
      → (s0 : PaxosImpl Disk) × (o ≡ some s0) × R s0 s
  Linked-back none now s near e = cc
  Linked-back (some s0) now s (t, here, r) e =
      let same : t ≡ s = cc in (s0, refl, subst (R s0) same r)

  pub Near-back :
      (address : String) (before now : Cluster Disk) (s : PaxosImpl Disk)
      → Near before now
      → lookup address now ≡ some s
      → (s0 : PaxosImpl Disk) × (lookup address before ≡ some s0) × R s0 s
  unfolding Near
  Near-back address before now s near e =
      Linked-back (lookup address before) (lookup address now) s (near address) e

  Linked-refl :
      (o : Option (PaxosImpl Disk)) → ((s : PaxosImpl Disk) → o ≡ some s → R s s) → Linked o o
  Linked-refl none all = refl
  Linked-refl (some s) all = (s, refl, all s refl)

  pub Near-refl :
      (cluster : Cluster Disk)
      → ((address : String) (s : PaxosImpl Disk) → lookup address cluster ≡ some s → R s s)
      → Near cluster cluster
  unfolding Near
  Near-refl cluster all address = Linked-refl (lookup address cluster) (all address)

  Linked-change :
      (o now : Option (PaxosImpl Disk)) (s s' : PaxosImpl Disk)
      → Linked o now
      → now ≡ some s
      → ((s0 : PaxosImpl Disk) → o ≡ some s0 → R s0 s → R s0 s')
      → Linked o (some s')
  Linked-change none now s s' near e keep = cc
  Linked-change (some s0) now s s' (t, here, r) e keep =
      let same : t ≡ s = cc in (s', refl, keep s0 refl (subst (R s0) same r))

  -- One replica changes its state.
  pub Near-insert :
      (address : String) (before now : Cluster Disk) (s s' : PaxosImpl Disk)
      → Near before now
      → lookup address now ≡ some s
      → ((s0 : PaxosImpl Disk) → lookup address before ≡ some s0 → R s0 s → R s0 s')
      → Near before (insert address s' now)
  unfolding Near
  Near-insert address before now s s' near e keep other =
      rw (lookup-insert address other s' now) (elim (Bool-cases (address == other)) [
        | inl hit ↦
            let same = (eq_iff address other).0 hit in
            rw hit (
              subst (λ a. Linked (lookup a before) (some s')) same
                (Linked-change (lookup address before) (lookup address now) s s' (near address) e
                  keep))
        | inr miss ↦ rw miss (near other)
      ])

  pub Near-call :
      {A : Type 0} (how : Delivery) (address : String)
      (handler : PaxosImpl Disk → Outcome A × PaxosImpl Disk) (before now : Cluster Disk)
      → ((s0 s : PaxosImpl Disk) → lookup address before ≡ some s0 → R s0 s → R s0 (handler s).1)
      → Near before now
      → Near before (call how address handler now).1
  Near-call how address handler before now keep near = elim (call-Effect how address handler now) [
    | inl (no_reply, same) ↦ rw same near
    | inr (s, e, change, reply) ↦
        rw change
          (Near-insert address before now s (handler s).1 near e (λ s0 was r. keep s0 s was r))
  ]

  pub Near-locally :
      (address : String) (change : PaxosImpl Disk → PaxosImpl Disk) (before now : Cluster Disk)
      → ((s0 s : PaxosImpl Disk) → lookup address before ≡ some s0 → R s0 s → R s0 (change s))
      → Near before now
      → Near before (locally address change now)
  unfolding locally
  Near-locally address change before now keep near = elim (Option-cases (lookup address now)) [
    | inl gone ↦ rw (gone, locally) near
    | inr (s, e) ↦
        rw (e, locally)
          (Near-insert address before now s (change s) near e (λ s0 was r. keep s0 s was r))
  ]

module _ {Disk : Type 0} (R S : PaxosImpl Disk → PaxosImpl Disk → Type 0) where
  Linked-map :
      (o now : Option (PaxosImpl Disk))
      → ((s0 s : PaxosImpl Disk) → o ≡ some s0 → R s0 s → S s0 s)
      → Linked R o now
      → Linked S o now
  Linked-map none now weaken near = near
  Linked-map (some s0) now weaken (s, e, r) = (s, e, weaken s0 s refl r)

  pub Near-map :
      (before now : Cluster Disk)
      → ((address : String) (s0 s : PaxosImpl Disk)
          → lookup address before ≡ some s0
          → R s0 s
          → S s0 s)
      → Near R before now
      → Near S before now
  unfolding Near
  Near-map before now weaken near address =
      Linked-map (lookup address before) (lookup address now) (weaken address) (near address)
