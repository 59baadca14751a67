-- ===== src/Paxos/Leader/Quorum.antt =====
-- What the votes that `Election` counts stand for, and what it takes to win.
use text.Mathlib.TextEquality.{eq_iff}
use chubby.Prelude.{
  ℕ, suc, ◌+◌, ◌*◌, ◌<◌, ◌≤◌, ◌≡◌, refl, ◌∙◌, sym, ap, ◌⊎◌, inl, inr, Bool, true, false, none, some,
  String, List, [], ◌∷◌, Option, arith, if◌then◌else◌, Bool-cases,
}
use chubby.Prelude.Int.{ℤ, ◌<ℤ◌, leb_ℤ}
use chubby.Prelude.Map.{lookup, insert, lookup-insert, beq_refl, ◌==◌, string_eq}
use chubby.Paxos.Messages.{replied, ElectRequest, ElectResponse}
use chubby.Paxos.Replica.{PaxosImpl}
use chubby.Paxos.Network.{Cluster, Delivery, call}
use chubby.Paxos.Network.Calls.{call-Effect}
use chubby.Paxos.Leader.{Tally, no_votes, serve_elect, count_reply, canvass, conclude}

abbrev request : ℤ → ElectRequest
request target = record { view = target }

module _ {Disk : Type 0} (target : ℤ) where
  reaches : Option (PaxosImpl Disk) → Bool
  reaches none = false
  reaches (some s) = leb_ℤ target s.view

  -- The replica at an address is in the given view or in a later one.
  pub supports : Cluster Disk → String → Bool
  unfolding reaches
  supports cluster address = reaches (lookup address cluster)

  reaches-elect :
      (s : PaxosImpl Disk)
      → reaches (some s) ≡ true
      → reaches (some (serve_elect (request target) s).1) ≡ true
  unfolding reaches serve_elect
  reaches-elect s h = ground arith

  -- Nobody says OK to a view that it has passed, so an OK is support.
  ok-reaches :
      (s : PaxosImpl Disk) (response : ElectResponse)
      → (serve_elect (request target) s).0 ≡ replied response
      → (response.status == "OK") ≡ true
      → reaches (some (serve_elect (request target) s).1) ≡ true
  unfolding reaches serve_elect
  ok-reaches s response e h = ground arith

  supports-insert :
      (address other : String) (s : PaxosImpl Disk) (cluster : Cluster Disk)
      → supports (insert address s cluster) other
        ≡ (if address == other then reaches (some s) else supports cluster other)
  unfolding supports
  supports-insert address other s cluster =
      ap reaches (lookup-insert address other s cluster) ∙ ground arith

  supports_at :
      (address : String) (s : PaxosImpl Disk) (cluster : Cluster Disk)
      → lookup address cluster ≡ some s
      → supports cluster address ≡ reaches (some s)
  unfolding supports
  supports_at address s cluster e = ap reaches e

  -- A vote that is asked for does not take back another.
  supports-call :
      (how : Delivery) (address other : String) (cluster : Cluster Disk)
      → supports cluster other ≡ true
      → supports (call how address (serve_elect (request target)) cluster).1 other ≡ true
  supports-call how address other cluster h =
      elim (call-Effect how address (serve_elect (request target)) cluster) [
        | inl (no_reply, same) ↦ rw same h
        | inr (s, e, change, reply) ↦
            rw (change, supports-insert address other (serve_elect (request target) s).1 cluster)
              (elim (Bool-cases (address == other)) [
                | inl hit ↦ rw hit (
                    reaches-elect s (
                      sym (supports_at address s cluster e)
                      ∙ ap (supports cluster) ((eq_iff address other).0 hit)
                      ∙ h))
                | inr miss ↦ rw miss h
              ])
      ]

  -- An OK that the caller sees comes from a replica that supports the view.
  ok-supports :
      (how : Delivery) (address : String) (cluster : Cluster Disk) (response : ElectResponse)
      → (call how address (serve_elect (request target)) cluster).0 ≡ some response
      → (response.status == "OK") ≡ true
      → supports (call how address (serve_elect (request target)) cluster).1 address ≡ true
  ok-supports how address cluster response seen vote =
      elim (call-Effect how address (serve_elect (request target)) cluster) [
        | inl (no_reply, same) ↦ cc
        | inr (s, e, change, inl no_reply) ↦ cc
        | inr (s, e, change, inr (a, got, reply)) ↦
            rw
              (
                change,
                supports-insert address address (serve_elect (request target) s).1 cluster,
                beq_refl address,
              )
              (ok-reaches s response (cc) vote)
      ]

  -- The peers, other than the candidate itself, that support a view.
  pub supporters : String → List (String × Delivery) → Cluster Disk → ℕ
  supporters self [] cluster = 0
  supporters self ((address, how) ∷ rest) cluster =
      let others = supporters self rest cluster in
      if address == self then others else if supports cluster address then suc others else others

-- A reply adds a vote only if it says OK.
count-reply :
    (reply : Option ElectResponse) (t : Tally)
    → ((count_reply reply t).majority_count ≡ t.majority_count)
      ⊎ (((count_reply reply t).majority_count ≡ suc t.majority_count)
          × ((response : ElectResponse) × (reply ≡ some response)
              × ((response.status == "OK") ≡ true)))
unfolding count_reply
count-reply none t = inl refl
count-reply (some response) t = elim (Bool-cases (response.status == "Reject")) [
  | inl no_vote ↦ inl (ground arith)
  | inr other ↦ elim (Bool-cases (response.status == "OK")) [
    | inl vote ↦ inr (ground arith, (response, refl, vote))
    | inr neither ↦ inl (ground arith)
  ]
]

module _ {Disk : Type 0} (target : ℤ) (self : String) where
  supports-canvass :
      (peers : List (String × Delivery)) (other : String) (t : Tally) (cluster : Cluster Disk)
      → supports target cluster other ≡ true
      → supports target (canvass self target peers t cluster).1 other ≡ true
  unfolding canvass
  supports-canvass [] other t cluster h = h
  supports-canvass ((address, how) ∷ rest) other t cluster h = elim (Bool-cases (address == self)) [
    | inl own ↦ rw (own, canvass) (supports-canvass rest other t cluster h)
    | inr peer ↦
        rw (peer, canvass)
          (supports-canvass rest other _ _ (supports-call target how address other cluster h))
  ]

  votes-le-supporters :
      (peers : List (String × Delivery)) (t : Tally) (cluster : Cluster Disk)
      → let (t', cluster') = canvass self target peers t cluster in
        t'.majority_count ≤ t.majority_count + supporters target self peers cluster'
  unfolding canvass supporters
  votes-le-supporters [] t cluster = omega arith
  votes-le-supporters ((address, how) ∷ rest) t cluster = elim (Bool-cases (address == self)) [
    | inl own ↦ rw (own, canvass) (votes-le-supporters rest t cluster)
    | inr peer ↦
        let asked = call how address (serve_elect (request target)) cluster in
        let counted = votes-le-supporters rest (count_reply asked.0 t) asked.1 in
        rw (peer, canvass)
          (elim (count-reply asked.0 t) [
            | inl none_new ↦ ground (arith, counted, none_new)
            | inr (one_new, (response, got, vote)) ↦ ground (
              arith,
              counted,
              one_new,
              supports-canvass rest address (count_reply asked.0 t) asked.1
                  (ok-supports target how address cluster response got vote),
            )
          ])
  ]

-- The section that ends a round moves a candidate from below the view to the view itself only if
-- nobody has rejected it and its votes, with its own, are more than half of the stubs.
won :
    {Disk : Type 0} (target : ℤ) (stubs : ℕ) (t : Tally) (s : PaxosImpl Disk)
    → s.view <ℤ target
    → (conclude target stubs t s).1.view ≡ target
    → (t.reject_count ≡ 0)
      × ((conclude target stubs t s).0 ≡ true)
      × (stubs < 2 * (t.majority_count + 1))
unfolding conclude
won target stubs t s below reached = ground arith

-- A round of `Election` that takes the candidate from an earlier view into the view that it runs for
-- ends the election, has met no rejection, and is backed by a quorum: the candidate together with
-- the peers that are then in that view or a later one are more than half of the stubs.
pub election_quorum :
    {Disk : Type 0} (self : String) (target : ℤ) (stubs : ℕ) (peers : List (String × Delivery))
    (cluster : Cluster Disk) (s : PaxosImpl Disk)
    → let (t, cluster') = canvass self target peers no_votes cluster in
      lookup self cluster' ≡ some s
      → s.view <ℤ target
      → (conclude target stubs t s).1.view ≡ target
      → (t.reject_count ≡ 0)
        × ((conclude target stubs t s).0 ≡ true)
        × (stubs < 2 * (supporters target self peers cluster' + 1))
election_quorum self target stubs peers cluster s here below reached =
    let (t, cluster') = canvass self target peers no_votes cluster in
    let (no_rejects, over, votes) = won target stubs t s below reached in
    (no_rejects, over, omega (arith, votes, votes-le-supporters target self peers no_votes cluster))
