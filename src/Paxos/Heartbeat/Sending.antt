-- ===== src/Paxos/Heartbeat/Sending.antt =====
-- `SendHeartbeats` over all stubs: what its peers are left with.
use text.Mathlib.TextEquality.{eq_iff}
use chubby.Prelude.{
  String, ◌≡◌, ◌≢◌, refl, ap, ◌∙◌, ◌⊎◌, inl, inr, true, Bool-cases, Option, Option-cases, some,
  List, [], ◌∷◌, ◌++◌, if◌then◌else◌, of_branches, arith, ℕ,
}
use chubby.Prelude.Int.{ℤ, pos, ◌≤ℤ◌, int_beq_iff}
use chubby.Prelude.Map.{Map, lookup, lookup-insert, int_eq, string_eq, ◌==◌, beq_refl}
use chubby.Paxos.Slot.{PaxosSlot, SlotMessage, is_decided}
use chubby.Paxos.Messages.{HeartbeatRequest, HeartbeatResponse}
use chubby.Paxos.Replica.{PaxosImpl}
use chubby.Paxos.Replica.Slots.{slot_at}
use chubby.Paxos.Network.{Cluster, Delivery, delivered, lost, reply_lost, call, arrive, locally}
use chubby.Paxos.Network.Calls.{call-Effect}
use chubby.Paxos.Heartbeat.{heartbeat, begin_heartbeats, absorb, send_loop, send_heartbeats}
use chubby.Paxos.Heartbeat.Numbered.{me-absorb, me-heartbeat}
use chubby.Paxos.Heartbeat.Merging.{merges}
use chubby.Paxos.Heartbeat.Spreading.{heartbeat_spreads}

-- The peers with their deliveries; the stubs are a map, so no address comes twice.
abbrev pub Peers : Type 0
Peers = List (String × Delivery)

abbrev pub Without : String → Peers → Type 0
Without address [] = Unit {0}
Without address ((other, how) ∷ rest) = (other ≢ address) × Without address rest

-- A request to the address arrives, and it is the only one to it.
abbrev pub Reaches : String → Peers → Type 0
Reaches address [] = ⊥
Reaches address ((other, how) ∷ rest) =
    ((other ≡ address) × (how ≢ lost) × Without address rest)
    ⊎ ((other ≢ address) × Reaches address rest)

abbrev beat_of : ℤ → Map ℤ SlotMessage → ℕ → List ℤ → HeartbeatRequest
beat_of view slots m sent = record { id = pos m; view = view; done = sent; slots = slots }

module _ {Disk : Type 0} where
  module _ (self : String) (view : ℤ) (slots : Map ℤ SlotMessage) where
    beat : PaxosImpl Disk → List ℤ → HeartbeatRequest
    beat sender sent = record { id = pos sender.me; view = view; done = sent; slots = slots }

    -- The cell after the turn of one peer.
    after_peer : String → Delivery → PaxosImpl Disk → List ℤ → Cluster Disk → Cluster Disk
    after_peer address how sender sent cluster =
        let (response, cluster1) = call how address (heartbeat (beat sender sent)) cluster in
        if address == self then cluster1 else locally self (absorb response) cluster1

    called : String → Delivery → PaxosImpl Disk → List ℤ → Cluster Disk → Cluster Disk
    called address how sender sent cluster =
        (call how address (heartbeat (beat sender sent)) cluster).1

    send_loop-step :
        (address : String) (how : Delivery) (rest : Peers) (done : List ℤ) (sender : PaxosImpl Disk)
        (cluster : Cluster Disk)
        → lookup self cluster ≡ some sender
        → send_loop self view slots done ((address, how) ∷ rest) cluster
          ≡ send_loop self view slots
              (done ++ sender.done)
              rest
              (after_peer address how sender (done ++ sender.done) cluster)
    unfolding send_loop after_peer beat
    send_loop-step address how rest done sender cluster at = rw (at, send_loop)

    lookup-locally :
        (change : PaxosImpl Disk → PaxosImpl Disk) (address : String) (cluster : Cluster Disk)
        → address ≢ self
        → lookup address (locally self change cluster) ≡ lookup address cluster
    unfolding locally
    lookup-locally change address cluster other = elim (Option-cases (lookup self cluster)) [
      | inl gone ↦ rw (gone, locally)
      | inr (s, found) ↦
          rw (found, locally)
            (lookup-insert self address (change s) cluster
              ∙ ground (arith, eq_iff self address, other))
    ]

    -- A replica other than the one that is called is as it was.
    lookup-called :
        (address : String) (how : Delivery) (sender : PaxosImpl Disk) (sent : List ℤ) (x : String)
        (cluster : Cluster Disk)
        → address ≢ x
        → lookup x (called address how sender sent cluster) ≡ lookup x cluster
    unfolding called
    lookup-called address how sender sent x cluster other =
        elim (call-Effect how address (heartbeat (beat sender sent)) cluster) [
          | inl (silent, same) ↦ ap (lookup x) same
          | inr (s, found, same, reply) ↦
              ap (lookup x) same
              ∙ lookup-insert address x _ cluster
              ∙ ground (arith, eq_iff address x, other)
        ]

    lookup-after_peer :
        (address : String) (how : Delivery) (sender : PaxosImpl Disk) (sent : List ℤ) (x : String)
        (cluster : Cluster Disk)
        → x ≢ self
        → lookup x (after_peer address how sender sent cluster)
          ≡ lookup x (called address how sender sent cluster)
    unfolding after_peer called
    lookup-after_peer address how sender sent x cluster other =
        elim (Bool-cases (address == self)) [
          | inl own ↦ rw own
          | inr foreign ↦ rw foreign (lookup-locally _ x _ other)
        ]

    -- The replica that is called, when the request arrives.
    lookup-reached :
        (how : Delivery) (sender : PaxosImpl Disk) (sent : List ℤ) (x : String) (p : PaxosImpl Disk)
        (cluster : Cluster Disk)
        → how ≢ lost
        → lookup x cluster ≡ some p
        → lookup x (called x how sender sent cluster) ≡ some (heartbeat (beat sender sent) p).1
    unfolding called call
    lookup-reached lost sender sent x p cluster arrives found = absurd (arrives refl)
    lookup-reached delivered sender sent x p cluster arrives found =
        rw (called, call, found, arrive) (lookup-insert x x _ cluster ∙ rw (beq_refl x))
    lookup-reached reply_lost sender sent x p cluster arrives found =
        rw (called, call, found, arrive) (lookup-insert x x _ cluster ∙ rw (beq_refl x))

    -- The sender is there, and keeps its number.
    Stands : ℕ → Cluster Disk → Type 0
    Stands m cluster = (s : PaxosImpl Disk) × ((lookup self cluster ≡ some s) × (s.me ≡ m))

    called-Stands :
        (m : ℕ) (address : String) (how : Delivery) (sender : PaxosImpl Disk) (sent : List ℤ)
        (cluster : Cluster Disk)
        → Stands m cluster
        → Stands m (called address how sender sent cluster)
    unfolding Stands called
    called-Stands m address how sender sent cluster (s, (at, mine)) =
        elim (call-Effect how address (heartbeat (beat sender sent)) cluster) [
          | inl (silent, same) ↦ rw same (s, (at, mine))
          | inr (p, found, same, reply) ↦ elim (Bool-cases (address == self)) [
            | inr foreign ↦ (
              s,
              (ap (lookup self) same ∙ lookup-insert address self _ cluster ∙ rw foreign at, mine),
            )
            | inl own ↦ (
              (heartbeat (beat sender sent) p).1,
              (
                ap (lookup self) same ∙ lookup-insert address self _ cluster ∙ rw own,
                me-heartbeat (beat sender sent) p
                    ∙ ground (arith, found, at, mine, (eq_iff address self).0 own),
              ),
            )
          ]
        ]

    locally-Stands :
        (m : ℕ) (response : Option HeartbeatResponse) (cluster : Cluster Disk)
        → Stands m cluster
        → Stands m (locally self (absorb response) cluster)
    unfolding Stands locally
    locally-Stands m response cluster (s, (at, mine)) =
        rw (at, locally)
          (
            absorb response s,
            (lookup-insert self self _ cluster ∙ rw (beq_refl self), me-absorb response s ∙ mine),
          )

    after_peer-Stands :
        (m : ℕ) (address : String) (how : Delivery) (sender : PaxosImpl Disk) (sent : List ℤ)
        (cluster : Cluster Disk)
        → Stands m cluster
        → Stands m (after_peer address how sender sent cluster)
    unfolding after_peer called
    after_peer-Stands m address how sender sent cluster stands =
        let kept = called-Stands m address how sender sent cluster stands in
        of_branches (Stands m) (address == self) _ _ kept
          (locally-Stands m (call how address (heartbeat (beat sender sent)) cluster).0 _ kept)

    send_loop-untouched :
        (m : ℕ) (x : String) (peers : Peers) (done : List ℤ) (cluster : Cluster Disk)
        → x ≢ self
        → Without x peers
        → Stands m cluster
        → lookup x (send_loop self view slots done peers cluster) ≡ lookup x cluster
    unfolding Stands send_loop
    send_loop-untouched m x [] done cluster other without stands = refl
    send_loop-untouched m x ((address, how) ∷ rest) done cluster other without (s, (at, mine)) =
        let sent = done ++ s.done in
        ap (lookup x) (send_loop-step address how rest done s cluster at)
        ∙ send_loop-untouched m x rest sent _ other without.1
            (after_peer-Stands m address how s sent cluster (s, (at, mine)))
        ∙ lookup-after_peer address how s sent x cluster other
        ∙ lookup-called address how s sent x cluster without.0

    -- What the peer is left with: the heartbeat with some `done`.
    Beaten : ℕ → PaxosImpl Disk → Option (PaxosImpl Disk) → Type 0
    Beaten m p found = (sent : List ℤ) × (found ≡ some (heartbeat (beat_of view slots m sent) p).1)

    send_loop-Beaten :
        (m : ℕ) (x : String) (p : PaxosImpl Disk) (peers : Peers) (done : List ℤ)
        (cluster : Cluster Disk)
        → x ≢ self
        → Reaches x peers
        → Stands m cluster
        → lookup x cluster ≡ some p
        → Beaten m p (lookup x (send_loop self view slots done peers cluster))
    unfolding Stands Beaten beat
    send_loop-Beaten m x p [] done cluster other reaches stands found = absurd reaches
    send_loop-Beaten m x p ((address, how) ∷ rest) done cluster other
          (inl (named, arrives, without)) (s, (at, mine)) found =
        let sent = done ++ s.done in
        (
          sent,
          ap (lookup x) (send_loop-step address how rest done s cluster at)
              ∙ send_loop-untouched m x rest sent _ other without
                  (after_peer-Stands m address how s sent cluster (s, (at, mine)))
              ∙ lookup-after_peer address how s sent x cluster other
              ∙ ap (λ a. lookup x (called a how s sent cluster)) named
              ∙ lookup-reached how s sent x p cluster arrives found
              ∙ ap (λ k. some (heartbeat (beat_of view slots k sent) p).1) mine,
        )
    send_loop-Beaten m x p ((address, how) ∷ rest) done cluster other (inr (foreign, later))
          (s, (at, mine)) found =
        let sent = done ++ s.done in
        let next = after_peer address how s sent cluster in
        let (sent', same) =
          send_loop-Beaten m x p rest sent next other later
            (after_peer-Stands m address how s sent cluster (s, (at, mine)))
            (lookup-after_peer address how s sent x cluster other
              ∙ lookup-called address how s sent x cluster foreign
              ∙ found) in
        (sent', ap (lookup x) (send_loop-step address how rest done s cluster at) ∙ same)

  -- When the replica that leads its view, at `self`, runs `SendHeartbeats`, and has decided a slot, then
  -- a peer with another address and number, whose stub comes once and whose request is not lost, and
  -- that is in that view or an earlier one, ends with the slot decided: with the value of the peer if it
  -- had decided the slot, and with that of the leader otherwise; and its database is as it was.
  pub send_heartbeats_lem :
      (self x : String) (peers : Peers) (cluster : Cluster Disk) (s p : PaxosImpl Disk) (view : ℤ)
      (slots : Map ℤ SlotMessage) (j : ℤ) (slot : PaxosSlot)
      → lookup self cluster ≡ some s
      → begin_heartbeats s ≡ some (view, slots)
      → lookup j s.slots ≡ some slot
      → is_decided slot.status ≡ true
      → lookup x cluster ≡ some p
      → x ≢ self
      → Reaches x peers
      → pos p.me ≢ pos s.me
      → p.view ≤ℤ view
      → (t : PaxosImpl Disk) × (lookup x (send_heartbeats self peers cluster) ≡ some t)
        × (is_decided (slot_at t j).status ≡ true)
        × ((slot_at t j).value
            ≡ (if is_decided (slot_at p j).status then (slot_at p j).value else slot.value))
        × (t.paxos_db ≡ p.paxos_db)
  unfolding send_heartbeats Stands Beaten
  send_heartbeats_lem self x peers cluster s p view slots j slot at begun known done found other
        reaches differs behind =
      let (sent, same) =
        send_loop-Beaten self view slots s.me x p peers [] cluster other reaches (s, (at, refl))
          found in
      let spread = heartbeat_spreads s p view slots sent j slot begun differs behind known done in
      (
        (heartbeat (beat_of view slots s.me sent) p).1,
        rw (at, send_heartbeats, begun) same,
        spread.0,
        spread.1,
        (merges (beat_of view slots s.me sent) p (ground (arith, int_beq_iff (pos p.me) (pos s.me)))
            behind).paxos_db,
      )
