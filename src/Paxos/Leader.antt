-- ===== src/Paxos/Leader.antt =====
-- Failure detection and elections: `DetectLeaderFailure` and `Election` of
-- src/paxos/paxos_server.cpp.
pub mod Turn
pub mod Quorum
use chubby.Prelude.{
  ℕ, suc, ◌+◌, ◌/◌, ◌<◌, String, Bool, true, false, ◌&&◌, Option, none, some, List, [], ◌∷◌,
  if◌then◌else◌, ltb,
}
use chubby.Prelude.Int.{ℤ, pos, negsuc, ◌+ℤ◌, ◌-ℤ◌, ◌%ℤ◌, ltb_ℤ, leb_ℤ, int_beq}
use chubby.Prelude.Map.{Map, lookup, ◌==◌, string_eq}
use chubby.Paxos.Messages.{Outcome, replied, ElectRequest, ElectResponse}
use chubby.Paxos.Replica.{PaxosImpl}
use chubby.Paxos.Acceptor.{elect, adopt}
use chubby.Paxos.Network.{Cluster, Delivery, call, locally}

-- The arguments of the `Election` thread that is started, if one is.
abbrev launch : ℤ → ℤ → ℤ → ℤ → Option (ℤ × ℤ)
launch view group_size me turn =
    if ltb_ℤ turn me
    then some (view, me -ℤ turn)
    else if ltb_ℤ me turn
    then some (view, me +ℤ group_size -ℤ turn)
    else none

module _ {Disk : Type 0} where
  -- `DetectLeaderFailure`, which the server calls once a second. The thread that clears
  -- `leader_election_happened` after 40 seconds is `clear_election`.
  unfoldable pub detect_leader_failure : PaxosImpl Disk → Option (ℤ × ℤ) × PaxosImpl Disk
  detect_leader_failure s =
      let missed = s.missed_heartbeats +ℤ pos 1 in
      if ltb_ℤ (pos 3) missed
      then (
        launch s.view (pos s.group_size) (pos s.me) (s.view %ℤ s.group_size),
        record s { missed_heartbeats = pos 0; leader_dead = true; leader_election_happened = true },
      )
      else (none, record s { missed_heartbeats = missed })

  unfoldable pub clear_election : PaxosImpl Disk → PaxosImpl Disk
  clear_election s = record s { leader_election_happened = false }

-- The local variables of one round of `Election`.
pub record Tally : Type 0 where
  pub majority_count : ℕ
  pub reject_count : ℕ
  pub highest_view : ℤ
  pub max_highest_accepted_seq : ℤ

abbrev pub no_votes : Tally
no_votes = record {
  majority_count = 0;
  reject_count = 0;
  highest_view = negsuc 0;
  max_highest_accepted_seq = negsuc 0;
}

abbrev pub larger : ℤ → ℤ → ℤ
larger a b = if ltb_ℤ a b then b else a

-- The reply of one peer; `none` is a status that is not ok.
unfoldable pub count_reply : Option ElectResponse → Tally → Tally
count_reply none t = t
count_reply (some response) t =
    if response.status == "Reject"
    then record t {
      reject_count = suc t.reject_count;
      highest_view = larger t.highest_view response.view;
    }
    else if response.status == "OK"
    then record t {
      majority_count = suc t.majority_count;
      max_highest_accepted_seq = larger t.max_highest_accepted_seq response.highest_seq;
    }
    else t

module _ {Disk : Type 0} where
  -- `Elect` as a handler: it always replies.
  unfoldable pub serve_elect :
      ElectRequest → PaxosImpl Disk → Outcome ElectResponse × PaxosImpl Disk
  unfolding elect
  serve_elect request s = let (response, s') = elect request s in (replied response, s')

  -- The loop over the stubs.
  unfoldable pub canvass :
      String → ℤ → List (String × Delivery) → Tally → Cluster Disk → Tally × Cluster Disk
  unfolding serve_elect count_reply call
  canvass self target [] t cluster = (t, cluster)
  canvass self target ((address, how) ∷ rest) t cluster = elim (address == self) [
    | true ↦ canvass self target rest t cluster
    | false ↦
        let (response, cluster') =
          call how address (serve_elect (record { view = target })) cluster in
        canvass self target rest (count_reply response t) cluster'
  ]

  abbrev step_down : ℤ → PaxosImpl Disk → PaxosImpl Disk
  step_down view s = if ltb_ℤ s.view view then adopt view s else s

  abbrev take_seq : ℤ → PaxosImpl Disk → PaxosImpl Disk
  take_seq seq s =
      if ltb_ℤ s.highest_accepted_seq seq then record s { highest_accepted_seq = seq } else s

  -- The section of `Election` under `mu`, for the view `target = my_view + offset` and the number of
  -- stubs: the new state, and whether the election is over.
  unfoldable pub conclude : ℤ → ℕ → Tally → PaxosImpl Disk → Bool × PaxosImpl Disk
  conclude target stubs t s =
      if ltb 0 t.reject_count
      then (
        true,
        if ltb_ℤ s.view t.highest_view && ltb_ℤ target t.highest_view
            then adopt t.highest_view s
            else s,
      )
      else if ltb (stubs / 2) (t.majority_count + 1)
      then (
        true,
        if leb_ℤ t.highest_view target && ltb_ℤ s.view target
            then take_seq t.max_highest_accepted_seq (adopt target s)
            else step_down t.highest_view s,
      )
      else (false, s)

  -- `Election`: one list of deliveries for each round of its loop. The result tells whether it has
  -- returned within these rounds.
  unfoldable pub election :
      String → ℤ → ℕ → List (List (String × Delivery)) → Cluster Disk → Bool × Cluster Disk
  unfolding canvass conclude
  election self target stubs [] cluster = (false, cluster)
  election self target stubs (peers ∷ rounds) cluster =
      let (t, cluster1) = canvass self target peers no_votes cluster in
      elim (lookup self cluster1) [
        | none ↦ (false, cluster1)
        | some s ↦
            let (over, s') = conclude target stubs t s in
            let cluster2 = locally self (λ _. s') cluster1 in
            elim over [
              | true ↦ (true, cluster2)
              | false ↦ election self target stubs rounds cluster2
            ]
      ]
