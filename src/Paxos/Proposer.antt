-- ===== src/Paxos/Proposer.antt =====
-- How a value becomes decided: `Start`, `StartOnForward`, `ForwardLeader` and `StartOnNewSlot` of
-- src/paxos/paxos_server.cpp, run over the cell. `mu` is not recursive and is held across the
-- forwarding call, so a run carries the addresses whose `mu` its callers hold.
pub mod Phases
pub mod Numbers
pub mod Lost
pub mod Unvoted
pub mod SplitBrain
pub mod Blocking
use chubby.Prelude.{
  ℕ, zero, suc, ◌+◌, ◌/◌, String, Bool, true, false, ◌&&◌, ◌||◌, not, Option, none, some, List, [],
  ◌∷◌, if◌then◌else◌,
}
use chubby.Prelude.Int.{ℤ, pos, negsuc, ◌+ℤ◌, ◌%ℤ◌, ltb_ℤ, leb_ℤ, int_beq}
use chubby.Prelude.Map.{Map, lookup, insert, ◌==◌, string_eq}
use chubby.Storage.{RocksDb, RocksDbWrapper}
use chubby.Paxos.Slot.{is_decided}
use chubby.Paxos.Address.{address_of}
use chubby.Paxos.Replica.{PaxosImpl, add_slots}
use chubby.Paxos.Replica.Slots.{slot_at}
use chubby.Paxos.Acceptor.{adopt, store_slot}
use chubby.Paxos.Network.{Cluster, Delivery, delivered, lost, reply_lost, locally}
use Phases.{
  Gathered, Votes, gather_start, no_accepts, prepare_loop, accept_loop, learn_loop, member,
  choose_number,
}

-- How a call ends: it returns; it waits for a lock that its own callers hold, or locks one that it
-- holds; an exception leaves a thread, which ends the process; or it has not ended within the runs
-- that are given.
pub data Ending : Type 0 where
  finished deadlocked terminated unfinished : Ending

-- The environment's choices for one call: for each phase a delivery for each stub, in the order of
-- `paxos_stubs_map`, and one for the forwarded call. A stub that is left out is one whose request is
-- lost: a loop over the others does the same.
pub record Links : Type 0 where
  pub prepares : List (String × Delivery)
  pub accepts : List (String × Delivery)
  pub learns : List (String × Delivery)
  pub forward : Delivery

-- A call at an address, of `Start`, of `StartOnForward`, or of `StartOnNewSlot` with `my_view`.
pub data Job : Type 0 where
  starts forwards : String → ℤ → String → Job
  proposes : String → ℤ → String → ℤ → Job

abbrev pub Run : Type 0 → Type 0
Run Disk = Ending × Cluster Disk

-- `view % num_servers == me`
unfoldable pub leads : {Disk : Type 0} → PaxosImpl Disk → Bool
leads s = int_beq (s.view %ℤ s.num_servers) (pos s.me)

-- The address that a request is forwarded to.
unfoldable pub leader_of : {Disk : Type 0} → PaxosImpl Disk → String
leader_of s = address_of (pos s.first_port +ℤ (s.view %ℤ s.num_servers))

module _ {Disk : Type 0} where
  -- `Start`; the two threads that it may start are joined before it returns.
  unfoldable pub start_at :
      (Job → List String → Cluster Disk → Run Disk)
      → String
      → ℤ
      → String
      → List String
      → Cluster Disk
      → Run Disk
  unfolding add_slots leads
  start_at next self seq v held cluster =
      if member self held then (deadlocked, cluster) else elim (lookup self cluster) [
        | none ↦ (finished, cluster)
        | some s ↦
            if ltb_ℤ seq s.lowest_slot
            then (finished, cluster)
            else (let (slot, s') = add_slots seq s in
                let cluster' = insert self s' cluster in
                let propose = next (proposes self seq v s'.view) held cluster' in
                let forward = next (forwards self seq v) held cluster' in
                if is_decided slot.status || s'.is_dead
                then (finished, cluster')
                else if leads s'
                then (if s'.leader_dead then (finished, cluster') else propose)
                else forward)
      ]

  abbrev pub answered : Delivery → Run Disk → Run Disk
  answered delivered (finished, cluster) = (finished, cluster)
  answered how (finished, cluster) = (deadlocked, cluster)
  answered how (deadlocked, cluster) = (deadlocked, cluster)
  answered how (terminated, cluster) = (terminated, cluster)
  answered how (unfinished, cluster) = (unfinished, cluster)

  -- The forwarded call. A leader that does not run, or whose reply is lost, gives a status that is not
  -- ok; the call then locks `mu` a second time. It takes the leader to have a stub.
  abbrev pub call_leader :
      (Job → List String → Cluster Disk → Run Disk)
      → Delivery
      → String
      → String
      → ℤ
      → String
      → List String
      → Cluster Disk
      → Run Disk
  call_leader next lost self leader seq v held cluster = (deadlocked, cluster)
  call_leader next how self leader seq v held cluster = elim (lookup leader cluster) [
    | none ↦ (deadlocked, cluster)
    | some _ ↦ answered how (next (starts leader seq v) (self ∷ held) cluster)
  ]

  -- `StartOnForward`, which holds `mu` throughout. On a leader it calls `StartOnNewSlot`, which
  -- returns at once if the replica is dead and otherwise locks `mu` again. Without a reply that says
  -- OK it locks `mu` again too.
  unfoldable pub forward_at :
      (Job → List String → Cluster Disk → Run Disk)
      → Delivery
      → String
      → ℤ
      → String
      → List String
      → Cluster Disk
      → Run Disk
  unfolding add_slots leads leader_of
  forward_at next how self seq v held cluster =
      if member self held then (deadlocked, cluster) else elim (lookup self cluster) [
        | none ↦ (finished, cluster)
        | some s ↦
            let (slot, s') = add_slots seq s in
            let cluster' = insert self s' cluster in
            let away = call_leader next how self (leader_of s') seq v held cluster' in
            if not (is_decided slot.status) && leads s' && not s'.leader_dead
            then (if s'.is_dead then finished else deadlocked, cluster')
            else away
      ]

-- `slot->highest_N` as the prepare phase leaves it.
unfoldable pub keep_highest : {Disk : Type 0} → ℤ → ℤ → PaxosImpl Disk → PaxosImpl Disk
unfolding store_slot slot_at
keep_highest seq highest_n s = store_slot seq (record (slot_at s seq) { highest_n = highest_n }) s

module _ (R : RocksDb) (null_text : String) where
  abbrev Cell : Type 0
  Cell = Cluster (RocksDbWrapper R)

  -- The end of `StartOnNewSlot`: the learn phase.
  abbrev tell :
      List String → String → ℤ → String → List (String × Delivery) → Cell → Run (RocksDbWrapper R)
  tell held self seq value learns cluster =
      let (stuck, cluster') = learn_loop R self held seq value learns cluster in
      (if stuck then deadlocked else finished, cluster')

  -- The accept phase and what follows it. The value to learn is the one to accept, also when no
  -- majority has voted for it: the code then waits for a moment and goes on.
  unfoldable pub accept_and_tell :
      List String → String → ℤ → ℤ → String → String → Links → Cell → Run (RocksDbWrapper R)
  unfolding accept_loop learn_loop
  accept_and_tell held self seq my_view value decided_v links cluster =
      let (stuck, votes, cluster') =
        accept_loop null_text self held seq my_view value links.accepts (no_accepts decided_v)
          cluster in
      let told = tell held self seq value links.learns cluster' in
      if stuck
      then (deadlocked, cluster')
      else if votes.is_decided_acc
      then (finished, cluster')
      else told

  -- `if (highest_va == "") highest_va = v`
  abbrev pub or_own : String → String → String
  or_own va v = if va == "" then v else va

  abbrev after_return : Run (RocksDbWrapper R) → Run (RocksDbWrapper R)
  after_return (finished, cluster) = (terminated, cluster)
  after_return (deadlocked, cluster) = (deadlocked, cluster)
  after_return (terminated, cluster) = (terminated, cluster)
  after_return (unfinished, cluster) = (unfinished, cluster)

  -- What follows the prepare phase. A view above `my_view` among the replies makes the proposer
  -- forward the value; if it also had to adopt that view, it unlocks `mu` twice, which throws. The
  -- same test after the accept phase cannot pass, since only the prepare phase raises `highest_na`.
  unfoldable pub after_prepare :
      (Job → List String → Cell → Run (RocksDbWrapper R))
      → List String
      → String
      → ℤ
      → String
      → ℤ
      → Links
      → Gathered
      → Cell
      → Run (RocksDbWrapper R)
  unfolding accept_and_tell
  after_prepare next held self seq v my_view links g cluster =
      let newer : Bool = elim (lookup self cluster) [
        | none ↦ false
        | some s ↦ ltb_ℤ s.view g.highest_na
      ] in
      let adopted =
        after_return
          (next (forwards self seq v) held (locally self (adopt g.highest_na) cluster)) in
      let forwarded = next (forwards self seq v) held cluster in
      let known = tell held self seq g.decided_v links.learns cluster in
      let own = accept_and_tell held self seq my_view (or_own g.highest_va v) "" links cluster in
      if ltb_ℤ my_view g.highest_na
      then (if newer then adopted else forwarded)
      else if g.is_decided_prep
      then known
      else own

  -- `StartOnNewSlot` on a slot that `Start` has made. `stubs` is the size of `paxos_stubs_map`.
  unfoldable pub propose_at :
      (Job → List String → Cell → Run (RocksDbWrapper R))
      → ℕ
      → Links
      → String
      → ℤ
      → String
      → ℤ
      → List String
      → Cell
      → Run (RocksDbWrapper R)
  unfolding choose_number prepare_loop gather_start after_prepare keep_highest
  propose_at next stubs links self seq v my_view held cluster = elim (lookup self cluster) [
    | none ↦ (finished, cluster)
    | some s ↦
        let slot = slot_at s seq in
        let number = choose_number s.num_servers slot in
        let cluster1 = insert self (store_slot seq (record slot { n = number }) s) cluster in
        let (stuck, g, cluster2) =
          prepare_loop null_text self held stubs seq number links.prepares
            (gather_start v slot.highest_n) cluster1 in
        let cluster3 = locally self (keep_highest seq g.highest_n) cluster2 in
        let prepared = after_prepare next held self seq v my_view links g cluster3 in
        let fresh = accept_and_tell held self seq my_view v "" links cluster in
        if is_decided slot.status || s.is_dead
        then (finished, cluster)
        else if leb_ℤ seq s.highest_accepted_seq
        then (if stuck then (deadlocked, cluster3) else prepared)
        else fresh
  ]

  -- One call and the calls that it makes, each with its links; the list bounds how deep they nest.
  unfoldable pub run : ℕ → List Links → Job → List String → Cell → Run (RocksDbWrapper R)
  unfolding start_at forward_at propose_at
  run stubs [] job held cluster = (unfinished, cluster)
  run stubs (links ∷ rest) job held cluster = elim job [
    | starts self seq v ↦ start_at (run stubs rest) self seq v held cluster
    | forwards self seq v ↦ forward_at (run stubs rest) links.forward self seq v held cluster
    | proposes self seq v my_view ↦
        propose_at (run stubs rest) stubs links self seq v my_view held cluster
  ]
