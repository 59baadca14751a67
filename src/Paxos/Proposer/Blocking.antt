-- ===== src/Paxos/Proposer/Blocking.antt =====
-- What becomes of a value that a follower forwards: it holds its own `mu` during the call.
use text.Mathlib.TextEquality.{eq_iff}
use chubby.Prelude.{
  ℕ, String, ◌≡◌, refl, sym, subst, ◌∙◌, Bool, true, false, inl, inr, Bool-cases, not, ◌&&◌, ◌||◌,
  some, List, [], ◌∷◌, if◌then◌else◌, arith,
}
use chubby.Prelude.Int.{ℤ, ◌≤ℤ◌, ◌<ℤ◌, ltb_ℤ, leb_ℤ}
use chubby.Prelude.Map.{lookup, insert, lookup-insert, beq_refl, ◌==◌, string_eq, int_eq}
use chubby.Storage.{RocksDb, RocksDbWrapper}
use chubby.Paxos.Slot.{is_decided}
use chubby.Paxos.Replica.{PaxosImpl, add_slots, found_or_new}
use chubby.Paxos.Replica.Slots.{slot_at}
use chubby.Paxos.Network.{Cluster, Delivery, delivered, lost, reply_lost}
use chubby.Paxos.Proposer.{
  deadlocked, Links, Job, starts, forwards, proposes, Run, run, leads, leader_of, start_at,
  forward_at, call_leader, answered, propose_at, accept_and_tell,
}
use chubby.Paxos.Proposer.Phases.{Votes, member, hangs, accept_loop, no_accepts}

-- An accept request arrives at a replica whose `mu` is held.
unfoldable pub blocks : List String → List (String × Delivery) → Bool
unfolding hangs
blocks held [] = false
blocks held ((address, how) ∷ rest) = hangs held address how || blocks held rest

module _ {Disk : Type 0} (null_text self : String) (held : List String) where
  accept_loop-blocks :
      (seq my_view : ℤ) (value : String) (peers : List (String × Delivery)) (t : Votes)
      (cluster : Cluster Disk)
      → blocks held peers ≡ true
      → (accept_loop null_text self held seq my_view value peers t cluster).0 ≡ true
  unfolding accept_loop blocks
  accept_loop-blocks seq my_view value [] t cluster stuck = cc
  accept_loop-blocks seq my_view value ((address, how) ∷ rest) t cluster stuck =
      elim (Bool-cases (hangs held address how)) [
        | inl yes_ ↦ rw (yes_, accept_loop) refl
        | inr no_ ↦
            rw (no_, accept_loop)
              (accept_loop-blocks seq my_view value rest _ _ (sym (rw no_ refl) ∙ stuck))
      ]

  else_blocks :
      (test : Bool) (one other : Run Disk)
      → test ≡ false
      → other.0 ≡ deadlocked
      → (if test then one else other).0 ≡ deadlocked
  else_blocks test one other e blocked = rw e blocked

  then_blocks :
      (test : Bool) (one other : Run Disk)
      → test ≡ true
      → one.0 ≡ deadlocked
      → (if test then one else other).0 ≡ deadlocked
  then_blocks test one other e blocked = rw e blocked

-- A replica that takes a value for a slot.
pub record IsOpenFor {Disk : Type 0} (seq : ℤ) (s : PaxosImpl Disk) : Type 0 where
  pub kept : s.lowest_slot ≤ℤ seq
  pub open_ : is_decided (slot_at s seq).status ≡ false
  pub alive : s.is_dead ≡ false

module _ {Disk : Type 0} (seq : ℤ) (s : PaxosImpl Disk) where
  add_slots-IsOpenFor : IsOpenFor seq s → IsOpenFor seq (add_slots seq s).1
  unfolding add_slots slot_at found_or_new
  add_slots-IsOpenFor o = record {
    kept = o.kept;
    open_ =
        rw (lookup-insert seq seq (record (slot_at s seq) { n_a = s.view }) s.slots, beq_refl seq)
          o.open_;
    alive = o.alive;
  }

  add_slots-new : s.highest_accepted_seq <ℤ seq → (add_slots seq s).1.highest_accepted_seq <ℤ seq
  unfolding add_slots
  add_slots-new h = h

  add_slots-same :
      (leads (add_slots seq s).1 ≡ leads s) × (leader_of (add_slots seq s).1 ≡ leader_of s)
  unfolding add_slots leads leader_of
  add_slots-same = (refl, refl)

module _ (R : RocksDb) (null_text : String) (seq : ℤ) (v : String) where
  propose_at-blocks :
      (next : Job → List String → Cluster (RocksDbWrapper R) → Run (RocksDbWrapper R)) (stubs : ℕ)
      (links : Links) (self : String) (my_view : ℤ) (held : List String)
      (cluster : Cluster (RocksDbWrapper R)) (s : PaxosImpl (RocksDbWrapper R))
      → lookup self cluster ≡ some s
      → IsOpenFor seq s
      → s.highest_accepted_seq <ℤ seq
      → blocks held links.accepts ≡ true
      → (propose_at R null_text next stubs links self seq v my_view held cluster).0 ≡ deadlocked
  unfolding propose_at accept_and_tell
  propose_at-blocks next stubs links self my_view held cluster s here o new stuck =
      let open_ : (is_decided (slot_at s seq).status || s.is_dead) ≡ false =
        ground (arith, o.open_, o.alive) in
      let fresh : leb_ℤ seq s.highest_accepted_seq ≡ false = ground (arith, new) in
      rw
        (
          here,
          propose_at,
          open_,
          fresh,
          accept_loop-blocks null_text self held seq my_view v links.accepts (no_accepts "") cluster
              stuck,
        )
        refl

  -- `Start` on a leader whose `mu` is not held.
  start_at-blocks :
      (next : Job → List String → Cluster (RocksDbWrapper R) → Run (RocksDbWrapper R))
      (self : String) (held : List String) (cluster : Cluster (RocksDbWrapper R))
      (s : PaxosImpl (RocksDbWrapper R))
      → member self held ≡ false
      → lookup self cluster ≡ some s
      → IsOpenFor seq s
      → leads s ≡ true
      → s.leader_dead ≡ false
      → (next
          (proposes self seq v (add_slots seq s).1.view)
          held
          (insert self (add_slots seq s).1 cluster)).0
        ≡ deadlocked
      → (start_at next self seq v held cluster).0 ≡ deadlocked
  unfolding start_at add_slots slot_at leads
  start_at-blocks next self held cluster s free here o lead lives stuck =
      let kept : ltb_ℤ seq s.lowest_slot ≡ false = ground (arith, o.kept) in
      let open_ : (is_decided (slot_at s seq).status || s.is_dead) ≡ false =
        ground (arith, o.open_, o.alive) in
      else_blocks null_text self held _ _ _ free (
        rw here (
          else_blocks null_text self held _ _ _ kept (
            else_blocks null_text self held _ _ _ open_ (
              then_blocks null_text self held _ _ _ lead
                (else_blocks null_text self held _ _ _ lives stuck)))))

  -- `Start` on a follower whose `mu` nobody holds.
  start_at-forwards :
      (next : Job → List String → Cluster (RocksDbWrapper R) → Run (RocksDbWrapper R))
      (self : String) (cluster : Cluster (RocksDbWrapper R)) (s : PaxosImpl (RocksDbWrapper R))
      → lookup self cluster ≡ some s
      → IsOpenFor seq s
      → leads s ≡ false
      → (next (forwards self seq v) [] (insert self (add_slots seq s).1 cluster)).0 ≡ deadlocked
      → (start_at next self seq v [] cluster).0 ≡ deadlocked
  unfolding start_at add_slots slot_at leads member
  start_at-forwards next self cluster s here o follows stuck =
      let kept : ltb_ℤ seq s.lowest_slot ≡ false = ground (arith, o.kept) in
      let open_ : (is_decided (slot_at s seq).status || s.is_dead) ≡ false =
        ground (arith, o.open_, o.alive) in
      rw (here, start_at)
        (else_blocks null_text self [] _ _ _ kept (
          else_blocks null_text self [] _ _ _ open_
            (else_blocks null_text self [] _ _ _ follows stuck)))

  answered-blocks :
      (how : Delivery) (result : Run (RocksDbWrapper R))
      → result.0 ≡ deadlocked
      → (answered how result).0 ≡ deadlocked
  answered-blocks how (ending, cluster) stuck = rw (stuck, answered) refl

  forward_at-blocks :
      (next : Job → List String → Cluster (RocksDbWrapper R) → Run (RocksDbWrapper R))
      (how : Delivery) (self : String) (cluster : Cluster (RocksDbWrapper R))
      (s : PaxosImpl (RocksDbWrapper R))
      → lookup self cluster ≡ some s
      → leads s ≡ false
      → (call_leader next how self
          (leader_of s)
          seq
          v
          []
          (insert self (add_slots seq s).1 cluster)).0
        ≡ deadlocked
      → (forward_at next how self seq v [] cluster).0 ≡ deadlocked
  unfolding forward_at add_slots slot_at leads leader_of member
  forward_at-blocks next how self cluster s here follows stuck =
      let away : ((not (is_decided (slot_at s seq).status) && leads s) && not s.leader_dead)
          ≡ false =
        ground (arith, follows) in
      rw (here, forward_at) (else_blocks null_text self [] _ _ _ away stuck)

  call_leader-blocks :
      (next : Job → List String → Cluster (RocksDbWrapper R) → Run (RocksDbWrapper R))
      (how : Delivery) (self leader : String) (cluster : Cluster (RocksDbWrapper R))
      (s : PaxosImpl (RocksDbWrapper R))
      → lookup leader cluster ≡ some s
      → (next (starts leader seq v) (self ∷ []) cluster).0 ≡ deadlocked
      → (call_leader next how self leader seq v [] cluster).0 ≡ deadlocked
  call_leader-blocks next lost self leader cluster s here stuck = refl
  call_leader-blocks next delivered self leader cluster s here stuck =
      rw (here, call_leader) (answered-blocks delivered _ stuck)
  call_leader-blocks next reply_lost self leader cluster s here stuck =
      rw (here, call_leader) (answered-blocks reply_lost _ stuck)

-- A follower with a leader, for a new slot: the follower takes the value and forwards it to the
-- leader, which has the slot open too.
pub record IsForwarding {Disk : Type 0} (seq : ℤ) (self leader : String) (cluster : Cluster Disk)
    (f s : PaxosImpl Disk) : Type 0 where
  pub here : lookup self cluster ≡ some f
  pub there : lookup leader cluster ≡ some s
  pub apart : (self == leader) ≡ false
  pub takes : IsOpenFor seq f
  pub follows : leads f ≡ false
  pub names : leader_of f ≡ leader
  pub also_takes : IsOpenFor seq s
  pub lead : leads s ≡ true
  pub lives : s.leader_dead ≡ false
  pub new : s.highest_accepted_seq <ℤ seq

-- When a follower has `Start` called with a value for a new slot, it forwards the value to the leader
-- of its view, and the accept phase of the leader has a request that arrives at the follower, then the
-- call never returns: the follower holds its `mu` during the forwarded call, and the request needs it.
pub forward_deadlocks :
    (R : RocksDb) (null_text : String) (stubs : ℕ) (first second third fourth : Links)
    (more : List Links) (seq : ℤ) (v self leader : String) (cluster : Cluster (RocksDbWrapper R))
    (f s : PaxosImpl (RocksDbWrapper R))
    → IsForwarding seq self leader cluster f s
    → blocks (self ∷ []) fourth.accepts ≡ true
    → (run R null_text stubs
        (first ∷ second ∷ third ∷ fourth ∷ more)
        (starts self seq v)
        []
        cluster).0
      ≡ deadlocked
unfolding run member
forward_deadlocks R null_text stubs first second third fourth more seq v self leader cluster f s w
      stuck =
    let f' = (add_slots seq f).1 in
    let once = insert self f' cluster in
    let twice = insert self (add_slots seq f').1 once in
    let s' = (add_slots seq s).1 in
    let (same_leads, same_leader) = add_slots-same seq f in
    let here' : lookup self once ≡ some f' =
      lookup-insert self self f' cluster ∙ rw (beq_refl self) refl in
    let there' : lookup leader twice ≡ some s =
      lookup-insert self leader _ once
      ∙ rw (w.apart, lookup-insert self leader f' cluster, w.apart) w.there in
    let free : member leader (self ∷ []) ≡ false =
      ground (arith, eq_iff leader self, eq_iff self leader, w.apart) in
    let proposes_lem =
      propose_at-blocks R null_text seq v (run R null_text stubs more) stubs fourth leader s'.view
        (self ∷ []) (insert leader s' twice) s'
        (lookup-insert leader leader s' twice ∙ rw (beq_refl leader) refl)
        (add_slots-IsOpenFor seq s w.also_takes) (add_slots-new seq s w.new) stuck in
    let leader_blocks =
      start_at-blocks R null_text seq v (run R null_text stubs (fourth ∷ more)) leader (self ∷ [])
        twice s free there' w.also_takes w.lead w.lives proposes_lem in
    let call_blocks =
      call_leader-blocks R null_text seq v (run R null_text stubs (third ∷ fourth ∷ more))
        second.forward self leader twice s there' leader_blocks in
    start_at-forwards R null_text seq v (run R null_text stubs (second ∷ third ∷ fourth ∷ more))
      self cluster f w.here w.takes w.follows
      (forward_at-blocks R null_text seq v (run R null_text stubs (third ∷ fourth ∷ more))
        second.forward self once f' here' (same_leads ∙ w.follows)
        (subst
          (λ a.
            (call_leader (run R null_text stubs (third ∷ fourth ∷ more)) second.forward self a seq v
              [] twice).0
            ≡ deadlocked)
          (sym (same_leader ∙ w.names)) call_blocks))
