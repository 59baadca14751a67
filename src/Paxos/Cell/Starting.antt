-- ===== src/Paxos/Cell/Starting.antt =====
-- A run of `Start` on the leader of a cell in a calm view.
use chubby.Prelude.{
  ℕ, ◌≤◌, String, ◌≡◌, refl, sym, subst, ◌∙◌, inl, inr, Bool, true, false, Bool-cases, some, List,
  [], ◌||◌, arith, if◌then◌else◌,
}
use chubby.Prelude.Int.{ℤ, pos, ◌≤ℤ◌, ltb_ℤ, leb_ℤ}
use chubby.Prelude.Map.{lookup, insert, lookup-insert, beq_refl, string_eq, int_eq}
use chubby.Storage.{RocksDb, RocksDbWrapper}
use chubby.Paxos.Slot.{is_decided}
use chubby.Paxos.Replica.{PaxosImpl, add_slots}
use chubby.Paxos.Replica.Slots.{slot_at}
use chubby.Paxos.Acceptor.{store_slot}
use chubby.Paxos.Network.{Cluster, Delivery, locally}
use chubby.Paxos.Proposer.{
  finished, Links, Job, proposes, Run, leads, start_at, propose_at, after_prepare, accept_and_tell,
  keep_highest, or_own,
}
use chubby.Paxos.Proposer.Phases.{
  Gathered, member, gather_start, choose_number, prepare_loop, accept_loop, no_accepts,
}
use chubby.Paxos.Cell.{Near, Near-back, Near-refl, Near-insert, Near-locally, Near-map}
use chubby.Paxos.Cell.Keeping.{
  IsBlank, Asked-refl, Asked-store, Asked-add_slots, Asked-keep_highest, Asked, Voting,
  Asked-Voting, Keeps-IsCalm,
}
use chubby.Paxos.Cell.Telling.{Told, Voting-Told}
use chubby.Paxos.Cell.Gathering.{IsGathering, gather_start-IsGathering}
use chubby.Paxos.Cell.Rounds.{AllCalm, prepare_loop-IsGathering, accept_loop-Voting}
use chubby.Paxos.Cell.Deciding.{reaches, DecidedAt, learn_loop-Told}

not_newer :
    (view : ℕ) (v : String) (g : Gathered)
    → IsGathering view v g
    → ltb_ℤ (pos view) g.highest_na ≡ false
not_newer view v g i = elim i.seen [
  | inl (na, va, none_yet) ↦ rw na (ground arith)
  | inr (na, va, one) ↦ rw na (ground arith)
]

module _ (R : RocksDb) (view : ℕ) (before : Cluster (RocksDbWrapper R)) (calm : AllCalm view before)
    (seq : ℤ) (v : String) (kept : pos 0 ≤ℤ seq) where
  or_own_lem : (g : Gathered) → IsGathering view v g → or_own R "" g.highest_va v ≡ v
  or_own_lem g i = elim i.seen [
    | inl (na, va, none_yet) ↦ rw va (ground arith)
    | inr (na, va, one) ↦ rw va refl
  ]

  -- The call returns; what became of each replica; and where a learn request arrived, the slot is
  -- decided.
  unfoldable pub Settles : List (String × Delivery) → Run (RocksDbWrapper R) → Type 0
  Settles learns (ending, now) =
      (ending ≡ finished)
      × Near (Told R seq v) before now
      × ((a : String) → reaches a learns ≡ true → DecidedAt R seq a now)

  goes_on :
      (learns : List (String × Delivery)) (test : Bool) (one other : Run (RocksDbWrapper R))
      → test ≡ false
      → Settles learns other
      → Settles learns (if test then one else other)
  goes_on learns test one other e settles = rw e settles

  goes_in :
      (learns : List (String × Delivery)) (test : Bool) (one other : Run (RocksDbWrapper R))
      → test ≡ true
      → Settles learns one
      → Settles learns (if test then one else other)
  goes_in learns test one other e settles = rw e settles

  accept_and_tell-Settles :
      (self : String) (links : Links) (now : Cluster (RocksDbWrapper R))
      → Near (Voting seq) before now
      → Settles links.learns (accept_and_tell R "" [] self seq (pos view) v "" links now)
  unfolding accept_and_tell Settles
  accept_and_tell-Settles self links now near =
      let (free, undecided, near') =
        accept_loop-Voting view before calm seq kept self v links.accepts (no_accepts "") now refl
          near in
      let now' = (accept_loop "" self [] seq (pos view) v links.accepts (no_accepts "") now).2 in
      let heard =
        Near-map (Voting seq) (Told R seq v) before now'
          (λ a s0 s was voting. Voting-Told R seq v s0 s voting) near' in
      let told = λ (a : String).
        learn_loop-Told R view before calm seq v kept self a links.learns now' heard in
      rw (free, undecided, (told self).0)
        (refl, (told self).1, λ a reached. (told a).2 (inl reached))

  after_prepare-Settles :
      (next : Job → List String → Cluster (RocksDbWrapper R) → Run (RocksDbWrapper R))
      (self : String) (links : Links) (g : Gathered) (now : Cluster (RocksDbWrapper R))
      → IsGathering view v g
      → Near (Voting seq) before now
      → Settles links.learns (after_prepare R "" next [] self seq v (pos view) links g now)
  unfolding after_prepare
  after_prepare-Settles next self links g now i near =
      rw (not_newer view v g i, i.undecided, or_own_lem g i)
        (accept_and_tell-Settles self links now near)

  Near-Voting :
      (now : Cluster (RocksDbWrapper R))
      → Near (Asked seq) before now
      → Near (Voting seq) before now
  Near-Voting now =
      Near-map (Asked seq) (Voting seq) before now (λ a s0 s was asked. Asked-Voting seq s0 s asked)

  pub propose_at-Settles :
      (next : Job → List String → Cluster (RocksDbWrapper R) → Run (RocksDbWrapper R)) (stubs : ℕ)
      (links : Links) (self : String) (now : Cluster (RocksDbWrapper R))
      (s : PaxosImpl (RocksDbWrapper R))
      → 2 ≤ stubs
      → lookup self now ≡ some s
      → Near (Asked seq) before now
      → Settles links.learns (propose_at R "" next stubs links self seq v (pos view) [] now)
  unfolding propose_at store_slot
  propose_at-Settles next stubs links self now s many here near =
      let (s0, was, asked) = Near-back (Asked seq) self before now s near here in
      let slot = slot_at s seq in
      let number = choose_number s.num_servers slot in
      let now1 = insert self (store_slot seq (record slot { n = number }) s) now in
      let near1 =
        Near-insert (Asked seq) self before now s (store_slot seq (record slot { n = number }) s)
          near here
          (λ s1 there a.
            Asked-store seq s1 s (record slot { n = number })
              (record { v_a = a.blank.v_a; open_ = a.blank.open_ }) a) in
      let start = gather_start v slot.highest_n in
      let (free, i, near2) =
        prepare_loop-IsGathering view before calm seq kept self v stubs number links.prepares start
          now1 many (gather_start-IsGathering view v slot.highest_n) near1 in
      let g = (prepare_loop "" self [] stubs seq number links.prepares start now1).1 in
      let now2 = (prepare_loop "" self [] stubs seq number links.prepares start now1).2 in
      let near3 =
        Near-locally (Asked seq) self (keep_highest seq g.highest_n) before now2
          (λ s1 s2 there a. Asked-keep_highest seq s1 s2 g.highest_n a) near2 in
      let open_ : (is_decided slot.status || s.is_dead) ≡ false =
        ground (arith, asked.blank.open_, (Keeps-IsCalm asked.keeps (calm self s0 was)).is_dead) in
      rw (here, propose_at)
        (goes_on links.learns _ _ _ open_ (elim (Bool-cases (leb_ℤ seq s.highest_accepted_seq)) [
          | inl taken ↦ goes_in links.learns _ _ _ taken (
              goes_on links.learns _ _ _ free (
                after_prepare-Settles next self links g
                  (locally self (keep_highest seq g.highest_n) now2) i (Near-Voting _ near3)))
          | inr fresh ↦
              goes_on links.learns _ _ _ fresh
                (accept_and_tell-Settles self links now (Near-Voting now near))
        ]))

  -- `Start` on the leader.
  pub start_at-Settles :
      (next : Job → List String → Cluster (RocksDbWrapper R) → Run (RocksDbWrapper R))
      (learns : List (String × Delivery)) (self : String) (s : PaxosImpl (RocksDbWrapper R))
      → lookup self before ≡ some s
      → leads s ≡ true
      → ((a : String) (t : PaxosImpl (RocksDbWrapper R))
          → lookup a before ≡ some t
          → IsBlank (slot_at t seq))
      → ((now : Cluster (RocksDbWrapper R)) (t : PaxosImpl (RocksDbWrapper R))
          → lookup self now ≡ some t
          → Near (Asked seq) before now
          → Settles learns (next (proposes self seq v (pos view)) [] now))
      → Settles learns (start_at next self seq v [] before)
  unfolding start_at member add_slots leads slot_at
  start_at-Settles next learns self s here lead blank settles =
      let quiet = calm self s here in
      let s' = (add_slots seq s).1 in
      let now = insert self s' before in
      let near =
        Near-insert (Asked seq) self before before s s'
          (Near-refl (Asked seq) before (λ a t there. Asked-refl seq t (blank a t there))) here
          (λ s0 was a. Asked-add_slots seq s0 s a) in
      let there : lookup self now ≡ some s' =
        lookup-insert self self s' before ∙ rw (beq_refl self) in
      let go = settles now s' there near in
      let not_forgotten : ltb_ℤ seq s.lowest_slot ≡ false =
        ground (arith, quiet.lowest_slot, kept) in
      let open_ : (is_decided (slot_at s seq).status || s.is_dead) ≡ false =
        ground (arith, quiet.is_dead, (blank self s here).open_) in
      rw (here, start_at)
        (goes_on learns _ _ _ not_forgotten (
          goes_on learns _ _ _ open_ (
            goes_in learns _ _ _ lead (
              goes_on learns _ _ _ quiet.leader_dead (
                subst (λ n. Settles learns (next (proposes self seq v n) [] now))
                  (sym quiet.view_lem) go)))))
