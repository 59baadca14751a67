-- ===== src/Paxos/Cell/Deciding.antt =====
-- The learn phase over a cell in a calm view.
use text.Mathlib.TextEquality.{eq_iff}
use chubby.Prelude.{
  ℕ, String, ◌≡◌, refl, sym, subst, ◌∙◌, ◌⊎◌, inl, inr, Bool, true, false, Bool-cases, Option-cases,
  none, some, List, [], ◌∷◌, ◌||◌, ◌&&◌, arith,
}
use chubby.Prelude.Int.{ℤ, pos, ◌≤ℤ◌}
use chubby.Prelude.Map.{lookup, insert, lookup-insert, ◌==◌, string_eq}
use chubby.Storage.{RocksDb, RocksDbWrapper}
use chubby.Paxos.Slot.{is_decided}
use chubby.Paxos.Messages.{DecideRequest}
use chubby.Paxos.Replica.{PaxosImpl}
use chubby.Paxos.Replica.Slots.{slot_at}
use chubby.Paxos.Acceptor.{learn}
use chubby.Paxos.Network.{Cluster, Delivery, delivered, lost, reply_lost, call, arrive}
use chubby.Paxos.Proposer.Phases.{latest_done, sender_id, learn_loop}
use chubby.Paxos.Cell.{Near, Near-back, Near-call}
use chubby.Paxos.Cell.Keeping.{Keeps-IsCalm}
use chubby.Paxos.Cell.Telling.{Told, learn-Told}
use chubby.Paxos.Cell.Rounds.{AllCalm, nobody_hangs}

abbrev arrives : Delivery → Bool
arrives lost = false
arrives _ = true

-- A request arrives at the address.
unfoldable pub reaches : String → List (String × Delivery) → Bool
reaches a [] = false
reaches a ((address, how) ∷ rest) = arrives how && address == a || reaches a rest

module _ (R : RocksDb) where
  -- The replica at the address, if one is there, has decided the slot.
  unfoldable pub DecidedAt : ℤ → String → Cluster (RocksDbWrapper R) → Type 0
  DecidedAt seq a now =
      (s : PaxosImpl (RocksDbWrapper R))
      → lookup a now ≡ some s
      → is_decided (slot_at s seq).status ≡ true

  module _ (view : ℕ) (before : Cluster (RocksDbWrapper R)) (calm : AllCalm view before)
      (request : DecideRequest) (kept : pos 0 ≤ℤ request.seq) where
    reached_step :
        (address : String) (now : Cluster (RocksDbWrapper R)) (s : PaxosImpl (RocksDbWrapper R))
        → Near (Told R request.seq request.value) before now
        → lookup address now ≡ some s
        → is_decided (slot_at (learn R request s).1 request.seq).status ≡ true
    reached_step address now s near here =
        let (s0, was, told) =
          Near-back (Told R request.seq request.value) address before now s near here in
        (learn-Told R view s0 s (Keeps-IsCalm told.keeps (calm address s0 was)) request kept told).1

    call-Told :
        (how : Delivery) (address : String) (now : Cluster (RocksDbWrapper R))
        → Near (Told R request.seq request.value) before now
        → Near (Told R request.seq request.value) before (call how address (learn R request) now).1
    call-Told how address now near =
        Near-call (Told R request.seq request.value) how address (learn R request) before now
          (λ s0 s was t.
            (learn-Told R view s0 s (Keeps-IsCalm t.keeps (calm address s0 was)) request kept t).0)
          near

    -- The handler has run at an address that the call reaches.
    at_reached :
        (address a : String) (now : Cluster (RocksDbWrapper R)) (s : PaxosImpl (RocksDbWrapper R))
        → Near (Told R request.seq request.value) before now
        → lookup address now ≡ some s
        → (((address == a) ≡ true) ⊎ DecidedAt request.seq a now)
        → DecidedAt request.seq a (insert address (learn R request s).1 now)
    unfolding DecidedAt
    at_reached address a now s near here known t now_there =
        let there = sym (lookup-insert address a (learn R request s).1 now) ∙ now_there in
        elim (Bool-cases (address == a)) [
          | inl hit ↦
              let same : (learn R request s).1 ≡ t = ground (arith, there, hit) in
              subst (λ x. is_decided (slot_at x request.seq).status ≡ true) same
                (reached_step address now s near here)
          | inr miss ↦ elim known [
            | inl hit ↦ cc
            | inr decided ↦ decided t (ground (arith, there, miss))
          ]
        ]

    vacant :
        (address a : String) (now : Cluster (RocksDbWrapper R))
        → lookup address now ≡ none
        → (((address == a) ≡ true) ⊎ DecidedAt request.seq a now)
        → DecidedAt request.seq a now
    unfolding DecidedAt
    vacant address a now gone (inl hit) s here =
        let same = (eq_iff address a).0 hit in
        let gone_too = subst (λ x. lookup x now ≡ none) same gone in cc
    vacant address a now gone (inr decided) s here = decided s here

    decided_call :
        (how : Delivery) (address a : String) (now : Cluster (RocksDbWrapper R))
        → Near (Told R request.seq request.value) before now
        → (((arrives how && address == a) ≡ true) ⊎ DecidedAt request.seq a now)
        → DecidedAt request.seq a (call how address (learn R request) now).1
    unfolding call arrive
    decided_call lost address a now near known = elim (Option-cases (lookup address now)) [
      | inl gone ↦ rw gone (elim known [ inl never ↦ cc | inr decided ↦ decided ])
      | inr (s, here) ↦ rw here (elim known [ inl never ↦ cc | inr decided ↦ decided ])
    ]
    decided_call delivered address a now near known = elim (Option-cases (lookup address now)) [
      | inl gone ↦ rw gone (vacant address a now gone known)
      | inr (s, here) ↦ rw here (at_reached address a now s near here known)
    ]
    decided_call reply_lost address a now near known = elim (Option-cases (lookup address now)) [
      | inl gone ↦ rw gone (vacant address a now gone known)
      | inr (s, here) ↦ rw here (at_reached address a now s near here known)
    ]

  module _ (view : ℕ) (before : Cluster (RocksDbWrapper R)) (calm : AllCalm view before) (seq : ℤ)
      (value : String) (kept : pos 0 ≤ℤ seq) where
    pub learn_loop-Told :
        (self a : String) (peers : List (String × Delivery)) (now : Cluster (RocksDbWrapper R))
        → Near (Told R seq value) before now
        → let (stuck, now') = learn_loop R self [] seq value peers now in
          (stuck ≡ false)
          × Near (Told R seq value) before now'
          × (((reaches a peers ≡ true) ⊎ DecidedAt seq a now) → DecidedAt seq a now')
    unfolding learn_loop reaches
    learn_loop-Told self a [] now near =
        (refl, near, λ known. elim known [ inl never ↦ cc | inr decided ↦ decided ])
    learn_loop-Told self a ((address, how) ∷ rest) now near =
        let request : DecideRequest = record {
          seq = seq;
          value = value;
          sender_id = sender_id (lookup self now);
          latest_done = latest_done (lookup self now);
        } in
        let now' = (call how address (learn R request) now).1 in
        let (free, near', told) =
          learn_loop-Told self a rest now'
            (call-Told view before calm request kept how address now near) in
        let here = decided_call view before calm request kept how address a now near in
        rw (nobody_hangs address how, learn_loop)
          (
            free,
            near',
            λ known. told (elim known [
              | inl reached ↦ elim (Bool-cases (arrives how && address == a)) [
                | inl hit ↦ inr (here (inl hit))
                | inr miss ↦ inl (sym (rw miss refl) ∙ reached)
              ]
              | inr decided ↦ inr (here (inr decided))
            ]),
          )
