-- ===== src/Paxos/Cell/Gathering.antt =====
-- What the proposer gathers from replicas whose slot is blank.
use chubby.Prelude.{
  ℕ, suc, ◌≤◌, String, ◌≡◌, refl, ap, ◌∙◌, ◌⊎◌, inl, inr, true, false, Bool-cases, Option, none,
  some, [], ◌∷◌, arith,
}
use chubby.Prelude.Int.{ℤ, pos, negsuc, ltb_ℤ}
use chubby.Prelude.Map.{Map, lookup, insert, int_eq, ◌==◌, string_eq, beq_refl}
use chubby.Paxos.Messages.{PrepareResponse}
use chubby.Paxos.Proposer.Phases.{
  Gathered, gather, take_promise, see_decided, same_number, count_of, gather_start,
}

-- A promise of a replica in the given view whose slot is blank.
pub record IsBlankReply (view : ℕ) (r : PrepareResponse) : Type 0 where
  pub n_a : r.n_a ≡ pos view
  pub v_a : r.v_a ≡ ""
  pub value : r.value ≡ ""

-- Nothing is known to be decided, and there was no promise yet, or the highest number is the view,
-- with no value.
pub record IsGathering (view : ℕ) (v : String) (g : Gathered) : Type 0 where
  pub undecided : g.is_decided_prep ≡ false
  pub seen :
      ((g.highest_na ≡ negsuc 0) × (g.highest_va ≡ v) × (g.na_count_map ≡ []))
      ⊎ ((g.highest_na ≡ pos view) × (g.highest_va ≡ "") × (g.na_count_map ≡ (pos view, 1) ∷ []))

module _ (view : ℕ) (v : String) where
  pub gather_start-IsGathering : (n : ℤ) → IsGathering view v (gather_start v n)
  unfolding gather_start
  gather_start-IsGathering n = record { undecided = refl; seen = inl (refl, refl, refl) }

  take_promise-IsGathering :
      (r : PrepareResponse) (g : Gathered)
      → IsBlankReply view r
      → IsGathering view v g
      → IsGathering view v (take_promise r g)
  unfolding take_promise lookup insert
  take_promise-IsGathering r g b i = elim i.seen [
    | inl (na, va, none_yet) ↦
        let up : ltb_ℤ g.highest_na r.n_a ≡ true = rw (na, b.n_a) (ground arith) in
        let counted = λ (m : Map ℤ ℕ). insert r.n_a (suc (count_of (lookup r.n_a m))) m in
        rw up (record {
          undecided = i.undecided;
          seen = inr (b.n_a, b.v_a, ap counted none_yet ∙ ap (λ n. (n, 1) ∷ []) b.n_a);
        })
    | inr (na, va, one) ↦
        let up : ltb_ℤ g.highest_na r.n_a ≡ false = rw (na, b.n_a) (ground arith) in
        rw up (record { undecided = i.undecided; seen = inr (na, va, one) })
  ]

  same_number-le : (g : Gathered) → IsGathering view v g → same_number g ≤ 1
  unfolding lookup
  same_number-le g i = elim i.seen [
    | inl (na, va, none_yet) ↦ rw (none_yet, lookup) (omega arith)
    | inr (na, va, one) ↦ rw (one, lookup, na, beq_refl (pos view)) (omega arith)
  ]

  see_decided_lem :
      (stubs : ℕ) (r : PrepareResponse) (g : Gathered)
      → 2 ≤ stubs
      → IsBlankReply view r
      → same_number g ≤ 1
      → see_decided stubs r g ≡ (g, false)
  unfolding see_decided
  see_decided_lem stubs r g many b few = rw b.value (ground (arith, few))

  -- A round with at least two stubs learns of no decision.
  pub gather-IsGathering :
      (stubs : ℕ) (response : Option PrepareResponse) (g : Gathered)
      → 2 ≤ stubs
      → ((r : PrepareResponse) → response ≡ some r → IsBlankReply view r)
      → IsGathering view v g
      → IsGathering view v (gather stubs response g).0
  unfolding gather
  gather-IsGathering stubs none g many blank i = i
  gather-IsGathering stubs (some r) g many blank i = elim (Bool-cases (r.status == "OK")) [
    | inl ok ↦
        let b = blank r refl in
        let taken = take_promise-IsGathering r g b i in
        rw
          (
            ok,
            see_decided_lem stubs r (take_promise r g) many b
                (same_number-le (take_promise r g) taken),
          )
          taken
    | inr refusal ↦ rw refusal i
  ]
