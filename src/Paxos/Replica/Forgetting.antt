-- ===== src/Paxos/Replica/Forgetting.antt =====
-- What `Forget` does: it advances the low end of the log to what every replica is done with.
use chubby.Prelude.{
  ℕ, zero, suc, ◌≡◌, ◌≢◌, ◌⊎◌, inl, inr, List, [], ◌∷◌, some, none, not, arith, if◌then◌else◌,
  Option-cases, Bool-cases, subst,
}
use chubby.Prelude.Int.{ℤ, pos, ◌≤ℤ◌, ◌+ℤ◌, ◌-ℤ◌, ltb_ℤ, +ℤ_parts, -ℤ_parts}
use chubby.Prelude.Map.{lookup, lookup-keep, int_eq}
use chubby.Paxos.Replica.{PaxosImpl, min_done, raise_done, collect, forget}

-- Every entry is at least the bound.
abbrev pub AllFrom : ℤ → List ℤ → Type 0
AllFrom low [] = Unit {0}
AllFrom low (x ∷ xs) = (low ≤ℤ x) × AllFrom low xs

AllFrom-mono : (low low' : ℤ) (xs : List ℤ) → low ≤ℤ low' → AllFrom low' xs → AllFrom low xs
AllFrom-mono low low' [] h a = tt
AllFrom-mono low low' (x ∷ xs) h a = (omega arith, AllFrom-mono low low' xs h a.1)

min_done-le : (mini : ℤ) (xs : List ℤ) → min_done mini xs ≤ℤ mini
unfolding min_done
min_done-le mini [] = omega arith
min_done-le mini (x ∷ xs) = ground (arith, min_done-le (if ltb_ℤ x mini then x else mini) xs)

-- `mini` is a lower bound of the vector.
min_done-AllFrom : (mini : ℤ) (xs : List ℤ) → AllFrom (min_done mini xs) xs
unfolding min_done
min_done-AllFrom mini [] = tt
min_done-AllFrom mini (x ∷ xs) =
    let next : ℤ = if ltb_ℤ x mini then x else mini in
    (ground (arith, min_done-le next xs), min_done-AllFrom next xs)

abbrev raised_low : ℤ → ℤ → ℤ
raised_low mini low =
    let offset = mini -ℤ low +ℤ pos 1 in if ltb_ℤ (pos 0) offset then low +ℤ offset else low

raised_low_lem :
    (mini low : ℤ)
    → (low ≤ℤ raised_low mini low)
      × ((raised_low mini low ≡ low) ⊎ (raised_low mini low -ℤ pos 1 ≤ℤ mini))
raised_low_lem mini low =
    let offset = mini -ℤ low +ℤ pos 1 in
    let step = +ℤ_parts low offset in
    let sum = +ℤ_parts (mini -ℤ low) (pos 1) in
    let diff = -ℤ_parts mini low in
    (
      ground (arith, step, sum, diff),
      elim (Bool-cases (ltb_ℤ (pos 0) offset)) [
        | inl rises ↦
            inr (rw rises (omega (arith, step, sum, diff, -ℤ_parts (low +ℤ offset) (pos 1))))
        | inr stays ↦ inl (rw stays)
      ],
    )

raise_done-ne-nil : (peer : ℕ) (d : ℤ) (xs : List ℤ) → raise_done peer d xs ≢ some []
unfolding raise_done
raise_done-ne-nil peer d [] e = cc
raise_done-ne-nil zero d (x ∷ xs) e = ground arith
raise_done-ne-nil (suc peer) d (x ∷ xs) e = ground arith

abbrev pub Forgotten : {Disk : Type 0} → ℕ → ℤ → PaxosImpl Disk → PaxosImpl Disk → Type 0
Forgotten peer peer_done s t =
    (s.lowest_slot ≤ℤ t.lowest_slot)
    × ((t.lowest_slot ≡ s.lowest_slot) ⊎ AllFrom (t.lowest_slot -ℤ pos 1) t.done)
    × ((seq : ℤ)
        → lookup seq t.slots ≡ (if ltb_ℤ seq t.lowest_slot then none else lookup seq s.slots))
    × (raise_done peer peer_done s.done ≡ some t.done)

collect_lem :
    {Disk : Type 0} (peer : ℕ) (peer_done d : ℤ) (ds : List ℤ) (s : PaxosImpl Disk)
    → raise_done peer peer_done s.done ≡ some (d ∷ ds)
    → Forgotten peer peer_done s (collect (d ∷ ds) s)
unfolding collect
collect_lem peer peer_done d ds s found =
    let mini = min_done d (d ∷ ds) in
    let low = raised_low mini s.lowest_slot in
    let bound = raised_low_lem mini s.lowest_slot in
    (
      bound.0,
      elim bound.1 [
        | inl same ↦ inl same
        | inr done ↦
            inr (AllFrom-mono (low -ℤ pos 1) mini (d ∷ ds) done (min_done-AllFrom d (d ∷ ds)))
      ],
      λ seq. elim (Bool-cases (ltb_ℤ seq low)) [
        | inl old ↦ rw (lookup-keep (λ k. not (ltb_ℤ k low)) seq s.slots, old)
        | inr new ↦ rw (lookup-keep (λ k. not (ltb_ℤ k low)) seq s.slots, new)
      ],
      found,
    )

-- After `Forget` of a peer that `done` has an entry for: no entry of `done` is smaller than before
-- at the peer, `lowest_slot` has not gone down, what lies below it every replica has reported done,
-- and the log has kept exactly the slots from `lowest_slot` on, unchanged.
pub forget_lem :
    {Disk : Type 0} (peer : ℕ) (peer_done : ℤ) (s t : PaxosImpl Disk)
    → forget peer peer_done s ≡ some t
    → Forgotten peer peer_done s t
unfolding forget
forget_lem peer peer_done s t e = elim (Option-cases (raise_done peer peer_done s.done)) [
  | inl missing ↦ absurd (ground arith)
  | inr ([], found) ↦ absurd (raise_done-ne-nil peer peer_done s.done found)
  | inr (d ∷ ds, found) ↦
      subst (Forgotten peer peer_done s) (collected d ds found)
        (collect_lem peer peer_done d ds s found)
]
  where
    collected :
        (d : ℤ) (ds : List ℤ)
        → raise_done peer peer_done s.done ≡ some (d ∷ ds)
        → collect (d ∷ ds) s ≡ t
    collected d ds found = ground arith
