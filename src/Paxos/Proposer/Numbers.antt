-- ===== src/Paxos/Proposer/Numbers.antt =====
-- The number of a prepare request, `while (slot->n <= slot->highest_N) slot->n += num_servers`.
use chubby.Prelude.{ℕ, zero, suc, ◌+◌, ◌*◌, ◌≤◌, ◌<◌, ◌≡◌, refl, ◌⊎◌, inl, inr, arith, true, false}
use chubby.Prelude.Int.{
  ℤ, pos, pos_part, neg_part, ◌+ℤ◌, ◌-ℤ◌, ◌<ℤ◌, ◌≤ℤ◌, leb_ℤ, <ℤ-cases, +ℤ_parts, -ℤ_parts,
}
use chubby.Paxos.Slot.{PaxosSlot}
use chubby.Paxos.Proposer.Phases.{raise_number, choose_number}

-- `b` is `a` raised by a natural number.
abbrev pub Raised : ℤ → ℕ → ℤ → Type 0
Raised a d b = pos_part b + neg_part a ≡ pos_part a + neg_part b + d

module _ (k : ℕ) (highest_n : ℤ) where
  -- What the loop gives: a number above `highest_n`, reached from `n` in steps of `k`, and with no
  -- step more than it takes.
  pub record Chosen (n chosen : ℤ) : Type 0 where
    pub above : highest_n <ℤ chosen
    pub near : (chosen ≡ n) ⊎ (chosen ≤ℤ highest_n +ℤ pos k)
    pub steps : (rounds : ℕ) × Raised n (rounds * k) chosen

  one_more : (n chosen : ℤ) → n ≤ℤ highest_n → Chosen (n +ℤ pos k) chosen → Chosen n chosen
  one_more n chosen more c = record {
    above = c.above;
    near = elim c.near [
      | inl same ↦ inr (rw same (omega (arith, +ℤ_parts n (pos k), +ℤ_parts highest_n (pos k))))
      | inr near ↦ inr near
    ];
    steps = (suc c.steps.0, omega (arith, c.steps.1, +ℤ_parts n (pos k)));
  }

  raise_number-Chosen :
      (fuel : ℕ) (n : ℤ)
      → 0 < k
      → pos_part highest_n + neg_part n + 1 ≤ pos_part n + neg_part highest_n + fuel
      → Chosen n (raise_number fuel k highest_n n)
  unfolding raise_number
  raise_number-Chosen zero n step enough = record {
    above = omega arith;
    near = inl refl;
    steps = (0, omega arith);
  }
  raise_number-Chosen (suc fuel) n step enough = elim (<ℤ-cases highest_n n) [
    | inl done ↦
        rw (test_done n done) (record { above = done; near = inl refl; steps = (0, omega arith) })
    | inr more ↦ rw (test_more n more) (
        one_more n _ more
          (raise_number-Chosen fuel (n +ℤ pos k) step (omega (arith, +ℤ_parts n (pos k)))))
  ]
    where
      test_done : (n : ℤ) → highest_n <ℤ n → leb_ℤ n highest_n ≡ false
      test_done n h = ground arith

      test_more : (n : ℤ) → n ≤ℤ highest_n → leb_ℤ n highest_n ≡ true
      test_more n h = ground arith

-- The number that a proposer picks, when there is a server: it is above every number that its slot
-- has seen; it differs from the slot's `n` by a multiple of `num_servers`; and it is the slot's `n`
-- itself or at most `num_servers` above the highest number seen. The fuel of the loop is enough.
pub choose_number_lem :
    (num_servers : ℕ) (slot : PaxosSlot)
    → 0 < num_servers
    → Chosen num_servers slot.highest_n slot.n (choose_number num_servers slot)
unfolding choose_number
choose_number_lem num_servers slot some_server =
    raise_number-Chosen num_servers slot.highest_n _ slot.n some_server
      (enough_fuel slot.highest_n slot.n)
  where
    enough_fuel :
        (h n : ℤ)
        → pos_part h + neg_part n + 1 ≤ pos_part n + neg_part h + pos_part (h -ℤ n +ℤ pos 1)
    enough_fuel h n = omega (arith, -ℤ_parts h n, +ℤ_parts (h -ℤ n) (pos 1))
