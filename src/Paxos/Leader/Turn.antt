-- ===== src/Paxos/Leader/Turn.antt =====
-- Who runs for which view: a replica that misses its leader's heartbeats.
use chubby.Prelude.{
  ℕ, ◌+◌, ◌-◌, ◌%◌, ◌<◌, ◌≡◌, refl, sym, ◌∙◌, ap, ◌⊎◌, inl, inr, true, none, some, arith,
}
use native.Mathlib.Nat.{mod-lt, mod-eq_of_lt, mod-add-mod, add-mod_right}
use chubby.Prelude.Int.{ℤ, pos, ◌+ℤ◌, ◌-ℤ◌, ◌%ℤ◌, ◌<ℤ◌, ◌≤ℤ◌, <ℤ-cases}
use chubby.Paxos.Replica.{PaxosImpl}
use chubby.Paxos.Leader.{detect_leader_failure}

-- An election that a replica starts is for a later view in which that replica is the leader, and
-- no view in between is its turn: the views are less than a round of the group apart.
pub record IsTurn (view me n : ℕ) (offset : ℤ) : Type 0 where
  pub ahead : pos 0 <ℤ offset
  pub within : offset <ℤ pos n
  pub mine : (pos view +ℤ offset) %ℤ n ≡ pos me

add_mod : (v k r n : ℕ) → v % n + k ≡ r → (v + k) % n ≡ r % n
add_mod v k r n e = sym (mod-add-mod v n k) ∙ ap (λ x. x % n) e

IsTurn-of :
    (view me n k : ℕ) (offset : ℤ)
    → me < n
    → 0 < k
    → k < n
    → offset ≡ pos k
    → (view + k) % n ≡ me
    → IsTurn view me n offset
unfolding ◌+ℤ◌ ◌%ℤ◌
IsTurn-of view me n k offset small some_ahead round e hit =
    rw e (record { ahead = omega arith; within = omega arith; mine = ground arith })

IsTurn-below :
    (view me n : ℕ) → me < n → view % n < me → IsTurn view me n (pos me -ℤ pos (view % n))
unfolding ◌-ℤ◌
IsTurn-below view me n small below =
    IsTurn-of view me n (me - view % n) _ small (omega arith) (omega arith) (ground arith)
      (add_mod view (me - view % n) me n (omega arith) ∙ mod-eq_of_lt small)

IsTurn-above :
    (view me n : ℕ) → me < n → me < view % n → IsTurn view me n (pos me +ℤ pos n -ℤ pos (view % n))
unfolding ◌-ℤ◌ ◌+ℤ◌
IsTurn-above view me n small above =
    let low : view % n < n = mod-lt view (omega arith) in
    IsTurn-of view me n (me + n - view % n) _ small (omega arith) (omega arith) (ground arith) (
      add_mod view (me + n - view % n) (me + n) n (omega arith)
      ∙ add-mod_right me n
      ∙ mod-eq_of_lt small)

pos-mod : (a n : ℕ) → pos a %ℤ n ≡ pos (a % n)
unfolding ◌%ℤ◌
pos-mod a n = refl

ℕ-cases : (a b : ℕ) → (a < b) ⊎ (a ≡ b) ⊎ (b < a)
ℕ-cases a b = omega arith

-- The outcomes of `DetectLeaderFailure` in a view that is not negative, on a replica whose index lies
-- within its group. Up to three missed heartbeats it counts one more and does nothing else. At the
-- fourth it marks the leader dead and counts anew; and then it starts an election, for the next view
-- in which it is this replica's turn, unless the replica is itself the leader of its view, in which
-- case it starts none.
pub detect_outcomes :
    {Disk : Type 0} (s : PaxosImpl Disk) (view : ℕ)
    → s.view ≡ pos view
    → s.me < s.group_size
    → let missed = s.missed_heartbeats +ℤ pos 1 in
      let dead = record s {
        missed_heartbeats = pos 0;
        leader_dead = true;
        leader_election_happened = true;
      } in
      ((missed ≤ℤ pos 3)
        × (detect_leader_failure s ≡ (none, record s { missed_heartbeats = missed })))
      ⊎ ((pos 3 <ℤ missed)
          × (view % s.group_size ≡ s.me)
          × (detect_leader_failure s ≡ (none, dead)))
      ⊎ ((pos 3 <ℤ missed)
          × ((offset : ℤ) × IsTurn view s.me s.group_size offset
              × (detect_leader_failure s ≡ (some (s.view, offset), dead))))
unfolding detect_leader_failure
detect_outcomes s view e small = elim (<ℤ-cases (pos 3) (s.missed_heartbeats +ℤ pos 1)) [
  | inr few ↦ inl (few, ground arith)
  | inl many ↦ elim (ℕ-cases (view % s.group_size) s.me) [
    | inl below ↦
        inr (inr (many, (_, IsTurn-below view s.me s.group_size small below, ground (arith, turn))))
    | inr (inl own) ↦ inr (inl (many, own, ground (arith, turn)))
    | inr (inr above) ↦
        inr (inr (many, (_, IsTurn-above view s.me s.group_size small above, ground (arith, turn))))
  ]
]
  where
    turn : s.view %ℤ s.group_size ≡ pos (view % s.group_size)
    turn = rw e (pos-mod view s.group_size)
