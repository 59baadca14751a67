-- ===== src/Server/OpenSlots.antt =====
-- Why `AcquireLock` always has an open slot to write to, on a server that alone uses the log.
use chubby.Prelude.{
  ℕ, suc, ◌+◌, ◌<◌, String, ◌≡◌, subst, ◌∙◌, ◌⊎◌, inl, inr, false, arith, Bool-cases, List, [], ◌∷◌,
}
use chubby.Prelude.Int.{ℤ, pos, ◌<ℤ◌, ◌≤ℤ◌, ◌+ℤ◌, pos_part, neg_part, +ℤ_parts}
use chubby.Prelude.Map.{◌==◌, int_eq, string_eq}
use chubby.Paxos.Address.{int_max}
use chubby.Paxos.KeyValue.{key_value_of}
use chubby.Server.Service.{Consensus, Applies}
use chubby.Server.{
  ChubbyImpl, AcquireLockRequest, ReleaseLockRequest, LockResponse, World, next_slot, acquire_lock,
  release_lock, release_at, carry_out,
}

-- The requests that can write, with the response as each handler finds it.
pub data Request : Type 0 where
  acquires : LockResponse → AcquireLockRequest → Request
  releases : LockResponse → ReleaseLockRequest → Request

abbrev pub length : List Request → ℕ
length [] = 0
length (request ∷ rest) = suc (length rest)

module _ (P : Consensus) where
  pub serve : List Request → World P → World P
  serve [] w = w
  serve (acquires before request ∷ rest) w = serve rest (acquire_lock P before request w).1
  serve (releases before request ∷ rest) w = serve rest (release_lock P before request w).1

  -- Every slot above the one that the server stands at is open.
  abbrev pub Ahead : World P → Type 0
  Ahead (c, p) = (n : ℤ) → c.slot_number <ℤ n → P.knows p n ≡ false

  -- The Paxos service is as it was, or has been given a value for a slot.
  abbrev Writes : ℤ → String → P.State → P.State → Type 0
  Writes slot v p p' = (p' ≡ p) ⊎ (p' ≡ P.start slot v p)

  acquire-Writes :
      (before : LockResponse) (request : AcquireLockRequest) (c : ChubbyImpl) (p : P.State)
      → let (c', p') = (acquire_lock P before request (c, p)).1 in
        ((c'.slot_number ≡ c.slot_number) × (p' ≡ p))
        ⊎ ((c'.slot_number ≡ next_slot c.slot_number)
            × Writes
                (next_slot c.slot_number)
                (key_value_of request.path request.locking_mode)
                p
                p')
  unfolding acquire_lock carry_out
  acquire-Writes before request c p = ground arith

  release-Writes :
      (before : LockResponse) (request : ReleaseLockRequest) (c : ChubbyImpl) (p : P.State)
      → let (c', p') = (release_lock P before request (c, p)).1 in
        (c'.slot_number ≡ c.slot_number)
        × Writes c.slot_number (key_value_of request.path "FREE") p p'
  unfolding release_lock release_at
  release-Writes before request c p = ground arith

next_slot_lem : (n : ℤ) → n <ℤ pos int_max → next_slot n ≡ n +ℤ pos 1
unfolding next_slot
next_slot_lem n h = ground arith

pub below_next : (n m : ℤ) → n <ℤ pos int_max → next_slot n <ℤ m → n <ℤ m
unfolding next_slot ◌+ℤ◌
below_next n m h above = ground arith

module _ (P : Consensus) (applies : Applies P) where
  open_after :
      (slot n : ℤ) (v : String) (p p' : P.State)
      → slot <ℤ n
      → Writes P slot v p p'
      → P.knows p n ≡ false
      → P.knows p' n ≡ false
  open_after slot n v p p' above (inl same) fresh = rw same fresh
  open_after slot n v p p' above (inr started) fresh = rw started (
      applies.decides slot n v p
      ∙ elim (Bool-cases (slot == n)) [ inl hit ↦ ground arith | inr miss ↦ rw miss fresh ])

  acquire-Ahead :
      (before : LockResponse) (request : AcquireLockRequest) (c : ChubbyImpl) (p : P.State)
      → c.slot_number <ℤ pos int_max
      → Ahead P (c, p)
      → Ahead P (acquire_lock P before request (c, p)).1
  acquire-Ahead before request c p bound ahead n above =
      elim (acquire-Writes P before request c p) [
        | inl (at, same) ↦ rw same (ahead n (subst (λ s. s <ℤ n) at above))
        | inr (at, writes) ↦
            let above' = subst (λ s. s <ℤ n) at above in
            open_after _ n _ p _ above' writes (ahead n (below_next _ n bound above'))
      ]

  release-Ahead :
      (before : LockResponse) (request : ReleaseLockRequest) (c : ChubbyImpl) (p : P.State)
      → Ahead P (c, p)
      → Ahead P (release_lock P before request (c, p)).1
  release-Ahead before request c p ahead n above =
      let (at, writes) = release-Writes P before request c p in
      let above' = subst (λ s. s <ℤ n) at above in
      open_after _ n _ p _ above' writes (ahead n above')

module _ (P : Consensus) where
  acquire_count :
      (before : LockResponse) (request : AcquireLockRequest) (w : World P)
      → w.0.slot_number <ℤ pos int_max
      → (acquire_lock P before request w).1.0.slot_number ≤ℤ w.0.slot_number +ℤ pos 1
  unfolding next_slot
  acquire_count before request (c, p) bound = elim (acquire-Writes P before request c p) [
    | inl (at, same) ↦ rw at (omega (arith, +ℤ_parts c.slot_number (pos 1)))
    | inr (at, writes) ↦ rw (at, next_slot_lem c.slot_number bound) (omega arith)
  ]

  -- Room for the given number of requests before `slot_number` wraps.
  abbrev pub Room : ℕ → World P → Type 0
  Room count w = pos_part w.0.slot_number + count < int_max + neg_part w.0.slot_number

module _ (P : Consensus) (applies : Applies P) where
  still-Room :
      (rest : List Request) (w w' : World P)
      → Room P (suc (length rest)) w
      → w'.0.slot_number ≤ℤ w.0.slot_number +ℤ pos 1
      → Room P (length rest) w'
  still-Room rest w w' room h = omega (arith, +ℤ_parts w.0.slot_number (pos 1))

  below_self : (n : ℤ) → n <ℤ pos int_max → n <ℤ next_slot n
  below_self n h = rw (next_slot_lem n h) (omega (arith, +ℤ_parts n (pos 1)))

  serve-Ahead :
      (requests : List Request) (w : World P)
      → Room P (length requests) w
      → Ahead P w
      → Ahead P (serve P requests w) × Room P 0 (serve P requests w)
  unfolding serve
  serve-Ahead [] w room ahead = (ahead, room)
  serve-Ahead (acquires before request ∷ rest) w room ahead =
      serve-Ahead rest (acquire_lock P before request w).1
        (still-Room rest w (acquire_lock P before request w).1 room
          (acquire_count P before request w (omega arith)))
        (acquire-Ahead P applies before request w.0 w.1 (omega arith) ahead)
  serve-Ahead (releases before request ∷ rest) w room ahead =
      serve-Ahead rest (release_lock P before request w).1
        (still-Room rest w (release_lock P before request w).1 room (
          rw (release-Writes P before request w.0 w.1).0
            (omega (arith, +ℤ_parts w.0.slot_number (pos 1)))))
        (release-Ahead P applies before request w.0 w.1 ahead)

  -- On a service that decides the slots that it is asked about and no others: if every slot above the
  -- one that the server stands at is open, and `slot_number` has room to count,
  -- then after any history of acquire and release requests, from any clients, the slot that the next
  -- acquire request counts up to is open.
  pub next_open :
      (requests : List Request) (w : World P)
      → Room P (length requests) w
      → Ahead P w
      → let (c, p) = serve P requests w in P.knows p (next_slot c.slot_number) ≡ false
  next_open requests w room ahead =
      let (ahead', room') = serve-Ahead requests w room ahead in
      ahead' _ (below_self _ (omega arith))
