-- ===== src/Server/KeyLock/Exclusive.antt =====
-- The threads between `lock` and `unlock` for a path, and those that wait for it.
use chubby.Prelude.{
  ℕ, String, ◌≡◌, refl, sym, ap, subst, ◌∙◌, inl, inr, Option, Option-cases, none, some, arith,
}
use chubby.Prelude.Tests.{update}
use chubby.Prelude.Map.{lookup, string_eq}
use chubby.Server.KeyLock.{
  KeyLock, drop_mutex, Pc, outside, waiting, inside, leaving, Move, take, look, drop, Threads, Step,
  pick, start, Reach, here, later,
}
use chubby.Server.KeyLock.Invariant.{IsSound, Reach-IsSound, holds, points}

-- The key of a thread that is between the return of `lock` and that of `unlock`.
abbrev pub critical : Pc → Option String
critical (inside key) = some key
critical (leaving key mutex) = some key
critical _ = none

-- A thread in its critical section owns the mutex of its key.
critical-owns :
    {s : Threads}
    → IsSound s
    → (i : ℕ) (key : String) → critical (s.pc i) ≡ some key
    → (m : ℕ) × (lookup key s.locks.lock_map ≡ some m) × (s.locks.owner m ≡ some i)
unfolding holds points
critical-owns {s} v i key h = at_pc (s.pc i) refl h
  where
    at_pc :
        (p : Pc)
        → s.pc i ≡ p
        → critical p ≡ some key
        → (m : ℕ) × (lookup key s.locks.lock_map ≡ some m) × (s.locks.owner m ≡ some i)
    at_pc outside e c = ground arith
    at_pc (waiting p m) e c = ground arith
    at_pc (inside p) e c =
        let same : p ≡ key = ground arith in
        let (m, found) = v.known i key (e ∙ ap inside same) in
        (m, found, v.owns i m (rw e (ap (λ k. lookup k s.locks.lock_map) same ∙ found)))
    at_pc (leaving p m) e c =
        let same : p ≡ key = ground arith in
        (m, v.pointer i key m (rw (e, same, points)), v.owns i m (rw e))

-- In every state that any number of threads can reach, two threads that are between `lock` and
-- `unlock` for the same path are one and the same.
pub mutual_exclusion :
    {s : Threads}
    → Reach start s
    → (i j : ℕ) (key : String) → critical (s.pc i) ≡ some key
    → critical (s.pc j) ≡ some key
    → i ≡ j
mutual_exclusion {s} r i j key in_i in_j =
    let (m, found, mine) = critical-owns (Reach-IsSound r) i key in_i in
    let (n, found', yours) = critical-owns (Reach-IsSound r) j key in_j in ground arith

moved :
    (s : Threads) (j : ℕ) {from to : Pc} {k : KeyLock}
    → s.pc j ≡ from
    → Move j s.locks from k to
    → Step s (record { locks = k; pc = update s.pc j to })
moved s j {to} {k} at move = pick j (subst (λ p. Move j s.locks p k to) (sym at) move)

-- The mutex that a thread waits for becomes free by steps of its owner.
freed :
    (s : Threads) (i j m : ℕ) (key : String)
    → IsSound s
    → s.pc i ≡ waiting key m
    → s.locks.owner m ≡ some j
    → (t : Threads) × Reach s t × (t.locks.owner m ≡ none) × (t.pc i ≡ waiting key m)
unfolding holds drop_mutex
freed s i j m key v waits mine = at_pc (s.pc j) refl (v.owned j m mine)
  where
    at_pc :
        (p : Pc)
        → s.pc j ≡ p
        → holds s.locks.lock_map p ≡ some m
        → (t : Threads) × Reach s t × (t.locks.owner m ≡ none) × (t.pc i ≡ waiting key m)
    at_pc outside e c = ground arith
    at_pc (waiting p n) e c = ground arith
    at_pc (inside p) e c =
        let once : Threads = record { locks = s.locks; pc = update s.pc j (leaving p m) } in
        (
          _,
          later (later here (moved s j e (look c)))
              (moved once j (ground arith) (drop {key = p} {mutex = m})),
          ground arith,
          ground arith,
        )
    at_pc (leaving p n) e c =
        (_, later here (moved s j e (drop {key = p} {mutex = n})), ground arith, ground arith)

gets_in :
    (s : Threads) (i : ℕ) (key : String) (m : ℕ)
    → s.pc i ≡ waiting key m
    → s.locks.owner m ≡ none
    → (t : Threads) × Step s t × (t.pc i ≡ inside key)
gets_in s i key m at free = (_, moved s i at (take free), ground arith)

-- From every state that any number of threads can reach, a thread that waits for a path can still
-- get in: some further steps lead to a state in which it is between `lock` and `unlock`.
pub no_deadlock :
    {s : Threads}
    → Reach start s
    → (i : ℕ) (key : String) (m : ℕ) → s.pc i ≡ waiting key m
    → (t : Threads) × Reach s t × (t.pc i ≡ inside key)
no_deadlock {s} r i key m at = elim (Option-cases (s.locks.owner m)) [
  | inl free ↦ let (t, step, done) = gets_in s i key m at free in (t, later here step, done)
  | inr (j, mine) ↦
      let (t, run, free, at') = freed s i j m key (Reach-IsSound r) at mine in
      let (u, step, done) = gets_in t i key m at' free in (u, later run step, done)
]
