-- ===== src/Examples/Threads.antt =====
-- The theorems on the mutexes of the paths, at two handlers of one path.
use chubby.Prelude.{ℕ, ◌≡◌, refl}
use chubby.Prelude.Tests.{update}
use chubby.Prelude.Map.{lookup, insert, string_eq}
use chubby.Server.KeyLock.{
  Threads, waiting, inside, find_mutex, take_mutex, start, Reach, here, later, pick, find, take,
}
use chubby.Server.KeyLock.Exclusive.{mutual_exclusion, no_deadlock}

-- Thread 0 has locked "p", and thread 1 waits for it.
abbrev once : Threads
once = record { locks = (find_mutex "p" start.locks).1; pc = update start.pc 0 (waiting "p" 0) }

abbrev twice : Threads
twice = record { locks = take_mutex 0 0 once.locks; pc = update once.pc 0 (inside "p") }

abbrev busy : Threads
busy = record { locks = (find_mutex "p" twice.locks).1; pc = update twice.pc 1 (waiting "p" 0) }

busy-Reach : Reach start busy
unfolding find_mutex take_mutex lookup insert
busy-Reach = later (later (later here (pick 0 (find "p"))) (pick 0 (take refl))) (pick 1 (find "p"))

mutual_exclusion_example : ◌≡◌ {A = ℕ} 0 0
mutual_exclusion_example = mutual_exclusion busy-Reach 0 0 "p" refl refl

no_deadlock_example : (t : Threads) × Reach busy t × (t.pc 1 ≡ inside "p")
no_deadlock_example = no_deadlock busy-Reach 1 "p" 0 refl
