-- ===== src/Examples/Pools.antt =====
-- The theorems on the thread pool, at a pool with one worker.
use chubby.Prelude.{◌≡◌, ◌++◌, refl, true, [], ◌∷◌, arith}
use chubby.Prelude.Tests.{update}
use chubby.ThreadPool.{
  System, fresh, enqueue, shut, fetch, running, returned, ready, Reach, here, later, add, destroy,
  take, finish, quit, join,
}
use chubby.ThreadPool.Order.{taken_in_order, destroyed_done}

-- One task is enqueued, taken and finished; then the pool is destroyed.
abbrev queued : System
queued = record fresh { pool = enqueue 7 fresh.pool; enqueued = 7 ∷ [] }

abbrev taken : System
taken = record queued { pool = fresh.pool; pc = update queued.pc 0 (running 7); taken = 7 ∷ [] }

abbrev finished : System
finished = record taken { pc = update taken.pc 0 ready }

abbrev closing : System
closing = record finished { pool = shut finished.pool }

abbrev gone : System
gone = record closing { pc = update closing.pc 0 returned; destroyed = true }

finished-Reach : Reach 1 fresh finished
unfolding enqueue fetch
finished-Reach =
    later (later (later here (add 7 refl)) (take 0 7 (omega arith) refl refl)) (finish 0 7 refl)

gone-Reach : Reach 1 fresh gone
unfolding shut fetch
gone-Reach =
    later (later (later finished-Reach destroy) (quit 0 (omega arith) refl refl))
      (join refl (λ i h. ground arith))

taken_in_order_example : finished.enqueued ≡ finished.taken ++ finished.pool.tasks
taken_in_order_example = taken_in_order finished-Reach

destroyed_done_example : gone.taken ≡ gone.enqueued
destroyed_done_example = destroyed_done gone-Reach (omega arith) refl
