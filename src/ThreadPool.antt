-- ===== src/ThreadPool.antt =====
-- `ThreadPool` of src/include/thread_pool.h and src/common/thread_pool.cc: the queue, the workers and
-- the destructor, a section under `queue_mutex` at a time. A task is a number.
pub mod Order
use chubby.Prelude.{ℕ, ◌<◌, ◌≡◌, Bool, true, false, Option, none, some, List, [], ◌∷◌, ◌++◌}
use chubby.Prelude.Tests.{update}

-- `tasks` and `stop`
pub record Pool : Type 0 where
  pub tasks : List ℕ
  pub stop : Bool

-- The section of `enqueue`.
unfoldable pub enqueue : ℕ → Pool → Pool
enqueue task pool = record pool { tasks = pool.tasks ++ task ∷ [] }

-- The section of the destructor.
unfoldable pub shut : Pool → Pool
shut pool = record pool { stop = true }

-- What the section of `worker_thread` ends in: the thread returns, or it has a task. It waits where
-- the condition of its wait does not hold.
pub data Wake : Type 0 where
  leave : Wake
  run : ℕ → Wake

pub front : Bool → List ℕ → Option (Wake × List ℕ)
front false [] = none
front true [] = some (leave, [])
front stop (task ∷ rest) = some (run task, rest)

unfoldable pub fetch : Pool → Option (Wake × Pool)
unfolding front
fetch pool = elim (front pool.stop pool.tasks) [
  | none ↦ none
  | some (wake, rest) ↦ some (wake, record pool { tasks = rest })
]

-- Where a worker stands: at the head of its loop; in a task; or at the end.
pub data Pc : Type 0 where
  ready : Pc
  running : ℕ → Pc
  returned : Pc

-- The pool with its workers; the tasks that have been enqueued and those that have been taken, each in
-- its order; and whether the destructor has returned.
pub record System : Type 0 where
  pub pool : Pool
  pub pc : ℕ → Pc
  pub enqueued : List ℕ
  pub taken : List ℕ
  pub destroyed : Bool

-- `ThreadPool(num_threads)`
abbrev pub fresh : System
fresh = record {
  pool = record { tasks = []; stop = false };
  pc = λ _. ready;
  enqueued = [];
  taken = [];
  destroyed = false;
}

-- A step. Nobody may call `enqueue` on a pool whose destructor has begun. The destructor returns when
-- it has joined all workers.
pub data Step (num_threads : ℕ) (s : System) : System → Type 0 where
  add :
      (task : ℕ)
      → s.pool.stop ≡ false
      → Step num_threads s
          (record s { pool = enqueue task s.pool; enqueued = s.enqueued ++ task ∷ [] })
  destroy : Step num_threads s (record s { pool = shut s.pool })
  take :
      (i task : ℕ) {pool : Pool}
      → i < num_threads
      → s.pc i ≡ ready
      → fetch s.pool ≡ some (run task, pool)
      → Step num_threads s (record s {
        pool = pool;
        pc = update s.pc i (running task);
        taken = s.taken ++ task ∷ [];
      })
  finish :
      (i task : ℕ)
      → s.pc i ≡ running task
      → Step num_threads s (record s { pc = update s.pc i ready })
  quit :
      (i : ℕ) {pool : Pool}
      → i < num_threads
      → s.pc i ≡ ready
      → fetch s.pool ≡ some (leave, pool)
      → Step num_threads s (record s { pool = pool; pc = update s.pc i returned })
  join :
      s.pool.stop ≡ true
      → ((i : ℕ) → i < num_threads → s.pc i ≡ returned)
      → Step num_threads s (record s { destroyed = true })

pub data Reach (num_threads : ℕ) (s : System) : System → Type 0 where
  here : Reach num_threads s s
  later : {t u : System} → Reach num_threads s t → Step num_threads t u → Reach num_threads s u
