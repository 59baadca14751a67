-- ===== src/ThreadPool/Order.antt =====
-- The tasks are taken in the order in which they were enqueued, and none is left behind.
use mathlib.Core.List.{append_assoc, append-nil}
use chubby.Prelude.{
  ℕ, ◌<◌, ◌≡◌, refl, sym, ap, ◌∙◌, Bool, true, false, Option-cases, some, List, [], ◌∷◌, ◌++◌,
  arith, inl, inr,
}
use chubby.ThreadPool.{
  Pool, enqueue, shut, Wake, leave, run, front, fetch, returned, System, fresh, Step, add, destroy,
  take, finish, quit, join, Reach, here, later,
}

-- What is enqueued is what is taken and what waits, in this order; a worker returns only from a pool
-- that is shut and empty; and the destructor returns only after all workers have.
pub record IsOrdered (num_threads : ℕ) (s : System) : Type 0 where
  pub order : s.enqueued ≡ s.taken ++ s.pool.tasks
  pub over : (i : ℕ) → s.pc i ≡ returned → (s.pool.tasks ≡ []) × (s.pool.stop ≡ true)
  pub joined :
      s.destroyed ≡ true → (s.pool.stop ≡ true) × ((i : ℕ) → i < num_threads → s.pc i ≡ returned)

front-run :
    (stop : Bool) (tasks rest : List ℕ) (task : ℕ)
    → front stop tasks ≡ some (run task, rest)
    → tasks ≡ task ∷ rest
unfolding front
front-run false [] rest task e = ground arith
front-run true [] rest task e = ground arith
front-run false (first ∷ others) rest task e = ground arith
front-run true (first ∷ others) rest task e = ground arith

front_leave :
    (stop : Bool) (tasks rest : List ℕ)
    → front stop tasks ≡ some (leave, rest)
    → (tasks ≡ []) × (stop ≡ true) × (rest ≡ [])
unfolding front
front_leave false [] rest e = ground arith
front_leave true [] rest e = ground arith
front_leave false (first ∷ others) rest e = ground arith
front_leave true (first ∷ others) rest e = ground arith

fetch-front :
    (pool pool' : Pool) (wake : Wake)
    → fetch pool ≡ some (wake, pool')
    → (front pool.stop pool.tasks ≡ some (wake, pool'.tasks)) × (pool'.stop ≡ pool.stop)
unfolding fetch
fetch-front pool pool' wake e = elim (Option-cases (front pool.stop pool.tasks)) [
  | inl gone ↦ ground (arith, gone)
  | inr ((wake', rest), found) ↦ ground (arith, found)
]

Step-IsOrdered : {n : ℕ} {s t : System} → Step n s t → IsOrdered n s → IsOrdered n t
unfolding enqueue shut
Step-IsOrdered {n} {s} (add task open_) v = record {
  order = ap (λ l. l ++ task ∷ []) v.order ∙ append_assoc s.taken s.pool.tasks (task ∷ []);
  over = λ i h. ground (arith, v.over i);
  joined = λ h. ground (arith, v.joined);
}
Step-IsOrdered {n} {s} destroy v = record {
  order = v.order;
  over = λ i h. ((v.over i h).0, refl);
  joined = λ h. (refl, (v.joined h).1);
}
Step-IsOrdered {n} {s} (take i task {pool} below at e) v =
    let (found, stop) = fetch-front s.pool pool (run task) e in
    let split = front-run s.pool.stop s.pool.tasks pool.tasks task found in
    record {
      order =
          v.order
          ∙ ap (λ l. s.taken ++ l) split
          ∙ sym (append_assoc s.taken (task ∷ []) pool.tasks);
      over = λ j h. ground (arith, v.over j, split, stop);
      joined = λ h. absurd (ground (arith, (v.joined h).1 i below));
    }
Step-IsOrdered {n} {s} (finish i task at) v = record {
  order = v.order;
  over = λ j h. ground (arith, v.over j);
  joined = λ h. ((v.joined h).0, λ j below. ground (arith, (v.joined h).1 j below));
}
Step-IsOrdered {n} {s} (quit i {pool} below at e) v =
    let (found, stop) = fetch-front s.pool pool leave e in
    let (empty, shut_, rest) = front_leave s.pool.stop s.pool.tasks pool.tasks found in
    record {
      order = v.order ∙ ap (λ l. s.taken ++ l) (empty ∙ sym rest);
      over = λ j h. (rest, stop ∙ shut_);
      joined = λ h. (stop ∙ shut_, λ j below'. ground (arith, (v.joined h).1 j below'));
    }
Step-IsOrdered {n} {s} (join shut_ all) v = record {
  order = v.order;
  over = v.over;
  joined = λ h. (shut_, all);
}

fresh-IsOrdered : (n : ℕ) → IsOrdered n fresh
fresh-IsOrdered n = record { order = refl; over = λ i h. ground arith; joined = λ h. ground arith }

pub Reach-IsOrdered : {n : ℕ} {s : System} → Reach n fresh s → IsOrdered n s
Reach-IsOrdered {n} here = fresh-IsOrdered n
Reach-IsOrdered (later r step) = Step-IsOrdered step (Reach-IsOrdered r)

-- Whatever the workers and the callers of `enqueue` do, the tasks are taken in the order in which they
-- were enqueued, each of them once.
pub taken_in_order : {n : ℕ} {s : System} → Reach n fresh s → s.enqueued ≡ s.taken ++ s.pool.tasks
taken_in_order r = (Reach-IsOrdered r).order

-- When the destructor of a pool with at least one worker has returned, every task that was ever
-- enqueued has been taken, in that order.
pub destroyed_done :
    {n : ℕ} {s : System} → Reach n fresh s → 0 < n → s.destroyed ≡ true → s.taken ≡ s.enqueued
destroyed_done {n} {s} r worker gone =
    let v = Reach-IsOrdered r in
    let returned_0 = (v.joined gone).1 0 worker in
    sym (v.order ∙ ap (λ l. s.taken ++ l) (v.over 0 returned_0).0 ∙ append-nil s.taken)
