-- ===== src/Client/Performance.antt =====
-- The measurements of client/performance.cpp: the threads of `run_performance_test`, each of which runs
-- `send_requests`, and the atomic counters that they share, an access at a time.
pub mod Counting
use chubby.Prelude.{ℕ, zero, suc, ◌+◌, ◌%◌, ◌^◌, ◌≡◌, List, [], ◌∷◌, ◌++◌, if◌then◌else◌}
use chubby.Prelude.Int.{ℤ, pos, int_beq}

-- `perf_metrics`: two `int` and a `long long`, which wrap around, as bits.
pub record PerfMetrics : Type 0 where
  pub total_requests : ℕ
  pub successful_requests : ℕ
  pub total_latency_ns : ℕ

-- The three accesses of a turn of the loop of `send_requests`.
unfoldable pub add_latency : ℕ → PerfMetrics → PerfMetrics
add_latency latency_ns m = record m {
  total_latency_ns = (m.total_latency_ns + latency_ns) % 2 ^ 64;
}

unfoldable pub add_success : ℤ → PerfMetrics → PerfMetrics
add_success response m =
    if int_beq response (pos 0)
    then record m { successful_requests = suc m.successful_requests % 2 ^ 32 }
    else m

unfoldable pub add_request : PerfMetrics → PerfMetrics
add_request m = record m { total_requests = suc m.total_requests % 2 ^ 32 }

-- Where a thread stands, with the turns that it still has after this one: at the head of its loop, with
-- that many turns left; before the `if`, with the result of `chubby_lock`; and after the `if`.
pub data Pc : Type 0 where
  looping : ℕ → Pc
  answered : ℕ → ℤ → Pc
  noted : ℕ → Pc

-- The counters, the threads, and the results that `chubby_lock` has given, the last one first.
pub record Load : Type 0 where
  pub metrics : PerfMetrics
  pub threads : List Pc
  pub responses : List ℤ

-- One access of one thread. The latency and the result of the call are the environment's choice.
pub data Move (m : PerfMetrics) (rs : List ℤ) : Pc → PerfMetrics → List ℤ → Pc → Type 0 where
  lock :
      {left : ℕ} (latency_ns : ℕ) (response : ℤ)
      → Move m rs
          (looping (suc left))
          (add_latency latency_ns m)
          (response ∷ rs)
          (answered left response)
  note :
      {left : ℕ} {response : ℤ}
      → Move m rs (answered left response) (add_success response m) rs (noted left)
  count : {left : ℕ} → Move m rs (noted left) (add_request m) rs (looping left)

pub data Step (s : Load) : Load → Type 0 where
  pick :
      (before after : List Pc) {p q : Pc} {m : PerfMetrics} {rs : List ℤ}
      → s.threads ≡ before ++ p ∷ after
      → Move s.metrics s.responses p m rs q
      → Step s (record { metrics = m; threads = before ++ q ∷ after; responses = rs })

-- The threads that `run_performance_test` starts.
unfoldable pub client_threads : ℕ → ℕ → List Pc
client_threads zero num_requests = []
client_threads (suc num_clients) num_requests =
    looping num_requests ∷ client_threads num_clients num_requests

unfoldable pub begun : ℕ → ℕ → Load
unfolding client_threads
begun num_requests num_clients = record {
  metrics = record { total_requests = 0; successful_requests = 0; total_latency_ns = 0 };
  threads = client_threads num_clients num_requests;
  responses = [];
}

pub data Reach (s : Load) : Load → Type 0 where
  here : Reach s s
  later : {t u : Load} → Reach s t → Step t u → Reach s u

-- Every thread has left its loop, so that `run_performance_test` has joined them all.
abbrev pub AllJoined : List Pc → Type 0
AllJoined [] = Unit {0}
AllJoined (p ∷ rest) = (p ≡ looping 0) × AllJoined rest
