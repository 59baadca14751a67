-- ===== src/Examples/Measured.antt =====
-- The theorem on the load test, at two clients with one request each, whose accesses interleave.
use chubby.Prelude.{◌*◌, ◌≤◌, ◌≡◌, refl, [], ◌∷◌, arith}
use chubby.Prelude.Int.{pos, negsuc}
use chubby.Client.Performance.{
  add_latency, add_success, add_request, looping, answered, noted, Load, lock, note, count, pick,
  client_threads, begun, Reach, here, later,
}
use chubby.Client.Performance.Counting.{length, successes, all_counted}

-- The first client's call fails and the second one's succeeds.
abbrev over : Load
over = record {
  metrics = record { total_requests = 2; successful_requests = 1; total_latency_ns = 12 };
  threads = looping 0 ∷ looping 0 ∷ [];
  responses = pos 0 ∷ negsuc 0 ∷ [];
}

over-Reach : Reach (begun 1 2) over
unfolding begun client_threads add_latency add_success add_request
over-Reach =
    later
      (later
        (later
          (later
            (later (later here (pick [] (looping 1 ∷ []) refl (lock 5 (negsuc 0))))
              (pick (answered 0 (negsuc 0) ∷ []) [] refl (lock 7 (pos 0))))
            (pick [] (answered 0 (pos 0) ∷ []) refl note))
          (pick (noted 0 ∷ []) [] refl note))
        (pick (noted 0 ∷ []) [] refl count))
      (pick [] (looping 0 ∷ []) refl count)

all_counted_example :
    (length over.responses ≡ 2 * 1)
    × (over.metrics.total_requests ≡ 2 * 1)
    × (over.metrics.successful_requests ≡ successes over.responses)
    × (over.metrics.successful_requests ≤ over.metrics.total_requests)
all_counted_example = all_counted 1 2 over (omega arith) over-Reach (refl, (refl, tt))
