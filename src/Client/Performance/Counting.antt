-- ===== src/Client/Performance/Counting.antt =====
-- The counters of a load test, whatever the order of the accesses.
use chubby.Prelude.{
  ℕ, zero, suc, ◌+◌, ◌*◌, ◌%◌, ◌^◌, ◌<◌, ◌≤◌, ◌≡◌, refl, sym, ap, ◌∙◌, List, [], ◌∷◌, ◌++◌,
  if◌then◌else◌, arith, Bool-cases, inl, inr,
}
use chubby.Prelude.Int.{ℤ, pos, int_beq}
use chubby.Client.Performance.{
  PerfMetrics, add_latency, add_success, add_request, Pc, looping, answered, noted, Load, Move,
  lock, note, count, Step, pick, client_threads, begun, Reach, here, later, AllJoined,
}

-- Calls still to be made, requests still to be counted, and results of zero still to be counted.
abbrev zero_result : ℤ → ℕ
zero_result response = if int_beq response (pos 0) then 1 else 0

abbrev uncalled : Pc → ℕ
uncalled (looping left) = left
uncalled (answered left response) = left
uncalled (noted left) = left

abbrev uncounted : Pc → ℕ
uncounted (looping left) = left
uncounted (answered left response) = suc left
uncounted (noted left) = suc left

abbrev unnoted : Pc → ℕ
unnoted (looping left) = 0
unnoted (answered left response) = zero_result response
unnoted (noted left) = 0

unfoldable pub length {ℓ} : {A : Type ℓ} → List A → ℕ
length [] = 0
length (x ∷ xs) = suc (length xs)

unfoldable pub sum_of : (Pc → ℕ) → List Pc → ℕ
sum_of f [] = 0
sum_of f (p ∷ rest) = f p + sum_of f rest

-- The number of results that are zero.
unfoldable pub successes : List ℤ → ℕ
successes [] = 0
successes (response ∷ rest) = (if int_beq response (pos 0) then 1 else 0) + successes rest

sum_of-append :
    (f : Pc → ℕ) (before after : List Pc) (p : Pc)
    → sum_of f (before ++ p ∷ after) ≡ sum_of f before + f p + sum_of f after
unfolding sum_of
sum_of-append f [] after p = omega arith
sum_of-append f (q ∷ before) after p = omega (arith, sum_of-append f before after p)

pub successes-le : (rs : List ℤ) → successes rs ≤ length rs
unfolding successes length
successes-le [] = omega arith
successes-le (r ∷ rest) = ground (arith, successes-le rest)

-- With `total` requests in all.
record IsCounted (total : ℕ) (s : Load) : Type 0 where
  pub calls : length s.responses + sum_of uncalled s.threads ≡ total
  pub requests : s.metrics.total_requests + sum_of uncounted s.threads ≡ total
  pub marked : s.metrics.successful_requests + sum_of unnoted s.threads ≡ successes s.responses

small_mod : (n : ℕ) → n < 2 ^ 31 → n % 2 ^ 32 ≡ n
small_mod n h = omega (arith, h)

module _ (total : ℕ) (small : total < 2 ^ 31) where
  -- What a thread's access does to the three counts, with what the other threads owe.
  Move-counts :
      {m n : PerfMetrics} {rs rs' : List ℤ} {p q : Pc} (called counted marked : ℕ)
      → Move m rs p n rs' q
      → length rs + (called + uncalled p) ≡ total
      → m.total_requests + (counted + uncounted p) ≡ total
      → m.successful_requests + (marked + unnoted p) ≡ successes rs
      → (length rs' + (called + uncalled q) ≡ total)
        × (n.total_requests + (counted + uncounted q) ≡ total)
        × (n.successful_requests + (marked + unnoted q) ≡ successes rs')
  unfolding add_latency add_success add_request length successes
  Move-counts called counted marked (lock latency response) h k z =
      (omega (arith, h), omega (arith, k), omega (arith, z))
  Move-counts {m} {rs} called counted marked (note {left} {response}) h k z =
      elim (Bool-cases (int_beq response (pos 0))) [
        | inl hit ↦
            let fits =
              small_mod (suc m.successful_requests)
                (ground (arith, h, z, hit, small, successes-le rs)) in
            (h, ground (arith, k, hit), ground (arith, z, hit, fits))
        | inr miss ↦ (h, ground (arith, k, miss), ground (arith, z, miss))
      ]
  Move-counts {m} called counted marked (count {left}) h k z =
      let fits = small_mod (suc m.total_requests) (omega (arith, k, small)) in
      (h, rw fits (omega (arith, k)), z)

  split_sum :
      (f : Pc → ℕ) (threads before after : List Pc) (p : Pc)
      → threads ≡ before ++ p ∷ after
      → sum_of f threads ≡ (sum_of f before + sum_of f after) + f p
  split_sum f threads before after p e =
      ap (sum_of f) e ∙ omega (arith, sum_of-append f before after p)

  Step-IsCounted : {s t : Load} → Step s t → IsCounted total s → IsCounted total t
  Step-IsCounted {s} (pick before after {p} {q} {m} {rs} e move) c =
      let others = λ (f : Pc → ℕ). sum_of f before + sum_of f after in
      let old = λ (f : Pc → ℕ). split_sum f s.threads before after p e in
      let new = λ (f : Pc → ℕ). split_sum f (before ++ q ∷ after) before after q refl in
      let (calls, requests, marked) =
        Move-counts (others uncalled) (others uncounted) (others unnoted) move
          (rw (sym (old uncalled)) c.calls) (rw (sym (old uncounted)) c.requests)
          (rw (sym (old unnoted)) c.marked) in
      record {
        calls = rw (new uncalled) calls;
        requests = rw (new uncounted) requests;
        marked = rw (new unnoted) marked;
      }

  Reach-IsCounted : {s t : Load} → Reach s t → IsCounted total s → IsCounted total t
  Reach-IsCounted here c = c
  Reach-IsCounted (later r step) c = Step-IsCounted step (Reach-IsCounted r c)

client_threads-sum_of :
    (num_clients num_requests : ℕ)
    → (sum_of uncalled (client_threads num_clients num_requests) ≡ num_clients * num_requests)
      × (sum_of uncounted (client_threads num_clients num_requests) ≡ num_clients * num_requests)
      × (sum_of unnoted (client_threads num_clients num_requests) ≡ 0)
unfolding sum_of client_threads
client_threads-sum_of zero num_requests = (omega arith, omega arith, refl)
client_threads-sum_of (suc num_clients) num_requests =
    let (calls, requests, marked) = client_threads-sum_of num_clients num_requests in
    (ground (arith, calls), ground (arith, requests), omega (arith, marked))

begun-IsCounted :
    (num_requests num_clients : ℕ)
    → IsCounted (num_clients * num_requests) (begun num_requests num_clients)
unfolding begun length successes
begun-IsCounted num_requests num_clients =
    let (calls, requests, marked) = client_threads-sum_of num_clients num_requests in
    record {
      calls = omega (arith, calls);
      requests = omega (arith, requests);
      marked = omega (arith, marked);
    }

nothing_left :
    (f : Pc → ℕ) (threads : List Pc) → f (looping 0) ≡ 0 → AllJoined threads → sum_of f threads ≡ 0
unfolding sum_of
nothing_left f [] none_left all = refl
nothing_left f (p ∷ rest) none_left (done, all) =
    rw (done, none_left) (omega (arith, nothing_left f rest none_left all))

-- When all the threads of a load test have been joined, whatever the order of their accesses and
-- the results of the calls, and the number of all requests is below 2 ^ 31, then all the calls have
-- been made, `total_requests` is their number, `successful_requests` is the number of results that
-- are zero, and that is at most the number of requests.
pub all_counted :
    (num_requests num_clients : ℕ) (s : Load)
    → num_clients * num_requests < 2 ^ 31
    → Reach (begun num_requests num_clients) s
    → AllJoined s.threads
    → (length s.responses ≡ num_clients * num_requests)
      × (s.metrics.total_requests ≡ num_clients * num_requests)
      × (s.metrics.successful_requests ≡ successes s.responses)
      × (s.metrics.successful_requests ≤ s.metrics.total_requests)
all_counted num_requests num_clients s small r all =
    let total = num_clients * num_requests in
    let c = Reach-IsCounted total small r (begun-IsCounted num_requests num_clients) in
    let calls = nothing_left uncalled s.threads refl all in
    let requests = nothing_left uncounted s.threads refl all in
    let marked = nothing_left unnoted s.threads refl all in
    (
      omega (arith, c.calls, calls),
      omega (arith, c.requests, requests),
      omega (arith, c.marked, marked),
      omega
          (arith, c.calls, c.requests, c.marked, calls, requests, marked, successes-le s.responses),
    )
