-- ===== src/RateLimit/Log.antt =====
-- The sliding window of src/common/throttler/redis-rate-limit.config.ts against a log of requests.
use backend_gateway.Base.{
  ℕ, suc, ◌+◌, ◌-◌, ◌≤◌, String, List, [], ◌∷◌, ◌≡◌, refl, ap, ◌∙◌, if◌then◌else◌, ltb, leb, filter,
  length, arith,
}
use backend_gateway.RateLimit.Redis.{RedisOptions, Redis, record_request, sliding_window_check}

-- How many of the times are after a given one.
abbrev pub count_after : ℕ → List ℕ → ℕ
count_after t xs = length (filter (λ x. ltb t x) xs)

count_after-filter :
    (t u : ℕ) (xs : List ℕ) → t ≤ u → count_after u (filter (λ x. ltb t x) xs) ≡ count_after u xs
count_after-filter t u [] h = refl
count_after-filter t u (x ∷ xs) h = ground (arith, count_after-filter t u xs)

count_after-cons :
    (t x : ℕ) (xs : List ℕ) → count_after t (x ∷ xs) ≡ count_after t xs + (if ltb t x then 1 else 0)
count_after-cons t x xs = ground arith

length-filter_after :
    (t : ℕ) (xs : List ℕ)
    → length (filter (λ x. ltb t x) (filter (λ x. ltb t x) xs)) ≡ count_after t xs
length-filter_after t xs = count_after-filter t t xs (omega arith)

-- The times of a log, the last one first, do not run back.
abbrev pub IsLog : ℕ → List ℕ → Type 0
IsLog now [] = Unit
IsLog now (t ∷ ts) = (t ≤ now) × IsLog t ts

module _ {S : Type 0} (r : Redis S) (key : String) (o : RedisOptions) where
  -- The store after a check at each time of the log, the last one first.
  unfoldable pub run_checks : List ℕ → S → S
  run_checks [] s = s
  run_checks (t ∷ ts) s = (sliding_window_check r key t o (run_checks ts s)).0

  count_after-record_request :
      (now t : ℕ) (s : S)
      → now - o.window_ms ≤ t
      → count_after t (r.scores key (record_request r key now o.window_ms s))
        ≡ count_after t (r.scores key s) + (if ltb t now then 1 else 0)
  unfolding record_request
  count_after-record_request now t s h =
      r.zadd_law key now t (r.zremrangebyscore key (now - o.window_ms) s)
      ∙ ap (λ xs. count_after t xs + (if ltb t now then 1 else 0))
          (r.zremrangebyscore_law key (now - o.window_ms) s)
      ∙ ap (λ n. n + (if ltb t now then 1 else 0))
          (count_after-filter (now - o.window_ms) t (r.scores key s) h)

  check-record_request :
      (now : ℕ) (s : S)
      → (sliding_window_check r key now o s).0 ≡ record_request r key now o.window_ms s
  unfolding sliding_window_check
  check-record_request now s = refl

  -- In the window, the set holds the log.
  run_checks-log :
      (now : ℕ) (log : List ℕ) (s : S) (t : ℕ)
      → r.scores key s ≡ []
      → IsLog now log
      → now - o.window_ms ≤ t
      → count_after t (r.scores key (run_checks log s)) ≡ count_after t log
  unfolding run_checks
  run_checks-log now [] s t e h k = ap (count_after t) e
  run_checks-log now (u ∷ log) s t e h k =
      rw (check-record_request u (run_checks log s), count_after-cons t u log)
        (ground (
          arith,
          count_after-record_request u t (run_checks log s),
          run_checks-log u log s t e h.1,
        ))

  length-record_request :
      (now : ℕ) (s : S)
      → length (r.scores key (record_request r key now o.window_ms s))
        ≡ suc (count_after (now - o.window_ms) (r.scores key s))
  unfolding record_request
  length-record_request now s =
      r.zadd_length key now (r.zremrangebyscore key (now - o.window_ms) s)
      ∙ ap (λ xs. suc (length xs)) (r.zremrangebyscore_law key (now - o.window_ms) s)

  success-check :
      (now : ℕ) (s : S)
      → (sliding_window_check r key now o s).1.success
        ≡ leb (length (r.scores key (record_request r key now o.window_ms s))) o.max_requests
  unfolding sliding_window_check
  success-check now s = ground arith

  -- While the clock does not run back, a check succeeds exactly if, with it, at most as many checks
  -- as the limit were made in the window that ends now, the refused ones included. The run starts from an empty set.
  pub sliding_window_check-log :
      (now : ℕ) (log : List ℕ) (s : S)
      → r.scores key s ≡ []
      → IsLog now log
      → (sliding_window_check r key now o (run_checks log s)).1.success
        ≡ leb (suc (count_after (now - o.window_ms) log)) o.max_requests
  sliding_window_check-log now log s e h =
      success-check now (run_checks log s)
      ∙ ap (λ n. leb n o.max_requests)
          (length-record_request now (run_checks log s)
            ∙ ap suc (run_checks-log now log s (now - o.window_ms) e h (omega arith)))
