-- ===== src/RateLimit/Retry.antt =====
-- The time that a refused client is told to wait, and the limits of what a check reports
-- (src/common/throttler/redis-rate-limit.config.ts).
use backend_gateway.Base.{
  ℕ, suc, ◌+◌, ◌-◌, ◌*◌, ◌/◌, ◌≤◌, ◌<◌, String, some, ◌≡◌, sym, subst, arith,
}
use backend_gateway.RateLimit.Guard.{ceil_seconds}
use backend_gateway.RateLimit.Redis.{RedisOptions, Redis, fixed_window_check}

next_window : (m q w : ℕ) → 0 < w → q * w + w ≤ m → suc q ≤ m / w
next_window m q w h k = grind arith

wait-covers : (now end : ℕ) → end ≤ now + ceil_seconds (ceil_seconds end * 1000 - now) * 1000
wait-covers now end = omega arith

module _ {S : Type 0} (r : Redis S) where
  -- A client of a fixed window that is refused and waits as long as it is told is in a later window.
  pub fixed_window_check-later :
      (print : ℕ → String) (key : String) (now wait : ℕ) (o : RedisOptions) (s : S)
      → 0 < o.window_ms
      → (fixed_window_check r print key now o s).1.retry_after ≡ some wait
      → now / o.window_ms < (now + wait * 1000) / o.window_ms
  unfolding fixed_window_check
  fixed_window_check-later print key now wait o s h k =
      let end = now / o.window_ms * o.window_ms + o.window_ms in
      let told : wait ≡ ceil_seconds (ceil_seconds end * 1000 - now) = ground arith in
      next_window (now + wait * 1000) (now / o.window_ms) o.window_ms h
        (subst (λ n. end ≤ now + n * 1000) (sym told) (wait-covers now end))
