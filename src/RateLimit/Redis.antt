-- ===== src/RateLimit/Redis.antt =====
-- src/common/throttler/redis-rate-limit.config.ts: the limiter over Redis.
use Prim.Native.String.{◌++◌ as ◌<>◌}
use backend_gateway.Base.{
  ℕ, suc, ◌+◌, ◌-◌, ◌*◌, ◌/◌, max, String, Bool, true, false, Option, none, some, List, [], ◌∷◌,
  ◌++◌, ◌≡◌, ◌==◌, string_eq, if◌then◌else◌, ltb, leb, filter, length,
}
use backend_gateway.Webrtc.State.{present, or_default}
use backend_gateway.RateLimit.Guard.{ceil_seconds}

pub record RateLimitResult : Type 0 where
  pub success : Bool
  pub remaining : ℕ
  pub reset : ℕ
  pub total : ℕ
  pub retry_after : Option ℕ

-- The options that the checks read, after the defaults.
pub record RedisOptions : Type 0 where
  pub window_ms : ℕ
  pub max_requests : ℕ
  pub key_prefix : String
  pub sliding_window : Bool

abbrev pub default_options : RedisOptions
default_options = record {
  window_ms = 60000;
  max_requests = 100;
  key_prefix = "rl:";
  sliding_window = true;
}

-- Redis: sorted sets, by their scores in order, and counters. A `multi` runs its commands at once.
-- The laws are the documented behaviour that the checks rely on.
pub record Redis (S : Type 0) : Type 0 where
  pub scores : String → S → List ℕ
  pub zremrangebyscore : String → ℕ → S → S
  pub zadd : String → ℕ → S → S
  pub counter : String → S → ℕ
  pub incr : String → S → S
  pub pttl : String → S → Option ℕ
  pub pexpire : String → ℕ → S → S
  pub del : String → S → S
  pub zremrangebyscore_law :
      (key : String) (t : ℕ) (s : S)
      → scores key (zremrangebyscore key t s) ≡ filter (λ x. ltb t x) (scores key s)
  pub zadd_law :
      (key : String) (t x : ℕ) (s : S)
      → length (filter (λ y. ltb x y) (scores key (zadd key t s)))
        ≡ length (filter (λ y. ltb x y) (scores key s)) + (if ltb x t then 1 else 0)
  pub zadd_length :
      (key : String) (t : ℕ) (s : S)
      → length (scores key (zadd key t s)) ≡ suc (length (scores key s))
  pub incr_law :
      (key k : String) (s : S)
      → counter k (incr key s) ≡ (if key == k then suc (counter k s) else counter k s)

abbrev head_or : ℕ → List ℕ → ℕ
head_or d [] = d
head_or d (x ∷ xs) = x

-- `windowKey`; `print` writes a number.
abbrev pub window_key : (ℕ → String) → String → ℕ → ℕ → String
window_key print key now window = key <> (":" <> print (now / window))

module _ {S : Type 0} (r : Redis S) where
  -- The commands of the transaction. The clock is past the length of the window.
  unfoldable pub record_request : String → ℕ → ℕ → S → S
  record_request key now window s = r.zadd key now (r.zremrangebyscore key (now - window) s)

  unfoldable pub sliding_window_check : String → ℕ → RedisOptions → S → S × RateLimitResult
  unfolding record_request
  sliding_window_check key now o s =
      let s' = record_request key now o.window_ms s in
      let count = length (r.scores key s') in
      let reset = ceil_seconds (now + o.window_ms) in
      let oldest = head_or now (r.scores key s') in
      (
        s',
        if ltb o.max_requests count
            then (record {
              success = false;
              remaining = 0;
              reset = reset;
              total = o.max_requests;
              retry_after = some (max 1 (ceil_seconds (oldest + o.window_ms - now)));
            })
            else (record {
              success = true;
              remaining = o.max_requests - count;
              reset = reset;
              total = o.max_requests;
              retry_after = none;
            }),
      )

  unfoldable pub fixed_window_check :
      (ℕ → String) → String → ℕ → RedisOptions → S → S × RateLimitResult
  fixed_window_check print key now o s =
      let k = window_key print key now o.window_ms in
      let s' = r.incr k s in
      let count = r.counter k s' in
      let reset = ceil_seconds (now / o.window_ms * o.window_ms + o.window_ms) in
      (
        s',
        if ltb o.max_requests count
            then (record {
              success = false;
              remaining = 0;
              reset = reset;
              total = o.max_requests;
              retry_after = some (ceil_seconds (reset * 1000 - now));
            })
            else (record {
              success = true;
              remaining = o.max_requests - count;
              reset = reset;
              total = o.max_requests;
              retry_after = none;
            }),
      )

  unfoldable pub check_limit : (ℕ → String) → String → ℕ → RedisOptions → S → S × RateLimitResult
  unfolding sliding_window_check fixed_window_check
  check_limit print key now o s =
      if o.sliding_window
      then sliding_window_check (o.key_prefix <> key) now o s
      else fixed_window_check print (o.key_prefix <> key) now o s

  unfoldable pub reset_key : String → RedisOptions → S → S
  reset_key key o s = r.del (o.key_prefix <> key) s

  unfoldable pub get_status : String → ℕ → RedisOptions → S → S × RateLimitResult
  get_status key now o s =
      let k = o.key_prefix <> key in
      let s' = r.zremrangebyscore k (now - o.window_ms) s in
      let count = length (r.scores k s') in
      (
        s',
        record {
          success = leb count o.max_requests;
          remaining = o.max_requests - count;
          reset = ceil_seconds (now + o.window_ms);
          total = o.max_requests;
          retry_after = none;
        },
      )

  -- `RedisThrottlerStorage.increment`: the hits, and the time to expire. `pttl` gives `none` for a
  -- key without an end.
  unfoldable pub increment : String → ℕ → S → S × (ℕ × ℕ)
  increment key ttl s =
      let k = "throttle:" <> key in
      let s' = r.incr k s in
      elim (r.pttl k s') [
        | none ↦ (r.pexpire k ttl s', (r.counter k s', ttl))
        | some t ↦ (s', (r.counter k s', t))
      ]

-- What `generateRateLimitKey` reads of a request: the user's `userId` and `id`, if there is a user.
pub record KeyRequest : Type 0 where
  pub client_ip : Option String
  pub ip : Option String
  pub remote_address : Option String
  pub user : Option (Option String × Option String)
  pub path : Option String
  pub url : Option String

abbrev first_of : Option String → Option String → String → String
first_of a b d = or_default (present a) (or_default (present b) d)

abbrev user_parts : Bool → Option (Option String × Option String) → List String
user_parts true (some (user_id, id)) = first_of user_id id "anonymous" ∷ []
user_parts _ _ = []

-- `parts.join(':')`
unfoldable pub join_parts : List String → String
join_parts [] = ""
join_parts (p ∷ []) = p
join_parts (p ∷ q ∷ ps) = p <> (":" <> join_parts (q ∷ ps))

abbrev custom_parts : Option String → List String
custom_parts none = []
custom_parts (some c) = c ∷ []

unfoldable pub generate_rate_limit_key : Bool → Bool → Option String → KeyRequest → String
unfolding join_parts
generate_rate_limit_key with_user with_path custom q = join_parts (
    (or_default (present q.client_ip) (first_of q.ip q.remote_address "unknown") ∷ [])
    ++ (user_parts with_user q.user
        ++ ((if with_path then first_of q.path q.url "/" ∷ [] else [])
            ++ custom_parts (present custom))))
