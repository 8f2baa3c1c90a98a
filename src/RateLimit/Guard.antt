-- ===== src/RateLimit/Guard.antt =====
-- src/common/guards/rate-limit.guard.ts: the guard that counts the requests of a client in memory.
use Prim.Native.String.{◌++◌ as ◌<>◌}
use backend_gateway.Base.{
  ℕ, ◌+◌, ◌-◌, ◌/◌, String, Bool, Option, none, some, string_eq, if◌then◌else◌, ltb, filter, not,
  Dict, get, put,
}
use backend_gateway.Webrtc.State.{present, or_default}

pub record RateLimitEntry : Type 0 where
  pub count : ℕ
  pub reset_time : ℕ

-- What the decorator was given.
pub record RateLimitOptions : Type 0 where
  pub window_ms : Option ℕ
  pub max : Option ℕ
  pub key_prefix : Option String
  pub message : Option String

-- What the guard reads of a request.
pub record GuardRequest : Type 0 where
  pub client_ip : Option String
  pub ip : Option String
  pub path : String

pub record RateLimitHeaders : Type 0 where
  pub limit : ℕ
  pub remaining : ℕ
  pub reset : ℕ
  pub retry_after : Option ℕ

-- `true`, without headers where the handler has no limit, or status 429 with its message.
pub data Admission : Type 0 where
  unlimited : Admission
  admitted : RateLimitHeaders → Admission
  too_many : RateLimitHeaders → String → Admission

abbrev pub Store : Type 0
Store = Dict String RateLimitEntry

abbrev pub or_number : Option ℕ → ℕ → ℕ
or_number none d = d
or_number (some n) d = n

-- `Math.ceil(ms / 1000)`
abbrev pub ceil_seconds : ℕ → ℕ
ceil_seconds ms = (ms + 999) / 1000

abbrev pub first_present : Option String → Option String → String
first_present a b = or_default (present a) (or_default (present b) "unknown")

unfoldable pub guard_key : RateLimitOptions → GuardRequest → String
guard_key options r =
    or_default options.key_prefix "default"
    <> (":" <> (first_present r.client_ip r.ip <> (":" <> r.path)))

-- The entry after a request: a new one where there is none or the old one has expired.
unfoldable pub next_entry : ℕ → ℕ → Option RateLimitEntry → RateLimitEntry
next_entry now window none = record { count = 1; reset_time = now + window }
next_entry now window (some e) =
    if ltb e.reset_time now
    then record { count = 1; reset_time = now + window }
    else record e { count = e.count + 1 }

-- A clock that does not run back: the entry's reset time is not in the past.
unfoldable pub admission : ℕ → ℕ → String → RateLimitEntry → Admission
admission now max message e =
    let seconds = ceil_seconds (e.reset_time - now) in
    if ltb max e.count
    then too_many
        (record {
          limit = max;
          remaining = max - e.count;
          reset = seconds;
          retry_after = some seconds;
        })
        message
    else admitted
        (record { limit = max; remaining = max - e.count; reset = seconds; retry_after = none })

-- The rest of `canActivate`, where the handler has a limit.
unfoldable pub hit : ℕ → ℕ → ℕ → String → String → Store → Store × Admission
unfolding next_entry admission
hit now window max message key store =
    let e = next_entry now window (get key store) in (put key e store, admission now max message e)

unfoldable pub can_activate : ℕ → Option RateLimitOptions → GuardRequest → Store → Store × Admission
unfolding guard_key hit
can_activate now none r store = (store, unlimited)
can_activate now (some o) r store =
    hit now (or_number o.window_ms 60000) (or_number o.max 60)
      (or_default o.message "Too many requests, please try again later") (guard_key o r) store

-- The entries that a clean-up keeps.
abbrev pub is_current : ℕ → String × RateLimitEntry → Bool
is_current now (k, e) = not (ltb e.reset_time now)

unfoldable pub cleanup : ℕ → Store → Store
cleanup now store = filter (is_current now) store

-- The decorators with fixed options.
abbrev pub limits : ℕ → ℕ → String → String → RateLimitOptions
limits window max prefix message = record {
  window_ms = some window;
  max = some max;
  key_prefix = some prefix;
  message = some message;
}

abbrev pub auth_rate_limit : RateLimitOptions
auth_rate_limit =
    limits 900000 10 "auth" "Too many authentication attempts. Please try again in 15 minutes."

abbrev pub otp_rate_limit : RateLimitOptions
otp_rate_limit = limits 3600000 5 "otp" "Too many OTP requests. Please try again in 1 hour."

abbrev pub upload_rate_limit : RateLimitOptions
upload_rate_limit = limits 3600000 50 "upload" "Upload limit exceeded. Please try again later."

abbrev pub api_rate_limit : RateLimitOptions
api_rate_limit = limits 60000 100 "api" "Too many requests. Please slow down."

abbrev pub search_rate_limit : RateLimitOptions
search_rate_limit = limits 60000 30 "search" "Too many search requests. Please slow down."
