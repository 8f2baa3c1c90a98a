-- ===== src/RateLimit/Tests.antt =====
-- The limiters at concrete inputs, and the theorems applied there.
use native.Mathlib.Decide.{ℕ_discrete}
use backend_gateway.Base.{
  ℕ, suc, ◌+◌, ◌-◌, ◌*◌, ◌/◌, ◌≤◌, ◌<◌, String, String_discrete, true, false, none, some, List, [],
  ◌∷◌, ◌≡◌, refl, leb, get, put, delete, arith,
}
use backend_gateway.RateLimit.Guard.{
  GuardRequest, admitted, guard_key, next_entry, admission, hit, can_activate, cleanup,
  otp_rate_limit,
}
use backend_gateway.RateLimit.Bounded.{Arrival, Event, arrive, clean, admissions, admissions-le-max}
use backend_gateway.RateLimit.Cleanup.{answers, requests_only, answers-requests_only}
use backend_gateway.RateLimit.Redis.{
  RedisOptions, record_request, sliding_window_check, fixed_window_check, generate_rate_limit_key,
  join_parts,
}
use backend_gateway.RateLimit.Memory.{RedisStore, in_memory}
use backend_gateway.RateLimit.Log.{count_after, run_checks, sliding_window_check-log}
use backend_gateway.RateLimit.Retry.{fixed_window_check-later}

program : Unit {0}
unfolding String_discrete ℕ_discrete get put delete guard_key next_entry admission hit can_activate
    cleanup admissions answers record_request sliding_window_check fixed_window_check join_parts
    generate_rate_limit_key run_checks
program = tt

abbrev request : GuardRequest
request = record { client_ip = some ""; ip = some "1.2.3.4"; path = "/otp" }

first_request :
    (can_activate 1000 (some otp_rate_limit) request ([])).1
    ≡ admitted (record { limit = 5; remaining = 4; reset = 3600; retry_after = none })
unfolding program
first_request = refl

key_test : guard_key otp_rate_limit request ≡ "otp:1.2.3.4:/otp"
unfolding program
key_test = refl

abbrev arrival : ℕ → Arrival
arrival now = record { now = now; key = "k"; window = 100; max = 1; message = "wait" }

abbrev events : List Event
events = clean 5 ∷ arrive (arrival 20) ∷ clean 30 ∷ arrive (arrival 100) ∷ []

admissions-le-max_example : admissions "k" (arrive (arrival 0) ∷ events) ([]) ≤ 1
unfolding program
admissions-le-max_example =
    admissions-le-max (arrival 0) events ([]) tt
      (omega arith, ((omega arith, λ e. refl), (omega arith, ((omega arith, λ e. refl), tt))))

answers-requests_only_example :
    answers (arrive (arrival 0) ∷ events) ([])
    ≡ answers (requests_only (arrive (arrival 0) ∷ events)) ([])
answers-requests_only_example =
    answers-requests_only 0 (arrive (arrival 0) ∷ events) ([]) (omega arith) tt

abbrev options : RedisOptions
options = record { window_ms = 100; max_requests = 2; key_prefix = "rl:"; sliding_window = true }

abbrev empty : RedisStore
empty = record { sets = []; counters = []; ends = [] }

abbrev log : List ℕ
log = 260 ∷ 250 ∷ 100 ∷ []

refused :
    (sliding_window_check in_memory "k" 300 options (run_checks in_memory "k" options log empty)).1
    ≡ record { success = false; remaining = 0; reset = 1; total = 2; retry_after = some 1 }
unfolding program
refused = refl

sliding_window_check-log_example :
    (sliding_window_check in_memory "k" 300 options
      (run_checks in_memory "k" options log empty)).1.success
    ≡ leb (suc (count_after (300 - 100) log)) 2
unfolding get
sliding_window_check-log_example =
    sliding_window_check-log in_memory "k" options 300 log empty refl (omega arith)

abbrev print : ℕ → String
print n = "0"

abbrev none_left : RedisOptions
none_left = record {
  window_ms = 5000;
  max_requests = 0;
  key_prefix = "rl:";
  sliding_window = false;
}

fixed_window_check-later_example : 7000 / 5000 < (7000 + 3 * 1000) / 5000
unfolding program
fixed_window_check-later_example =
    fixed_window_check-later in_memory print "k" 7000 3 none_left empty (omega arith) refl

key_parts :
    generate_rate_limit_key true true (some "x") (record {
      client_ip = none;
      ip = some "1.2.3.4";
      remote_address = none;
      user = some (none, some "ann");
      path = none;
      url = none;
    })
    ≡ "1.2.3.4:ann:/:x"
unfolding program
key_parts = refl
