-- ===== src/RateLimit/Memory.antt =====
-- The commands of Redis that src/common/throttler uses, over association lists.
use backend_gateway.Base.{
  ℕ, suc, ◌+◌, String, Option, none, some, List, [], ◌∷◌, ◌++◌, ◌≡◌, ap, ◌∙◌, ◌==◌, string_eq,
  if◌then◌else◌, ltb, filter, length, length-append, Dict, get, put, delete, get-put, arith,
  ==_refl,
}
use backend_gateway.RateLimit.Redis.{Redis}

pub record RedisStore : Type 0 where
  pub sets : Dict String (List ℕ)
  pub counters : Dict String ℕ
  pub ends : Dict String ℕ

abbrev pub list_or : Option (List ℕ) → List ℕ
list_or none = []
list_or (some xs) = xs

abbrev pub zero_or : Option ℕ → ℕ
zero_or none = 0
zero_or (some n) = n

abbrev pub scores : String → RedisStore → List ℕ
scores key s = list_or (get key s.sets)

abbrev pub with_scores : String → List ℕ → RedisStore → RedisStore
with_scores key xs s = record s { sets = put key xs s.sets }

abbrev pub counter : String → RedisStore → ℕ
counter key s = zero_or (get key s.counters)

pub scores-with :
    (key : String) (xs : List ℕ) (s : RedisStore) → scores key (with_scores key xs s) ≡ xs
scores-with key xs s = ground (arith, get-put key key xs s.sets, ==_refl key)

count-append :
    (x t : ℕ) (xs : List ℕ)
    → length (filter (λ y. ltb x y) (xs ++ t ∷ []))
      ≡ length (filter (λ y. ltb x y) xs) + (if ltb x t then 1 else 0)
count-append x t [] = ground arith
count-append x t (y ∷ ys) = ground (arith, count-append x t ys)

pub zadd_lem :
    (key : String) (t x : ℕ) (s : RedisStore)
    → length (filter (λ y. ltb x y) (scores key (with_scores key (scores key s ++ t ∷ []) s)))
      ≡ length (filter (λ y. ltb x y) (scores key s)) + (if ltb x t then 1 else 0)
zadd_lem key t x s =
    ap (λ ys. length (filter (λ y. ltb x y) ys)) (scores-with key (scores key s ++ t ∷ []) s)
    ∙ count-append x t (scores key s)

pub zadd-length :
    (key : String) (t : ℕ) (s : RedisStore)
    → length (scores key (with_scores key (scores key s ++ t ∷ []) s)) ≡ suc (length (scores key s))
zadd-length key t s =
    ap length (scores-with key (scores key s ++ t ∷ []) s)
    ∙ omega (arith, length-append (scores key s) (t ∷ []))

pub counter-put :
    (key k : String) (s : RedisStore)
    → counter k (record s { counters = put key (suc (counter key s)) s.counters })
      ≡ (if key == k then suc (counter k s) else counter k s)
counter-put key k s = ground (arith, get-put key k (suc (counter key s)) s.counters)

abbrev pub in_memory : Redis RedisStore
in_memory = record {
  scores = scores;
  zremrangebyscore = λ key t s. with_scores key (filter (λ x. ltb t x) (scores key s)) s;
  zadd = λ key t s. with_scores key (scores key s ++ t ∷ []) s;
  counter = counter;
  incr = λ key s. record s { counters = put key (suc (counter key s)) s.counters };
  pttl = λ key s. get key s.ends;
  pexpire = λ key t s. record s { ends = put key t s.ends };
  del = λ key s. record s {
    sets = delete key s.sets;
    counters = delete key s.counters;
    ends = delete key s.ends;
  };
  zremrangebyscore_law = λ key t s. scores-with key (filter (λ x. ltb t x) (scores key s)) s;
  zadd_law = zadd_lem;
  zadd_length = zadd-length;
  incr_law = counter-put;
}
