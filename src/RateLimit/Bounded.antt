-- ===== src/RateLimit/Bounded.antt =====
-- How many requests the guard of src/common/guards/rate-limit.guard.ts admits in a window.
use backend_gateway.Base.{
  ℕ, ◌+◌, ◌-◌, ◌≤◌, ◌<◌, String, Bool, true, false, Option, none, some, List, [], ◌∷◌, ◌≡◌, refl,
  ◌==◌, string_eq, if◌then◌else◌, ltb, All, get, get-put, arith, Bool-cases, inl, inr, ==_refl,
  ==_iff, ==_iff,
}
use backend_gateway.RateLimit.Guard.{
  RateLimitEntry, Store, Admission, too_many, hit, next_entry, admission, cleanup,
}

-- What happens to the guard: a request with the key, window and limit of its handler, or a clean-up.
pub record Arrival : Type 0 where
  pub now : ℕ
  pub key : String
  pub window : ℕ
  pub max : ℕ
  pub message : String

pub data Event : Type 0 where
  arrive : Arrival → Event
  clean : ℕ → Event

abbrev pub time : Event → ℕ
time (arrive a) = a.now
time (clean now) = now

abbrev pub arrival_at : Arrival → Store → Store × Admission
arrival_at a store = hit a.now a.window a.max a.message a.key store

abbrev pub is_admitted : Admission → Bool
is_admitted (too_many h m) = false
is_admitted _ = true

-- How many requests with the key are admitted in a run.
unfoldable pub admissions : String → List Event → Store → ℕ
admissions key [] store = 0
admissions key (clean now ∷ es) store = admissions key es (cleanup now store)
admissions key (arrive a ∷ es) store =
    let (store', answer) = arrival_at a store in
    admissions key es store' + (if a.key == key then (if is_admitted answer then 1 else 0) else 0)

-- The events up to a time, with one limit for the key.
abbrev pub IsWithin : String → ℕ → ℕ → Event → Type 0
IsWithin key max end (clean now) = now ≤ end
IsWithin key max end (arrive a) = (a.now ≤ end) × (a.key ≡ key → a.max ≡ max)

get-cleanup :
    (key : String) (now : ℕ) (e : RateLimitEntry) (store : Store)
    → get key store ≡ some e
    → now ≤ e.reset_time
    → get key (cleanup now store) ≡ some e
unfolding get cleanup
get-cleanup key now e [] h k = ground arith
get-cleanup key now e ((j, d) ∷ store) h k = ground (arith, get-cleanup key now e store)

pub get-hit :
    (a : Arrival) (key : String) (store : Store)
    → get key (arrival_at a store).0
      ≡ (if a.key == key then some (next_entry a.now a.window (get a.key store)) else get key store)
unfolding hit
get-hit a key store = get-put a.key key (next_entry a.now a.window (get a.key store)) store

admitted-hit :
    (a : Arrival) (store : Store)
    → is_admitted (arrival_at a store).1
      ≡ (if ltb a.max (next_entry a.now a.window (get a.key store)).count then false else true)
unfolding hit admission
admitted-hit a store = ground arith

next_entry-current :
    (now window : ℕ) (e : RateLimitEntry)
    → now ≤ e.reset_time
    → next_entry now window (some e) ≡ record e { count = e.count + 1 }
unfolding next_entry
next_entry-current now window e h = ground arith

admissions_within :
    (key : String) (max : ℕ) (e : RateLimitEntry) (es : List Event) (store : Store)
    → get key store ≡ some e
    → All (IsWithin key max e.reset_time) es
    → admissions key es store ≤ max - e.count
unfolding admissions
admissions_within key max e [] store h k = omega arith
admissions_within key max e (clean now ∷ es) store h k =
    admissions_within key max e es (cleanup now store) (get-cleanup key now e store h k.0) k.1
admissions_within key max e (arrive a ∷ es) store h k = elim (Bool-cases (a.key == key)) [
  | inl same ↦
      let now : get a.key store ≡ some e = ground (arith, (==_iff a.key key).0 same) in
      let next = next_entry-current a.now a.window e k.0.0 in
      ground (
        arith,
        now,
        next,
        (==_iff a.key key).0 same,
        get-hit a key store,
        admitted-hit a store,
        admissions_within key max (record e { count = e.count + 1 }) es (arrival_at a store).0,
      )
  | inr other ↦ rw other (
      ground (
        arith,
        admissions_within key max e es (arrival_at a store).0 (rw (get-hit a key store, other) h)
            k.1,
      ))
]

-- The store has no entry for the key, or an expired one.
abbrev pub IsOver : ℕ → Option RateLimitEntry → Type 0
IsOver now none = Unit
IsOver now (some e) = e.reset_time < now

next_entry-over :
    (now window : ℕ) (o : Option RateLimitEntry)
    → IsOver now o
    → next_entry now window o ≡ record { count = 1; reset_time = now + window }
unfolding next_entry
next_entry-over now window none h = refl
next_entry-over now window (some e) h = ground arith

-- From a request that opens a window, until that window ends, the guard admits at most as many
-- requests with the key as its limit, whatever clean-ups and other requests come between.
pub admissions-le-max :
    (a : Arrival) (es : List Event) (store : Store)
    → IsOver a.now (get a.key store)
    → All (IsWithin a.key a.max (a.now + a.window)) es
    → admissions a.key (arrive a ∷ es) store ≤ a.max
unfolding admissions
admissions-le-max a es store h k =
    let first = next_entry-over a.now a.window (get a.key store) h in
    ground (
      arith,
      first,
      ==_refl a.key,
      get-hit a a.key store,
      admitted-hit a store,
      admissions_within a.key a.max (record { count = 1; reset_time = a.now + a.window }) es
          (arrival_at a store).0,
    )
