-- ===== src/RateLimit/Cleanup.antt =====
-- The clean-up of src/common/guards/rate-limit.guard.ts changes no answer.
use backend_gateway.Base.{
  ℕ, ◌≤◌, String, false, Option, none, some, List, [], ◌∷◌, ◌≡◌, refl, sym, ap, ◌∙◌, string_eq,
  if◌then◌else◌, ltb, get, keys, includes, IsDistinct, IsDistinct-keys-put, arith, ==_iff,
}
use backend_gateway.RateLimit.Guard.{
  RateLimitEntry, Store, Admission, hit, next_entry, admission, cleanup,
}
use backend_gateway.RateLimit.Bounded.{Arrival, Event, arrive, clean, time, arrival_at, get-hit}

-- The answers to the requests of a run.
unfoldable pub answers : List Event → Store → List Admission
answers [] store = []
answers (clean now ∷ es) store = answers es (cleanup now store)
answers (arrive a ∷ es) store =
    let (store', answer) = arrival_at a store in answer ∷ answers es store'

-- The run without its clean-ups.
abbrev pub requests_only : List Event → List Event
requests_only [] = []
requests_only (clean now ∷ es) = requests_only es
requests_only (arrive a ∷ es) = arrive a ∷ requests_only es

-- No event is before the time, nor before the event that it follows.
abbrev pub IsOrdered : ℕ → List Event → Type 0
IsOrdered t [] = Unit
IsOrdered t (e ∷ es) = (t ≤ time e) × IsOrdered (time e) es

-- The entry, if it has not expired.
abbrev live : ℕ → Option RateLimitEntry → Option RateLimitEntry
live t none = none
live t (some e) = if ltb e.reset_time t then none else some e

live-live : (t u : ℕ) (o : Option RateLimitEntry) → t ≤ u → live u (live t o) ≡ live u o
live-live t u none h = refl
live-live t u (some e) h = ground arith

next_entry-live :
    (now window : ℕ) (o : Option RateLimitEntry)
    → next_entry now window (live now o) ≡ next_entry now window o
unfolding next_entry
next_entry-live now window none = refl
next_entry-live now window (some e) = ground arith

includes-keys-cleanup :
    (now : ℕ) (k : String) (store : Store)
    → includes (keys store) k ≡ false
    → includes (keys (cleanup now store)) k ≡ false
unfolding cleanup
includes-keys-cleanup now k [] h = refl
includes-keys-cleanup now k ((j, e) ∷ store) h = ground (arith, includes-keys-cleanup now k store)

IsDistinct-keys-cleanup :
    (now : ℕ) (store : Store) → IsDistinct (keys store) → IsDistinct (keys (cleanup now store))
unfolding cleanup
IsDistinct-keys-cleanup now [] h = tt
IsDistinct-keys-cleanup now ((j, e) ∷ store) h =
    ground (arith, IsDistinct-keys-cleanup now store h.1, includes-keys-cleanup now j store h.0)

get-unknown : (k : String) (store : Store) → includes (keys store) k ≡ false → get k store ≡ none
unfolding get
get-unknown k [] h = refl
get-unknown k ((j, e) ∷ store) h = ground (arith, get-unknown k store)

-- Where no key stands twice, a clean-up takes away the expired entries.
get-cleanup-live :
    (now : ℕ) (k : String) (store : Store)
    → IsDistinct (keys store)
    → get k (cleanup now store) ≡ live now (get k store)
unfolding get cleanup
get-cleanup-live now k [] h = refl
get-cleanup-live now k ((j, e) ∷ store) h =
    ground (arith, get-cleanup-live now k store h.1, get-unknown j store h.0, (==_iff j k).0)

-- The stores have the same entries that have not expired.
abbrev AgreeFrom : ℕ → Store → Store → Type 0
AgreeFrom t s s' = (k : String) → live t (get k s) ≡ live t (get k s')

AgreeFrom-later : (t u : ℕ) (s s' : Store) → t ≤ u → AgreeFrom t s s' → AgreeFrom u s s'
AgreeFrom-later t u s s' h agree k =
    sym (live-live t u (get k s) h) ∙ ap (live u) (agree k) ∙ live-live t u (get k s') h

AgreeFrom-cleanup :
    (now : ℕ) (s s' : Store)
    → IsDistinct (keys s)
    → AgreeFrom now s s'
    → AgreeFrom now (cleanup now s) s'
AgreeFrom-cleanup now s s' d agree k =
    ground (arith, get-cleanup-live now k s d, live-live now now (get k s), agree k)

next_entry-agree :
    (a : Arrival) (s s' : Store)
    → AgreeFrom a.now s s'
    → next_entry a.now a.window (get a.key s) ≡ next_entry a.now a.window (get a.key s')
next_entry-agree a s s' agree =
    sym (next_entry-live a.now a.window (get a.key s))
    ∙ ap (next_entry a.now a.window) (agree a.key)
    ∙ next_entry-live a.now a.window (get a.key s')

AgreeFrom-hit :
    (a : Arrival) (s s' : Store)
    → AgreeFrom a.now s s'
    → AgreeFrom a.now (arrival_at a s).0 (arrival_at a s').0
AgreeFrom-hit a s s' agree k =
    ground (arith, get-hit a k s, get-hit a k s', next_entry-agree a s s' agree, agree k)

answer-agree :
    (a : Arrival) (s s' : Store) → AgreeFrom a.now s s' → (arrival_at a s).1 ≡ (arrival_at a s').1
unfolding hit
answer-agree a s s' agree = ap (admission a.now a.max a.message) (next_entry-agree a s s' agree)

IsDistinct-hit :
    (a : Arrival) (s : Store) → IsDistinct (keys s) → IsDistinct (keys (arrival_at a s).0)
unfolding hit
IsDistinct-hit a s d = IsDistinct-keys-put a.key (next_entry a.now a.window (get a.key s)) s d

answers-agree :
    (t : ℕ) (es : List Event) (s s' : Store)
    → IsOrdered t es
    → IsDistinct (keys s)
    → AgreeFrom t s s'
    → answers es s ≡ answers (requests_only es) s'
unfolding answers
answers-agree t [] s s' h d agree = refl
answers-agree t (clean now ∷ es) s s' h d agree =
    answers-agree now es (cleanup now s) s' h.1 (IsDistinct-keys-cleanup now s d)
      (AgreeFrom-cleanup now s s' d (AgreeFrom-later t now s s' h.0 agree))
answers-agree t (arrive a ∷ es) s s' h d agree =
    let later = AgreeFrom-later t a.now s s' h.0 agree in
    ground (
      arith,
      answer-agree a s s' later,
      answers-agree a.now es (arrival_at a s).0 (arrival_at a s').0 h.1 (IsDistinct-hit a s d)
          (AgreeFrom-hit a s s' later),
    )

-- While the clock does not run back, the requests of a run get the answers that they would get
-- without its clean-ups, from a store in which no key stands twice.
pub answers-requests_only :
    (t : ℕ) (es : List Event) (store : Store)
    → IsOrdered t es
    → IsDistinct (keys store)
    → answers es store ≡ answers (requests_only es) store
answers-requests_only t es store h d = answers-agree t es store store h d (λ k. refl)
