-- ===== src/Conversations/Pins.antt =====
-- Pinned messages and timers (src/modules/conversations/conversations.service.ts).
use backend_gateway.Base.{
  ℕ, ◌≤◌, String, Bool, true, false, some, List, [], ◌∷◌, ◌≡◌, refl, subst, ◌==◌, string_eq, nat_eq,
  includes, filter, not, leb, length, length-append, Reply, reply, refuse, require, Exception,
  ◌>>=◌, arith, inl, inr, Bool-cases, Option-cases, ==_iff, ne_of_test,
}
use backend_gateway.Conversations.Document.{
  Conversation, Updates, Change, add_to_participants, pull_participant, set_last_message, set_read,
  set_muted, increment_unread, set_fields, add_to_pinned, pull_pinned, set_timer, IsElsewhere,
  Driver,
}
use backend_gateway.Conversations.Service.{
  is_participant, max_pinned, valid_timers, find_by_id, commit, if_allowed, add_participants,
  remove_participant, update_last_message, mark_as_read, toggle_mute, increment_unread_count,
  update_conversation, delete_conversation, member_allowed, pin_unless_pinned, pin_message,
  unpin_message, set_disappearing_messages_timer,
}

-- The requests that change stored conversations, with their arguments.
pub data Request : Type 0 where
  pin unpin kick : String → String → String → Request
  set_time : String → String → ℕ → Request
  add : String → String → List String → Request
  modify : String → String → Updates → Request
  erase : String → String → Request
  read : String → String → String → Request
  mute : String → String → Bool → Request
  unread : String → List String → Request
  last : String → String → Request

-- A change of fields that gives neither pinned messages nor a timer.
abbrev pub IsPlain : Request → Type 0
IsPlain (modify id user u) = IsElsewhere (set_fields u)
IsPlain _ = Unit

length-filter : (m : String) (xs : List String) → length (filter (λ x. not (x == m)) xs) ≤ length xs
length-filter m [] = omega arith
length-filter m (x ∷ xs) = ground (arith, length-filter m xs)

pub includes-filter :
    (m : String) (xs : List String) → includes (filter (λ x. not (x == m)) xs) m ≡ false
includes-filter m [] = refl
includes-filter m (x ∷ xs) = ground (arith, includes-filter m xs)

required {ℓ} :
    {A : Type ℓ} (r : Reply A) (b : Bool) (e : Exception) (u : Unit {0})
    → (r >>= λ _. require b e) ≡ reply u
    → b ≡ true
required (refuse x) b e u h = ground arith
required (reply a) true e u h = refl
required (reply a) false e u h = ground arith

abbrev pub IsBounded : Conversation → Type 0
IsBounded c =
    (length c.pinned_messages ≤ 10) × (includes valid_timers c.disappearing_messages_timer ≡ true)

module _ {S : Type 0} (d : Driver S) where
  abbrev pub run : Request → S → S
  run (pin id user m) s = (pin_message d id user m s).0
  run (unpin id user m) s = (unpin_message d id user m s).0
  run (kick id admin user) s = (remove_participant d id admin user s).0
  run (set_time id user t) s = (set_disappearing_messages_timer d id user t s).0
  run (add id user ids) s = (add_participants d id user ids s).0
  run (modify id user u) s = (update_conversation d id user u s).0
  run (erase id user) s = (delete_conversation d id user s).0
  run (read id user m) s = mark_as_read d id user m s
  run (mute id user b) s = toggle_mute d id user b s
  run (unread id users) s = increment_unread_count d id users s
  run (last id m) s = update_last_message d id m s

  abbrev pub AllBounded : S → Type 0
  AllBounded s = (id : String) (c : Conversation) → d.find_by_id id s ≡ some c → IsBounded c

  update-AllBounded :
      (id : String) (ch : Change) (s : S)
      → AllBounded s
      → ((c : Conversation) → d.find_by_id id s ≡ some c → IsBounded (d.apply ch c))
      → AllBounded (d.update id ch s)
  update-AllBounded id ch s h f k c e = elim (Bool-cases (k == id)) [
    | inl g ↦ elim (Option-cases (d.find_by_id id s)) [
      | inl q ↦ absurd (ground (arith, d.find_update_none id ch s q, (==_iff k id).0 g))
      | inr (b, q) ↦
          let same : d.apply ch b ≡ c =
            ground (arith, d.find_update_same id ch s b q, (==_iff k id).0 g) in
          subst IsBounded same (f b q)
    ]
    | inr g ↦ h k c (ground (arith, d.find_update_other id k ch s (ne_of_test k id g)))
  ]

  remove-AllBounded : (id : String) (s : S) → AllBounded s → AllBounded (d.remove id s)
  remove-AllBounded id s h k c e = elim (Bool-cases (k == id)) [
    | inl g ↦ absurd (ground (arith, d.find_remove_same id s, (==_iff k id).0 g))
    | inr g ↦ h k c (ground (arith, d.find_remove_other id k s (ne_of_test k id g)))
  ]

  elsewhere-AllBounded :
      (id : String) (ch : Change) (s : S)
      → IsElsewhere ch
      → AllBounded s
      → AllBounded (d.update id ch s)
  elsewhere-AllBounded id ch s p h = update-AllBounded id ch s h (λ c e.
      let b = h id c e in
      let (pins, timer) = d.elsewhere_keeps ch c p in (rw pins b.0, rw timer b.1))

  pinned-IsBounded :
      (m : String) (c : Conversation)
      → IsBounded c
      → leb max_pinned (length c.pinned_messages) ≡ false
      → IsBounded (d.apply (add_to_pinned m) c)
  pinned-IsBounded m c b h = (
    ground (arith, d.add_to_pinned_law m c, length-append c.pinned_messages (m ∷ [])),
    rw (d.pins_keep_timer m c).0 b.1,
  )

  unpinned-IsBounded :
      (m : String) (c : Conversation) → IsBounded c → IsBounded (d.apply (pull_pinned m) c)
  unpinned-IsBounded m c b = (
    ground (arith, d.pull_pinned_law m c, length-filter m c.pinned_messages),
    rw (d.pins_keep_timer m c).1 b.1,
  )

  timed-IsBounded :
      (t : ℕ) (c : Conversation)
      → IsBounded c
      → includes valid_timers t ≡ true
      → IsBounded (d.apply (set_timer t) c)
  timed-IsBounded t c b h = (rw (d.timer_keeps_pins t c) b.0, rw (d.set_timer_law t c) h)

  if_allowed-AllBounded {ℓ κ} :
      {A : Type ℓ} {B : Type κ} (r : Reply A) (s : S) (f : A → S × Reply B)
      → AllBounded s
      → ((a : A) → r ≡ reply a → AllBounded (f a).0)
      → AllBounded (if_allowed d r s f).0
  if_allowed-AllBounded (refuse e) s f h g = h
  if_allowed-AllBounded (reply a) s f h g = g a refl

  commit-AllBounded :
      (id : String) (ch : Change) (s : S)
      → AllBounded (d.update id ch s)
      → AllBounded (commit d id ch s).0
  unfolding commit
  commit-AllBounded id ch s h = h

  pub member_allowed-found :
      (id user text : String) (s : S) (c : Conversation)
      → member_allowed d id user text s ≡ reply c
      → (d.find_by_id id s ≡ some c) × (is_participant user c ≡ true)
  unfolding member_allowed find_by_id
  member_allowed-found id user text s c h = elim (Option-cases (d.find_by_id id s)) [
    | inl e ↦ ground (arith, e)
    | inr (b, e) ↦ ground (arith, e)
  ]

  pin_unless_pinned-AllBounded :
      (id m : String) (s : S) (c : Conversation)
      → AllBounded s
      → d.find_by_id id s ≡ some c
      → AllBounded (pin_unless_pinned d id m s c).0
  unfolding pin_unless_pinned
  pin_unless_pinned-AllBounded id m s c h e = elim (Bool-cases (includes c.pinned_messages m)) [
    | inl p ↦ rw (p, pin_unless_pinned) h
    | inr p ↦
        rw (p, pin_unless_pinned)
          (if_allowed-AllBounded _ s (λ _. commit d id (add_to_pinned m) s) h
            (λ u q. commit-AllBounded id (add_to_pinned m) s (
              update-AllBounded id (add_to_pinned m) s h
                (λ b k. pinned-IsBounded m b (h id b k) (ground arith)))))
  ]

  pin_message-AllBounded :
      (id user m : String) (s : S) → AllBounded s → AllBounded (pin_message d id user m s).0
  unfolding pin_message
  pin_message-AllBounded id user m s h =
      if_allowed-AllBounded _ s (pin_unless_pinned d id m s) h
        (λ c e. pin_unless_pinned-AllBounded id m s c h (member_allowed-found id user _ s c e).0)

  unpin_message-AllBounded :
      (id user m : String) (s : S) → AllBounded s → AllBounded (unpin_message d id user m s).0
  unfolding unpin_message
  unpin_message-AllBounded id user m s h =
      if_allowed-AllBounded _ s (λ c. commit d id (pull_pinned m) s) h
        (λ c e.
          commit-AllBounded id (pull_pinned m) s
            (update-AllBounded id (pull_pinned m) s h (λ b k. unpinned-IsBounded m b (h id b k))))

  timer-AllBounded :
      (id user : String) (t : ℕ) (s : S)
      → AllBounded s
      → AllBounded (set_disappearing_messages_timer d id user t s).0
  unfolding set_disappearing_messages_timer
  timer-AllBounded id user t s h =
      if_allowed-AllBounded _ s (λ _. commit d id (set_timer t) s) h
        (λ c e. commit-AllBounded id (set_timer t) s (
          update-AllBounded id (set_timer t) s h
            (λ b k. timed-IsBounded t b (h id b k) (required _ (includes valid_timers t) _ c e))))

  guarded-AllBounded {ℓ} :
      {A : Type ℓ} (r : Reply A) (id : String) (ch : Change) (s : S)
      → IsElsewhere ch
      → AllBounded s
      → AllBounded (if_allowed d r s (λ _. commit d id ch s)).0
  guarded-AllBounded r id ch s p h =
      if_allowed-AllBounded r s (λ _. commit d id ch s) h
        (λ a e. commit-AllBounded id ch s (elsewhere-AllBounded id ch s p h))

  -- No request takes a stored conversation beyond 10 pinned messages or to a timer that is none of the
  -- four, if all are within these and a change of fields does not give pinned messages or a timer.
  pub run-AllBounded : (r : Request) (s : S) → IsPlain r → AllBounded s → AllBounded (run r s)
  unfolding add_participants remove_participant update_conversation delete_conversation
  run-AllBounded (pin id user m) s p h = pin_message-AllBounded id user m s h
  run-AllBounded (unpin id user m) s p h = unpin_message-AllBounded id user m s h
  run-AllBounded (kick id admin user) s p h = guarded-AllBounded _ id (pull_participant user) s tt h
  run-AllBounded (set_time id user t) s p h = timer-AllBounded id user t s h
  run-AllBounded (add id user ids) s p h = guarded-AllBounded _ id (add_to_participants ids) s tt h
  run-AllBounded (modify id user u) s p h = guarded-AllBounded _ id (set_fields u) s p h
  run-AllBounded (erase id user) s p h =
      if_allowed-AllBounded _ s (λ _. (d.remove id s, reply tt)) h (λ a e. remove-AllBounded id s h)
  run-AllBounded (read id user m) s p h = elsewhere-AllBounded id (set_read user m) s tt h
  run-AllBounded (mute id user b) s p h = elsewhere-AllBounded id (set_muted user b) s tt h
  run-AllBounded (unread id users) s p h = elsewhere-AllBounded id (increment_unread users) s tt h
  run-AllBounded (last id m) s p h = elsewhere-AllBounded id (set_last_message m) s tt h
