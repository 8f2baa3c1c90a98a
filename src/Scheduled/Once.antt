-- ===== src/Scheduled/Once.antt =====
-- How often a scheduled message is sent (src/modules/scheduled-messages).
use backend_gateway.Base.{
  Option, none, some, Reply, reply, ℕ, ◌+◌, ◌≤◌, String, Bool, true, false, List, [], ◌∷◌, ◌≡◌, ◌≢◌,
  refl, ◌==◌, string_eq, if◌then◌else◌, ◌&&◌, ◌⊎◌, inl, inr, All, arith, Option-cases, find,
  remove_where, count_where, count-change_where,
}
use backend_gateway.Scheduled.Service.{
  ScheduledMessage, ScheduleMessage, ScheduledUpdates, is_pending, with_id, is_due, new_scheduled,
  schedule_message, assigned, change_pending, update_scheduled_message, stopped, rescheduled,
  written, cancel_scheduled_message, delete_scheduled_message, settled, process_scheduled_messages,
}

-- A sender that notes the ids that it sent, the last first.
abbrev pub noted :
    (ScheduledMessage → String ⊎ String)
    → ScheduledMessage
    → List String
    → List String × (String ⊎ String)
noted outcome m log = elim (outcome m) [
  | inl reason ↦ (log, inl reason)
  | inr id ↦ (m.id ∷ log, inr id)
]

pub data Request : Type 0 where
  scheduling : (now : ℕ) (id : String) → ScheduleMessage → Request
  update : (now : ℕ) (id user : String) → ScheduledUpdates → Request
  cancellation : (id user : String) → Request
  deletion : (id user : String) → Request
  processing :
      (now : ℕ)
      → (ScheduledMessage → String ⊎ String)
      → (ScheduledMessage → Option String)
      → Request

-- The stored messages, the ids of those that were sent, and the ids of those at which a run of the
-- scheduler stopped.
pub record State : Type 0 where
  pub messages : List ScheduledMessage
  pub sent_ids : List String
  pub stopped_at : List String

abbrev pub start : List ScheduledMessage → State
start ms = record { messages = ms; sent_ids = []; stopped_at = [] }

abbrev stops : Option ScheduledMessage → List String → List String
stops none ids = ids
stops (some m) ids = m.id ∷ ids

unfoldable pub handle : Request → State → State
handle (scheduling now id o) s = record s { messages = (schedule_message now id o s.messages).0 }
handle (update now id user u) s = record s {
  messages = (update_scheduled_message now id user u s.messages).0;
}
handle (cancellation id user) s = record s {
  messages = (cancel_scheduled_message id user s.messages).0;
}
handle (deletion id user) s = record s {
  messages = (delete_scheduled_message id user s.messages).0;
}
handle (processing now outcome save) s =
    let (ms, sent_ids, last) =
      process_scheduled_messages (noted outcome) save now s.messages s.sent_ids in
    record { messages = ms; sent_ids = sent_ids; stopped_at = stops last s.stopped_at }

abbrev pub run : List Request → State → State
run [] s = s
run (r ∷ rs) s = run rs (handle r s)

abbrev pub waits : String → ScheduledMessage → Bool
waits id m = with_id id m && is_pending m.status

-- How often a message was sent, or will be.
abbrev pub chances : String → List ScheduledMessage → List String → ℕ
chances id ms log = count_where (waits id) ms + count_where (λ i. i == id) log

-- A request that schedules no message with the id.
abbrev pub IsOther : String → Request → Type 0
IsOther id (scheduling now new o) = new ≢ id
IsOther id r = Unit

outcome-cases : (r : String ⊎ String) → ((e : String) × (r ≡ inl e)) ⊎ ((i : String) × (r ≡ inr i))
outcome-cases (inl e) = inl (e, refl)
outcome-cases (inr i) = inr (i, refl)

abbrev outcome_stops : String → Option ScheduledMessage → ℕ
outcome_stops id last = count_where (λ i. i == id) (stops last [])

-- A message of which neither the sending nor the failure is saved waits on; any other does not.
settled-waits :
    (save : ScheduledMessage → Option String) (now : ℕ) (r : String ⊎ String) (id : String)
    (m : ScheduledMessage)
    → ((settled save now r m).1 ≡ true → waits id (settled save now r m).0 ≡ waits id m)
      × ((settled save now r m).1 ≡ false → waits id (settled save now r m).0 ≡ false)
unfolding settled
settled-waits save now (inl e) id m = (λ h. ground arith, λ h. ground arith)
settled-waits save now (inr i) id m = (λ h. ground arith, λ h. ground arith)

noted-count :
    (outcome : ScheduledMessage → String ⊎ String) (id : String) (m : ScheduledMessage)
    (log : List String)
    → count_where (λ i. i == id) (noted outcome m log).0
      ≤ count_where (λ i. i == id) log + (if m.id == id then 1 else 0)
noted-count outcome id m log = elim (outcome-cases (outcome m)) [
  | inl (e, h) ↦ rw (h, noted) (omega arith)
  | inr (i, h) ↦ rw (h, noted) (ground arith)
]

process-chances :
    (outcome : ScheduledMessage → String ⊎ String) (save : ScheduledMessage → Option String)
    (now : ℕ) (id : String) (ms : List ScheduledMessage) (log : List String)
    → let (ms', log', last) = process_scheduled_messages (noted outcome) save now ms log in
      chances id ms' log' ≤ chances id ms log + outcome_stops id last
unfolding process_scheduled_messages
process-chances outcome save now id [] log = omega arith
process-chances outcome save now id (m ∷ ms) log =
    let (log1, r) = noted outcome m log in
    let next = process-chances outcome save now id ms (if is_due now m then log1 else log) in
    let (kept, gone) = settled-waits save now r id m in
    let one = noted-count outcome id m log in ground (arith, next, kept, gone, one)

count-remove_where :
    (p q : ScheduledMessage → Bool) (ms : List ScheduledMessage)
    → count_where p (remove_where q ms) ≤ count_where p ms
count-remove_where p q [] = omega arith
count-remove_where p q (m ∷ ms) = ground (arith, count-remove_where p q ms)

change_pending-chances :
    (own done id user k : String) (f : ScheduledMessage → Reply ScheduledMessage)
    (ms : List ScheduledMessage)
    → ((m : ScheduledMessage) → waits k (written f m) ≡ true → waits k m ≡ true)
    → count_where (waits k) (change_pending own done id user f ms).0 ≤ count_where (waits k) ms
unfolding change_pending
change_pending-chances own done id user k f ms h =
    let less = count-change_where (waits k) (with_id id) (written f) ms (λ m i j. h m j) in
    elim (Option-cases (find (with_id id) ms)) [
      | inl e ↦ rw (e, change_pending) (omega arith)
      | inr (m, e) ↦ rw (e, change_pending) (ground (arith, less))
    ]

cancel-chances :
    (id user k : String) (ms : List ScheduledMessage)
    → count_where (waits k) (cancel_scheduled_message id user ms).0 ≤ count_where (waits k) ms
unfolding cancel_scheduled_message
cancel-chances id user k ms =
    change_pending-chances "You can only cancel your own scheduled messages"
      "Cannot cancel a message that has already been sent or cancelled" id user k
      (λ m. reply (stopped m)) ms (λ m i. ground arith)

rescheduled-waits :
    (now : ℕ) (k : String) (u : ScheduledUpdates) (m : ScheduledMessage)
    → waits k (written (rescheduled now u) m) ≡ true
    → waits k m ≡ true
unfolding rescheduled assigned
rescheduled-waits now k u m h = elim (Option-cases u.scheduled_at) [
  | inl e ↦ ground (arith, e)
  | inr (t, e) ↦ ground (arith, e)
]

update-chances :
    (now : ℕ) (id user k : String) (u : ScheduledUpdates) (ms : List ScheduledMessage)
    → count_where (waits k) (update_scheduled_message now id user u ms).0 ≤ count_where (waits k) ms
unfolding update_scheduled_message
update-chances now id user k u ms =
    change_pending-chances "You can only edit your own scheduled messages"
      "Cannot edit a message that has already been sent or cancelled" id user k (rescheduled now u)
      ms (rescheduled-waits now k u)

delete-chances :
    (id user k : String) (ms : List ScheduledMessage)
    → count_where (waits k) (delete_scheduled_message id user ms).0 ≤ count_where (waits k) ms
unfolding delete_scheduled_message
delete-chances id user k ms =
    let less = count-remove_where (waits k) (with_id id) ms in ground (arith, less)

abbrev stuck : String → State → ℕ
stuck id s = count_where (λ i. i == id) s.stopped_at

stuck-stops :
    (id : String) (last : Option ScheduledMessage) (ids : List String)
    → count_where (λ i. i == id) (stops last ids)
      ≡ outcome_stops id last + count_where (λ i. i == id) ids
stuck-stops id none ids = omega arith
stuck-stops id (some m) ids = ground arith

handle-chances :
    (r : Request) (id : String) (s : State)
    → IsOther id r
    → chances id (handle r s).messages (handle r s).sent_ids + stuck id s
      ≤ chances id s.messages s.sent_ids + stuck id (handle r s)
unfolding handle schedule_message new_scheduled
handle-chances (scheduling now new o) id s h = ground arith
handle-chances (update now new user u) id s h =
    (let less = update-chances now new user id u s.messages in omega (arith, less))
handle-chances (cancellation new user) id s h =
    let less = cancel-chances new user id s.messages in omega (arith, less)
handle-chances (deletion new user) id s h =
    (let less = delete-chances new user id s.messages in omega (arith, less))
handle-chances (processing now outcome save) id s h =
    let (ms, log, last) =
      process_scheduled_messages (noted outcome) save now s.messages s.sent_ids in
    let less = process-chances outcome save now id s.messages s.sent_ids in
    let more = stuck-stops id last s.stopped_at in omega (arith, less, more)

run-bound :
    (rs : List Request) (id : String) (s : State)
    → All (IsOther id) rs
    → count_where (λ i. i == id) (run rs s).sent_ids + stuck id s
      ≤ chances id s.messages s.sent_ids + stuck id (run rs s)
run-bound [] id s h = omega arith
run-bound (r ∷ rs) id s (other, h) =
    let less = handle-chances r id s other in
    let rest = run-bound rs id (handle r s) h in omega (arith, less, rest)

-- A message that was scheduled is sent at most once, and once more for each run of the scheduler
-- that stopped at it because it could be saved neither as sent nor as failed, whatever requests are
-- served, one after the other, as long as no other is scheduled with its id.
pub run-chances :
    (rs : List Request) (id : String) (ms : List ScheduledMessage)
    → All (IsOther id) rs
    → count_where (waits id) ms ≤ 1
    → count_where (λ i. i == id) (run rs (start ms)).sent_ids
      ≤ 1 + count_where (λ i. i == id) (run rs (start ms)).stopped_at
run-chances rs id ms h k = let less = run-bound rs id (start ms) h in omega (arith, less, k)
