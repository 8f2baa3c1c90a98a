-- ===== src/Scheduled/Service.antt =====
-- src/modules/scheduled-messages: the schema and the service over the stored documents. What
-- `createMessage` does to the messages, and gives, is an argument: the id of the message that was
-- sent, or the reason why none was.
use backend_gateway.Base.{
  ℕ, String, Bool, true, false, Option, none, some, List, [], ◌∷◌, ◌==◌, string_eq, if◌then◌else◌,
  leb, not, ◌&&◌, ◌⊎◌, inl, inr, find, change_where, remove_where, Reply, reply, refuse, not_found,
  forbidden, not_valid,
}

pub data ScheduledStatus : Type 0 where
  pending sent cancelled failed : ScheduledStatus

pub record ScheduledMessage : Type 0 where
  pub id : String
  pub conversation_id : String
  pub sender_id : String
  pub kind : String
  pub content : Option String
  pub attachments : List String
  pub reply_to : Option String
  pub scheduled_at : ℕ
  pub status : ScheduledStatus
  pub sent_at : Option ℕ
  pub sent_message_id : Option String
  pub failure_reason : Option String
  pub metadata : Option String

-- The arguments of `scheduleMessage`.
pub record ScheduleMessage : Type 0 where
  pub sender_id : String
  pub conversation_id : String
  pub kind : String
  pub scheduled_at : ℕ
  pub content : Option String
  pub attachments : List String
  pub reply_to : Option String
  pub metadata : Option String

pub record ScheduledUpdates : Type 0 where
  pub content : Option String
  pub scheduled_at : Option ℕ
  pub attachments : Option (List String)

abbrev pub is_pending : ScheduledStatus → Bool
is_pending pending = true
is_pending _ = false

abbrev pub with_id : String → ScheduledMessage → Bool
with_id id m = m.id == id

abbrev pub is_due : ℕ → ScheduledMessage → Bool
is_due now m = is_pending m.status && leb m.scheduled_at now

unfoldable pub new_scheduled : String → ScheduleMessage → ScheduledMessage
new_scheduled id o = record {
  id = id;
  conversation_id = o.conversation_id;
  sender_id = o.sender_id;
  kind = o.kind;
  content = o.content;
  attachments = o.attachments;
  reply_to = o.reply_to;
  scheduled_at = o.scheduled_at;
  status = pending;
  sent_at = none;
  sent_message_id = none;
  failure_reason = none;
  metadata = o.metadata;
}

unfoldable pub schedule_message :
    ℕ
    → String
    → ScheduleMessage
    → List ScheduledMessage
    → List ScheduledMessage × Reply ScheduledMessage
unfolding new_scheduled
schedule_message now id o ms =
    if leb o.scheduled_at now
    then (ms, refuse (forbidden "Scheduled time must be in the future"))
    else (new_scheduled id o ∷ ms, reply (new_scheduled id o))

abbrev pub or_kept {ℓ} : {A : Type ℓ} → Option A → A → A
or_kept none a = a
or_kept (some b) a = b

abbrev is_past : ℕ → Option ℕ → Bool
is_past now none = false
is_past now (some t) = leb t now

-- `Object.assign` and the check of `save`. Content and attachments that are not given are no fields
-- of the request. The controller always passes `scheduledAt`: where none is given it is written as
-- undefined, and the schema, which requires it, refuses the document.
unfoldable pub assigned : ScheduledUpdates → ScheduledMessage → Reply ScheduledMessage
assigned u m = elim u.scheduled_at [
  | none ↦ refuse not_valid
  | some t ↦ reply (record m {
    content = elim u.content [ none ↦ m.content | some text ↦ some text ];
    scheduled_at = t;
    attachments = or_kept u.attachments m.attachments;
  })
]

-- What is stored of a message that a change gives or refuses.
abbrev pub written :
    (ScheduledMessage → Reply ScheduledMessage) → ScheduledMessage → ScheduledMessage
written f m = elim (f m) [ refuse e ↦ m | reply m' ↦ m' ]

-- The checks that a change of a pending message shares, and its save.
unfoldable pub change_pending :
    String
    → String
    → String
    → String
    → (ScheduledMessage → Reply ScheduledMessage)
    → List ScheduledMessage
    → List ScheduledMessage × Reply ScheduledMessage
change_pending own done id user f ms = elim (find (with_id id) ms) [
  | none ↦ (ms, refuse (not_found "Scheduled message not found"))
  | some m ↦
      if not (m.sender_id == user)
      then (ms, refuse (forbidden own))
      else if not (is_pending m.status)
      then (ms, refuse (forbidden done))
      else (change_where (with_id id) (written f) ms, f m)
]

unfoldable pub rescheduled : ℕ → ScheduledUpdates → ScheduledMessage → Reply ScheduledMessage
unfolding assigned
rescheduled now u m =
    if is_past now u.scheduled_at
    then refuse (forbidden "Scheduled time must be in the future")
    else assigned u m

unfoldable pub update_scheduled_message :
    ℕ
    → String
    → String
    → ScheduledUpdates
    → List ScheduledMessage
    → List ScheduledMessage × Reply ScheduledMessage
unfolding change_pending rescheduled
update_scheduled_message now id user u ms =
    change_pending "You can only edit your own scheduled messages"
      "Cannot edit a message that has already been sent or cancelled" id user (rescheduled now u) ms

abbrev pub stopped : ScheduledMessage → ScheduledMessage
stopped m = record m { status = cancelled }

unfoldable pub cancel_scheduled_message :
    String → String → List ScheduledMessage → List ScheduledMessage × Reply ScheduledMessage
unfolding change_pending
cancel_scheduled_message id user ms =
    change_pending "You can only cancel your own scheduled messages"
      "Cannot cancel a message that has already been sent or cancelled" id user
      (λ m. reply (stopped m)) ms

unfoldable pub delete_scheduled_message :
    String → String → List ScheduledMessage → List ScheduledMessage × Reply (Unit {0})
delete_scheduled_message id user ms = elim (find (with_id id) ms) [
  | none ↦ (ms, refuse (not_found "Scheduled message not found"))
  | some m ↦
      if not (m.sender_id == user)
      then (ms, refuse (forbidden "You can only delete your own scheduled messages"))
      else (remove_where (with_id id) ms, reply tt)
]

abbrev pub failed_with : String → ScheduledMessage → ScheduledMessage
failed_with reason m = record m { status = failed; failure_reason = some reason }

abbrev pub sent_as : ℕ → String → ScheduledMessage → ScheduledMessage
sent_as now id m = record m { status = sent; sent_at = some now; sent_message_id = some id }

-- The save in the `catch`: what is stored, and whether it throws.
abbrev save_failed :
    (ScheduledMessage → Option String)
    → ScheduledMessage
    → ScheduledMessage
    → ScheduledMessage × Bool
save_failed save m failure = elim (save failure) [ none ↦ (failure, false) | some e ↦ (m, true) ]

-- What is stored of a message after the try to send it, and whether the save in the `catch` throws.
-- A save that fails after the message was sent leads into the `catch` too. `save` gives the message
-- of the error with which the driver refuses to save a document, or none.
unfoldable pub settled :
    (ScheduledMessage → Option String)
    → ℕ
    → String ⊎ String
    → ScheduledMessage
    → ScheduledMessage × Bool
settled save now (inl reason) m = save_failed save m (failed_with reason m)
settled save now (inr id) m = elim (save (sent_as now id m)) [
  | none ↦ (sent_as now id m, false)
  | some e ↦ save_failed save m (failed_with e (sent_as now id m))
]

-- The loop over the messages that are due, with the clock read once. Where the save in the `catch`
-- throws, the loop stops at that message, which is given last, and the rest is left as it was.
unfoldable pub process_scheduled_messages :
    {M : Type 0}
    → (ScheduledMessage → M → M × (String ⊎ String))
    → (ScheduledMessage → Option String)
    → ℕ
    → List ScheduledMessage
    → M
    → List ScheduledMessage × M × Option ScheduledMessage
unfolding settled
process_scheduled_messages send save now [] s = ([], s, none)
process_scheduled_messages send save now (m ∷ ms) s =
    let (s1, outcome) = send m s in
    let (m', throws) = settled save now outcome m in
    let (rest, s2, last) =
      process_scheduled_messages send save now ms (if is_due now m then s1 else s) in
    if not (is_due now m)
    then (m ∷ rest, s2, last)
    else if throws
    then (m' ∷ ms, s1, some m)
    else (m' ∷ rest, s2, last)
