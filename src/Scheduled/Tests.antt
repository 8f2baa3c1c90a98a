-- ===== src/Scheduled/Tests.antt =====
-- Scheduled messages at concrete inputs, and the theorems applied there.
use native.Mathlib.Decide.{ℕ_discrete}
use backend_gateway.Base.{
  Option, ◌↔◌, ◌+◌, refuse, not_valid, ◌≤◌, String, String_discrete, none, some, List, [], ◌∷◌, ◌≡◌,
  refl, ◌==◌, string_eq, ◌⊎◌, inr, arith, count_where,
}
use backend_gateway.Scheduled.Service.{
  ScheduledMessage, ScheduleMessage, is_due, new_scheduled, schedule_message, assigned, rescheduled,
  pending, sent, cancelled, failed, change_pending, update_scheduled_message,
  cancel_scheduled_message, delete_scheduled_message, settled, process_scheduled_messages,
}
use backend_gateway.Scheduled.Once.{
  noted, Request, cancellation, processing, handle, start, run, run-chances,
}
use backend_gateway.Scheduled.Due.{
  process_scheduled_messages-is_due, process_scheduled_messages_completes,
}

program : Unit {0}
unfolding String_discrete ℕ_discrete new_scheduled schedule_message assigned rescheduled
    change_pending update_scheduled_message cancel_scheduled_message delete_scheduled_message
    settled process_scheduled_messages handle
program = tt

abbrev later : ScheduleMessage
later = record {
  sender_id = "ann";
  conversation_id = "c1";
  kind = "text";
  scheduled_at = 1000;
  content = some "hello";
  attachments = [];
  reply_to = none;
  metadata = none;
}

abbrev stored : List ScheduledMessage
stored = new_scheduled "s1" later ∷ []

abbrev sends : ScheduledMessage → String ⊎ String
sends m = inr "m1"

-- Every save goes through.
abbrev saves : ScheduledMessage → Option String
saves m = none

-- No save goes through.
abbrev refuses : ScheduledMessage → Option String
refuses m = some "no connection"

-- Only that of a message that was sent does not.
abbrev refuses_sent : ScheduledMessage → Option String
refuses_sent m = elim m.status [
  | pending ↦ none
  | sent ↦ some "no connection"
  | cancelled ↦ none
  | failed ↦ none
]

-- The first run of the scheduler that sends the message cannot save that, and sends it again.
abbrev requests : List Request
requests =
    processing 500 sends saves
    ∷ processing 1000 sends refuses
    ∷ processing 2000 sends saves
    ∷ cancellation "s1" "ann"
    ∷ processing 3000 sends saves
    ∷ []

sent_twice : (run requests (start stored)).sent_ids ≡ "s1" ∷ "s1" ∷ []
unfolding program
sent_twice = refl

stopped_once : (run requests (start stored)).stopped_at ≡ "s1" ∷ []
unfolding program
stopped_once = refl

run-chances_example :
    count_where (λ i. i == "s1") (run requests (start stored)).sent_ids
    ≤ 1 + count_where (λ i. i == "s1") (run requests (start stored)).stopped_at
unfolding program
run-chances_example =
    run-chances requests "s1" stored (tt, (tt, (tt, (tt, (tt, tt))))) (ground arith)

-- A change of the content alone is refused.
content_only :
    update_scheduled_message 10 "s1" "ann"
      (record { content = some "bye"; scheduled_at = none; attachments = none })
      stored
    ≡ (stored, refuse not_valid)
unfolding program
content_only = refl

abbrev no_ids : List String
no_ids = []

-- The message was sent, and is marked as failed.
process_scheduled_messages-is_due_example :
    count_where
      (is_due 1000)
      (process_scheduled_messages (noted sends) refuses_sent 1000 stored no_ids).0
    ≡ 0
process_scheduled_messages-is_due_example =
    process_scheduled_messages-is_due (noted sends) refuses_sent 1000 stored no_ids
      (λ d reason. refl)

process_scheduled_messages_completes_example :
    ((process_scheduled_messages (noted sends) refuses 1000 stored no_ids).2 ≡ none) ↔ (
      count_where
        (is_due 1000)
        (process_scheduled_messages (noted sends) refuses 1000 stored no_ids).0
      ≡ 0)
process_scheduled_messages_completes_example =
    process_scheduled_messages_completes (noted sends) refuses 1000 stored no_ids
