-- ===== src/Calls/Service.antt =====
-- src/modules/calls/calls.service.ts. A method takes the document that the driver finds, or `none`,
-- and gives the one that it saves. Whether a text is an ObjectId (`isValidObjectId`) is asked of
-- `is_object_id`, and numbers are printed by `print`.
use Prim.Native.String.{◌++◌ as ◌<>◌}
use backend_gateway.Base.{
  ℕ, ◌-◌, ◌/◌, ◌%◌, String, Bool, true, false, Option, none, some, List, [], ◌∷◌, ◌++◌, ◌==◌,
  string_eq, if◌then◌else◌, includes, filter, map, not, ◌||◌, ltb, Reply, reply, not_found,
  existing, ◌>>=◌,
}
use backend_gateway.Webrtc.State.{CallType, audio, video}
use backend_gateway.Calls.Document.{
  CallStatus, ongoing, completed, missed, rejected, failed, CallParticipant, Call, CreateCall,
  UpdateCall, EndMessage, Updated, is_final,
}

-- The loop over `participantIds`; `joined` is what the schema's default gives for `joinedAt`.
unfoldable pub other_participants : Option ℕ → String → List String → List CallParticipant
other_participants joined user [] = []
other_participants joined user (p ∷ ps) =
    if p == user
    then other_participants joined user ps
    else (record { user_id = p; joined_at = joined; left_at = none; is_initiator = false })
      ∷ other_participants joined user ps

abbrev pub ids_or_none : Option (List String) → List String
ids_or_none none = []
ids_or_none (some ids) = ids

abbrev or_false : Option Bool → Bool
or_false none = false
or_false (some b) = b

unfoldable pub create : ℕ → Option ℕ → String → CreateCall → Call
unfolding other_participants
create now joined user dto = record {
  conversation_id = dto.conversation_id;
  initiator_id = user;
  call_type = dto.call_type;
  status = ongoing;
  participants =
      (record { user_id = user; joined_at = some now; left_at = none; is_initiator = true })
      ∷ other_participants joined user (ids_or_none dto.participant_ids);
  started_at = some now;
  ended_at = none;
  duration = 0;
  is_group_call = or_false dto.is_group_call;
}

abbrev type_name : CallType → String
type_name video = "Video"
type_name audio = "Voice"

abbrev lower_name : CallType → String
lower_name video = "video"
lower_name audio = "voice"

unfoldable pub duration_text : (ℕ → String) → ℕ → String
duration_text print d =
    if ltb 0 (d / 60)
    then print (d / 60) <> ("m " <> (print (d % 60) <> "s"))
    else print (d % 60) <> "s"

unfoldable pub end_content : (ℕ → String) → Call → String
unfolding duration_text
end_content print call = elim call.status [
  | completed ↦ type_name call.call_type <> (" call • " <> duration_text print call.duration)
  | missed ↦ "Missed " <> (lower_name call.call_type <> " call")
  | rejected ↦ type_name call.call_type <> " call declined"
  | failed ↦ type_name call.call_type <> " call failed"
  | ongoing ↦ type_name call.call_type <> " call ended"
]

-- Nothing is sent for a call without a conversation. A failure to send is caught.
unfoldable pub create_call_end_message : (ℕ → String) → Call → Option EndMessage
create_call_end_message print call = elim call.conversation_id [
  | none ↦ none
  | some id ↦ some (record {
    conversation_id = id;
    sender_id = call.initiator_id;
    content = end_content print call;
    status = call.status;
    duration = call.duration;
  })
]

-- Whole seconds since the start; the duration stays where the start is not known.
abbrev pub elapsed : ℕ → Option ℕ → ℕ → ℕ
elapsed now none duration = duration
elapsed now (some start) duration = (now - start) / 1000

-- `if (updateCallDto.status) { … }`
unfoldable pub set_status : (ℕ → String) → ℕ → Option CallStatus → Call → Updated
unfolding create_call_end_message
set_status print now none call = record { call = call; message = none }
set_status print now (some status) call =
    let marked = record call { status = status } in
    let closed = record marked {
      ended_at = some now;
      duration = elapsed now call.started_at call.duration;
    } in
    if is_final status
    then record { call = closed; message = create_call_end_message print closed }
    else record { call = marked; message = none }

abbrev set_duration : Option ℕ → Call → Call
set_duration none call = call
set_duration (some d) call = record call { duration = d }

-- A text that is no ObjectId is skipped: nothing is saved.
unfoldable pub update :
    (String → Bool) → (ℕ → String) → ℕ → String → Option Call → UpdateCall → Reply (Option Updated)
unfolding set_status
update is_object_id print now id found dto =
    if is_object_id id
    then (do
      call ← existing found (not_found "Call not found")
      let changed = set_status print now dto.status call
      reply (some (record changed { call = set_duration dto.duration changed.call })))
    else reply none

-- `participants.find(…)`, changed in place.
unfoldable pub change_first :
    String → (CallParticipant → CallParticipant) → List CallParticipant → List CallParticipant
change_first user f [] = []
change_first user f (p ∷ ps) = if p.user_id == user then f p ∷ ps else p ∷ change_first user f ps

unfoldable pub mark_joined : ℕ → CallParticipant → CallParticipant
mark_joined now p = elim p.joined_at [ none ↦ record p { joined_at = some now } | some _ ↦ p ]

unfoldable pub join_call : (String → Bool) → ℕ → String → Option Call → String → Reply (Option Call)
unfolding change_first mark_joined
join_call is_object_id now id found user =
    if is_object_id id
    then (do
      call ← existing found (not_found "Call not found")
      reply (
          some
            (record call { participants = change_first user (mark_joined now) call.participants })))
    else reply none

unfoldable pub mark_left : ℕ → CallParticipant → CallParticipant
mark_left now p = record p { left_at = some now }

unfoldable pub leave_call :
    (String → Bool) → ℕ → String → Option Call → String → Reply (Option Call)
unfolding change_first mark_left
leave_call is_object_id now id found user =
    if is_object_id id
    then (do
      call ← existing found (not_found "Call not found")
      reply (
          some
            (record call { participants = change_first user (mark_left now) call.participants })))
    else reply none

abbrev pub users : List CallParticipant → List String
users ps = map (λ p. p.user_id) ps

abbrev pub invitee : ℕ → String → CallParticipant
invitee now u = record { user_id = u; joined_at = some now; left_at = none; is_initiator = false }

abbrev pub new_users : List CallParticipant → List String → List String
new_users ps ids = filter (λ u. not (includes (users ps) u)) ids

-- The call that is saved, and the ids that were invited.
unfoldable pub invite_to_call : ℕ → Option Call → List String → Reply (Call × List String)
invite_to_call now found ids = do
  call ← existing found (not_found "Call not found")
  let invited = new_users call.participants ids
  reply (record call { participants = call.participants ++ map (invitee now) invited }, invited)

abbrev pub involves : String → Call → Bool
involves user call = call.initiator_id == user || includes (users call.participants) user

-- `findAll`, before the sort by creation: the calls that a user started or took part in.
unfoldable pub find_all : String → List Call → List Call
find_all user calls = filter (involves user) calls

unfoldable pub delete_call_history : String → List Call → List Call
delete_call_history user calls = filter (λ c. not (involves user c)) calls
