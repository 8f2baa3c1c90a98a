-- ===== src/Webrtc/Calls.antt =====
-- src/gateways/webrtc.gateway.ts: the handlers of `call:initiate`, `call:answer`, `call:reject`
-- and `call:end`, and `sendCallInvitation`. Each runs to its end before the next one starts.
use backend_gateway.Base.{
  ℕ, ◌-◌, ◌/◌, String, true, false, Option, none, some, List, [], ◌∷◌, ◌++◌, ◌==◌, string_eq,
  if◌then◌else◌, get, put, delete, Answer, ok, thrown, includes,
}
use backend_gateway.Webrtc.State.{
  CallType, audio, ringing, active, CallSession, Gateway, Client, Incoming, incoming,
  participant_joined, rejected, ended_by, completed, missed, declined, Effect, to_socket, to_room,
  to_client, join, push, create_call, join_call, update_call, Response, initiated, answered,
  success, failure, User, Recipient, Services, IceConfig, present, is_ringing, socket_of,
  get_ice_servers, StoredStatus,
}

-- The body of `call:initiate`.
pub record CallRequest : Type 0 where
  pub conversation_id : String
  pub participants : List String
  pub call_type : CallType

-- The loop that tells the participants that are connected.
unfoldable pub announce : Gateway → Incoming → List String → List Effect
announce g i [] = []
announce g i (p ∷ ps) = elim (socket_of g p) [
  | none ↦ announce g i ps
  | some socket ↦ to_socket socket (incoming i) ∷ announce g i ps
]

-- The push notifications, one for each participant that has tokens.
unfoldable pub notify : String → CallRequest → String → List Recipient → List Effect
notify caller req call_id [] = []
notify caller req call_id (r ∷ rs) = elim r.fcm_tokens [
  | [] ↦ notify caller req call_id rs
  | t ∷ ts ↦
      push (t ∷ ts) caller req.call_type req.conversation_id call_id ∷ notify caller req call_id rs
]

unfoldable pub notify_all : Services → String → CallRequest → String → List Effect
unfolding notify
notify_all s caller req call_id = elim (s.get_users_by_ids req.participants) [
  | ok rs ↦ notify caller req call_id rs
  | thrown _ ↦ []
]

-- `dbCallId`, left undefined where `create` throws.
abbrev pub stored_id : Answer String → Option String
stored_id (ok id) = some id
stored_id (thrown _) = none

unfoldable pub new_session : Services → ℕ → String → Client → CallRequest → CallSession
new_session s now call_id client req = record {
  call_id = call_id;
  db_call_id =
      stored_id (s.create client.user_id req.conversation_id req.call_type req.participants);
  conversation_id = req.conversation_id;
  initiator = client.user_id;
  participants = client.user_id ∷ req.participants;
  call_type = req.call_type;
  start_time = now;
  status = ringing;
}

abbrev pub initial_incoming : String → Client → CallRequest → User → Incoming
initial_incoming call_id client req caller = record {
  call_id = call_id;
  call_type = req.call_type;
  conversation_id = req.conversation_id;
  from_id = client.user_id;
  display_name = caller.display_name;
  avatar = caller.avatar;
  is_invite = false;
}

-- `call_id` is the id drawn from the clock and from random bytes.
unfoldable pub handle_call_initiate :
    Services
    → IceConfig
    → ℕ
    → String
    → Client
    → CallRequest
    → Gateway
    → Gateway × List Effect × Response
unfolding new_session announce notify_all
handle_call_initiate s c now call_id client req g =
    let g' = record g {
      active_calls = put call_id (new_session s now call_id client req) g.active_calls;
    } in
    let create = create_call client.user_id req.conversation_id req.call_type req.participants in
    elim (s.find_by_id client.user_id) [
      | thrown e ↦ (g', create ∷ [], failure e)
      | ok caller ↦ (
        g',
        create
            ∷ (announce g' (initial_incoming call_id client req caller) req.participants
                ++ (notify_all s caller.display_name req call_id ++ join client.id call_id ∷ [])),
        initiated call_id (get_ice_servers c),
      )
    ]

-- The minimal session that an answer to an unknown call creates.
unfoldable pub recovered_session : ℕ → String → Client → CallSession
recovered_session now call_id client = record {
  call_id = call_id;
  db_call_id = none;
  conversation_id = "";
  initiator = "";
  participants = client.user_id ∷ [];
  call_type = audio;
  start_time = now;
  status = active;
}

abbrev pub session_or : Option CallSession → CallSession → CallSession
session_or none d = d
session_or (some c) d = c

abbrev pub join_stored : Option String → String → List Effect
join_stored none user = []
join_stored (some id) user = join_call id user ∷ []

unfoldable pub handle_call_answer :
    IceConfig → ℕ → Client → String → Gateway → Gateway × List Effect × Response
unfolding recovered_session
handle_call_answer c now client call_id g =
    let call = session_or (get call_id g.active_calls) (recovered_session now call_id client) in
    (
      record g { active_calls = put call_id (record call { status = active }) g.active_calls },
      join client.id call_id
          ∷ to_room call_id (participant_joined call_id client.user_id)
          ∷ join_stored (present call.db_call_id) client.user_id,
      answered call_id (get_ice_servers c) call.participants,
    )

abbrev pub update_stored : Option String → StoredStatus → Option ℕ → List Effect
update_stored none status duration = []
update_stored (some id) status duration = update_call id status duration ∷ []

unfoldable pub handle_call_reject : Client → String → Gateway → Gateway × List Effect × Response
handle_call_reject client call_id g = elim (get call_id g.active_calls) [
  | none ↦ (g, [], failure "Call not found")
  | some call ↦ (
    record g { active_calls = delete call_id g.active_calls },
    update_stored (present call.db_call_id) declined none
        ++ (to_room call_id (rejected call_id client.user_id)
            ∷ to_client client.id (rejected call_id client.user_id)
            ∷ []),
    success,
  )
]

-- The loop that tells the participants other than the one who ends the call.
unfoldable pub tell_ended : Gateway → String → String → List String → List Effect
tell_ended g call_id user [] = []
tell_ended g call_id user (p ∷ ps) =
    if p == user then tell_ended g call_id user ps else elim (socket_of g p) [
      | none ↦ tell_ended g call_id user ps
      | some socket ↦ to_socket socket (ended_by call_id user) ∷ tell_ended g call_id user ps
    ]

-- The call's status and duration for the store; a clock in milliseconds that does not run back.
abbrev pub ended_status : CallSession → StoredStatus
ended_status call = if is_ringing call.status then missed else completed

abbrev pub ended_duration : ℕ → CallSession → ℕ
ended_duration now call = if is_ringing call.status then 0 else (now - call.start_time) / 1000

unfoldable pub handle_call_end : ℕ → Client → String → Gateway → Gateway × List Effect × Response
unfolding tell_ended
handle_call_end now client call_id g = elim (get call_id g.active_calls) [
  | none ↦ (g, [], failure "Call not found")
  | some call ↦ (
    record g { active_calls = delete call_id g.active_calls },
    update_stored (present call.db_call_id) (ended_status call) (some (ended_duration now call))
        ++ (to_room call_id (ended_by call_id client.user_id)
            ∷ (tell_ended g call_id client.user_id call.participants
                ++ to_client client.id (ended_by call_id client.user_id) ∷ [])),
    success,
  )
]

-- The second loop of `sendCallInvitation`: a user that is no participant yet is appended.
unfoldable pub add_participants : List String → List String → List String
add_participants ps [] = ps
add_participants ps (u ∷ us) = add_participants (if includes ps u then ps else ps ++ u ∷ []) us

unfoldable pub send_call_invitation : List String → Incoming → Gateway → Gateway × List Effect
unfolding announce add_participants
send_call_invitation users i g = (
  elim (get i.call_id g.active_calls) [
    | none ↦ g
    | some call ↦ record g {
      active_calls =
          put i.call_id (record call { participants = add_participants call.participants users })
            g.active_calls;
    }
  ],
  announce g (record i { is_invite = true }) users,
)
