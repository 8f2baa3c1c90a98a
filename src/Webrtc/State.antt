-- ===== src/Webrtc/State.antt =====
-- src/gateways/webrtc.gateway.ts: `CallSession`, the two maps, and what a handler sends.
-- An id that JavaScript holds as undefined or "" is "" here: the code tests ids by truthiness.
use backend_gateway.Base.{
  ℕ, String, Bool, true, false, Option, none, some, List, [], ◌∷◌, ◌==◌, string_eq, if◌then◌else◌,
  Dict, get, Answer,
}

pub data CallType : Type 0 where
  audio video : CallType

pub data CallStatus : Type 0 where
  ringing active ended : CallStatus

pub record CallSession : Type 0 where
  pub call_id : String
  pub db_call_id : Option String
  pub conversation_id : String
  pub initiator : String
  pub participants : List String
  pub call_type : CallType
  pub start_time : ℕ
  pub status : CallStatus

pub record Gateway : Type 0 where
  pub connected_users : Dict String String
  pub active_calls : Dict String CallSession

-- A socket with the user id that `handleConnection` stored on it.
pub record Client : Type 0 where
  pub id : String
  pub user_id : String

-- The payload of `call:incoming`.
pub record Incoming : Type 0 where
  pub call_id : String
  pub call_type : CallType
  pub conversation_id : String
  pub from_id : String
  pub display_name : String
  pub avatar : Option String
  pub is_invite : Bool

pub data Event : Type 0 where
  incoming : Incoming → Event
  participant_joined rejected ended_by : String → String → Event
  offer answer ice_candidate : String → String → String → Event
  audio_toggled video_toggled : String → Bool → Event

-- The status that the gateway asks `CallsService.update` to store.
pub data StoredStatus : Type 0 where
  completed missed declined : StoredStatus

-- What a handler does to the outside, in order. `to_room` and `to_others` name the room by its call.
pub data Effect : Type 0 where
  disconnect : String → Effect
  to_socket to_room to_client : String → Event → Effect
  to_others : String → String → Event → Effect
  join : String → String → Effect
  push : List String → String → CallType → String → String → Effect
  create_call : String → String → CallType → List String → Effect
  join_call : String → String → Effect
  update_call : String → StoredStatus → Option ℕ → Effect
  unhandled_rejection : Effect

pub record IceServer : Type 0 where
  pub urls : String
  pub username : Option String
  pub credential : Option String

pub data Response : Type 0 where
  initiated : String → List IceServer → Response
  answered : String → List IceServer → List String → Response
  success : Response
  failure : String → Response

pub record User : Type 0 where
  pub display_name : String
  pub avatar : Option String

-- A user as `getUsersByIds` gives it: its id and its `fcmTokens`.
pub record Recipient : Type 0 where
  pub user_id : String
  pub fcm_tokens : List String

-- What the gateway calls: `CallsService.create` (the id of the document), `UsersService.findById`
-- and `UsersService.getUsersByIds`. Each may throw.
pub record Services : Type 0 where
  pub create : String → String → CallType → List String → Answer String
  pub find_by_id : String → Answer User
  pub get_users_by_ids : List String → Answer (List Recipient)

-- The settings that `getIceServers` reads.
pub record IceConfig : Type 0 where
  pub stun_server_url : Option String
  pub turn_server_url : Option String
  pub turn_username : Option String
  pub turn_credential : Option String

-- A text that is neither undefined nor empty.
abbrev pub present : Option String → Option String
present none = none
present (some s) = if s == "" then none else some s

abbrev pub is_ringing : CallStatus → Bool
is_ringing ringing = true
is_ringing _ = false

abbrev pub is_active : CallStatus → Bool
is_active active = true
is_active _ = false

-- `const socketId = this.connectedUsers.get(id)` under `if (socketId)`.
abbrev pub socket_of : Gateway → String → Option String
socket_of g user = present (get user g.connected_users)

abbrev pub or_default : Option String → String → String
or_default none d = d
or_default (some s) d = s

add_turn : Option String → Option String → Option String → List IceServer
add_turn (some url) (some name) (some secret) =
    (record { urls = url; username = some name; credential = some secret }) ∷ []
add_turn _ _ _ = []

unfoldable pub get_ice_servers : IceConfig → List IceServer
unfolding add_turn
get_ice_servers c =
    (record {
      urls = or_default (present c.stun_server_url) "stun:stun.l.google.com:19302";
      username = none;
      credential = none;
    })
    ∷ add_turn (present c.turn_server_url) (present c.turn_username) (present c.turn_credential)
