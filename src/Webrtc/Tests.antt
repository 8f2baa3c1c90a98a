-- ===== src/Webrtc/Tests.antt =====
-- Runs of the gateway at concrete inputs, and the theorems applied there.
use backend_gateway.Base.{
  String, true, none, some, List, [], ◌∷◌, ◌≡◌, ◌≢◌, ◌↔◌, refl, String_discrete, string_eq,
  ne_of_test, get, put, has, delete, Answer, ok, thrown, arith, includes, inl, inr,
}
use backend_gateway.Webrtc.State.{
  video, ringing, active, CallSession, Gateway, Client, Services, IceConfig, incoming, to_client,
}
use backend_gateway.Webrtc.Calls.{
  CallRequest, handle_call_initiate, handle_call_answer, handle_call_end, new_session,
  add_participants,
}
use backend_gateway.Webrtc.Presence.{Handshake, handle_connection, handle_disconnect, resend}
use backend_gateway.Webrtc.Actions.{Action, apply, run, empty}
use backend_gateway.Webrtc.Invariant.{IsValid, run-IsValid}
use backend_gateway.Webrtc.Lifecycle.{Follows, apply-Follows}
use backend_gateway.Webrtc.Leaving.{IsAbandoned, get-handle_disconnect}
use backend_gateway.Webrtc.Sent.{Sent}
use backend_gateway.Webrtc.Ringing.{late_incoming, connect-initiate, connect_only_pending}

abbrev services : Services
services = record {
  create = λ user conversation call_type participants. ok "db1";
  find_by_id = λ user. ok (record { display_name = "Ann"; avatar = none });
  get_users_by_ids = λ users. thrown "offline";
}

abbrev ice : IceConfig
ice = record {
  stun_server_url = none;
  turn_server_url = none;
  turn_username = none;
  turn_credential = none;
}

abbrev ann : Client
ann = record { id = "s1"; user_id = "ann" }

abbrev bob : Client
bob = record { id = "s2"; user_id = "bob" }

abbrev call_bob : CallRequest
call_bob = record { conversation_id = "conv"; participants = "bob" ∷ []; call_type = video }

-- The token of a user is its name.
abbrev verify : String → Answer String
verify token = ok token

abbrev handshake : Handshake
handshake = record { auth_token = none; authorization = some ("Bearer" ∷ "bob" ∷ []) }

abbrev talking : CallSession
talking = record {
  call_id = "k";
  db_call_id = some "db1";
  conversation_id = "conv";
  initiator = "ann";
  participants = "ann" ∷ "bob" ∷ [];
  call_type = video;
  start_time = 1000;
  status = active;
}

abbrev both : Gateway
both = record {
  connected_users = ("ann", "s1") ∷ ("bob", "s2") ∷ [];
  active_calls = ("k", talking) ∷ [];
}

abbrev alone : Gateway
alone = record both { connected_users = ("ann", "s1") ∷ [] }

both-IsValid : IsValid both
both-IsValid = record {
  users_distinct = unfold String_discrete in (refl, (refl, tt));
  calls_distinct = (refl, tt);
  calls_open = ((refl, (λ e. cc), inr (ground arith)), tt);
}

-- Everything that the tests run.
program : Unit {0}
unfolding String_discrete get put has delete handle_call_initiate handle_call_answer handle_call_end
    handle_connection handle_disconnect apply run add_participants
program = tt

-- Bob joins, Ann calls him, he answers: the call is active, and he was rung.
abbrev scene : List Action
scene =
    Action.connect verify services handshake "s2"
    ∷ Action.initiate services ice 1000 "k" ann call_bob
    ∷ Action.answer ice 2000 bob "k"
    ∷ []

scene_talks : get "k" (run scene empty).active_calls ≡ some talking
unfolding program
scene_talks = refl

run-IsValid_example : IsValid (run scene empty)
run-IsValid_example =
    run-IsValid scene empty (record { users_distinct = tt; calls_distinct = tt; calls_open = tt })

apply-Follows_example : Follows talking talking
unfolding program
apply-Follows_example =
    apply-Follows (Action.answer ice 3000 bob "k") both "k" talking talking tt refl refl

get-handle_disconnect_example :
    let g' = (handle_disconnect 5000 bob both).0 in
    (get "k" g'.active_calls ≡ some talking)
    ↔ ((get "k" both.active_calls ≡ some talking) × (¬ IsAbandoned g' "bob" talking))
get-handle_disconnect_example =
    get-handle_disconnect 5000 bob both "k" talking both-IsValid (unfold String_discrete in λ e. cc)

-- Bob leaves, and Ann is still there: the call stays. Then Ann leaves, and it ends.
disconnects :
    (get "k" (handle_disconnect 5000 bob both).0.active_calls ≡ some talking)
    × (get "k" (handle_disconnect 6000 ann alone).0.active_calls ≡ none)
unfolding program
disconnects = (refl, refl)

connect-initiate_example :
    let g' = (handle_call_initiate services ice 1000 "k" ann call_bob empty).0 in
    Sent
      (to_client "s2" (
        incoming (
          late_incoming "k"
            (new_session services 1000 "k" ann call_bob)
            (record { display_name = "Ann"; avatar = none }))))
      (handle_connection verify services handshake "s2" g').1
unfolding program
connect-initiate_example =
    connect-initiate verify services ice 1000 "k" ann call_bob empty handshake "s2" "bob" "bob"
      (record { display_name = "Ann"; avatar = none }) refl (ne_of_test "bob" "ann" refl) refl refl
      refl

abbrev ringing_gateway : Gateway
ringing_gateway = record both {
  active_calls = ("k", record talking { status = ringing; start_time = 0 }) ∷ [];
}

ringing_gateway-IsValid : IsValid ringing_gateway
unfolding String_discrete
ringing_gateway-IsValid = record {
  users_distinct = (refl, (refl, tt));
  calls_distinct = (refl, tt);
  calls_open = ((refl, (λ e. cc), inr (ground arith)), tt);
}

connect_only_pending_example :
    let x = resend services "s3" "k" (record talking { status = ringing; start_time = 0 }) in
    (k : String) × (c : CallSession) × (get k ringing_gateway.active_calls ≡ some c)
    × (includes c.participants "bob" ≡ true)
    × (c.initiator ≢ "bob")
    × (c.status ≡ ringing)
    × (x ≡ resend services "s3" k c)
unfolding program
connect_only_pending_example =
    connect_only_pending verify services handshake "s3" "bob" "bob" ringing_gateway
      (resend services "s3" "k" (record talking { status = ringing; start_time = 0 }))
      ringing_gateway-IsValid refl refl (inl refl)
