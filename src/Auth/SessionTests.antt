-- ===== src/Auth/SessionTests.antt =====
-- Sessions at concrete inputs, and the theorems applied there.
use native.Mathlib.Decide.{ℕ_discrete}
use backend_gateway.Base.{
  ◌≤◌, String, String_discrete, false, none, some, List, [], ◌∷◌, ◌≡◌, ◌≢◌, refl, string_eq, nat_eq,
  arith, listed, ne_of_test, count_where,
}
use backend_gateway.Auth.Response.{success_response}
use backend_gateway.Auth.Sessions.{
  DeviceInfo, Session, CreateSession, on_device, new_session, renewed, insert_session,
  reuse_or_insert, create_session, get_session, get_session_by_refresh_token, get_user_sessions,
  update_found, update_session_activity, update_session_refresh_token, revoke_session,
  revoke_all_sessions, get_session_count, cleanup_expired_sessions,
}
use backend_gateway.Auth.Devices.{
  Request, create, rotation, activity, cleanup, handle, run, on_device-run,
}
use backend_gateway.Auth.Revoked.{get_session-revoke_session}

program : Unit {0}
unfolding String_discrete ℕ_discrete new_session renewed insert_session reuse_or_insert
    create_session get_session get_session_by_refresh_token get_user_sessions update_found
    update_session_activity update_session_refresh_token revoke_session revoke_all_sessions
    get_session_count cleanup_expired_sessions handle
program = tt

abbrev phone : DeviceInfo
phone = record {
  device_id = some "phone";
  device_type = "mobile";
  device_name = none;
  os = none;
  os_version = none;
  app_version = none;
  push_token = none;
  user_agent = none;
}

abbrev sign_in : String → CreateSession
sign_in token = record {
  user_id = "ann";
  refresh_token = token;
  device_info = some phone;
  ip_address = none;
}

abbrev one_session : List Session
one_session = new_session 0 1000 "s1" (sign_in "t1") ∷ []

abbrev requests : List Request
requests =
    create 10 1010 "s2" (sign_in "t2") ∷ rotation 20 "s1" "t3" ∷ activity 25 "s1" ∷ cleanup 30 ∷ []

renewed_test :
    get_session_count (listed Session) 500 "ann" (run (listed Session) false requests one_session)
    ≡ 1
unfolding program
renewed_test = refl

on_device-run_example :
    count_where (on_device "ann" "phone") (run (listed Session) false requests one_session) ≤ 1
unfolding program
on_device-run_example =
    on_device-run (listed Session) false "ann" "phone" requests one_session
      (ne_of_test "phone" "" refl) (ground arith)

get_session-revoke_session_example :
    (get_session (listed Session) 40 "s1" (
        run
          (listed Session)
          false
          requests
          (revoke_session (listed Session) 5 "ann" "s1" none one_session).0)
      ≡ success_response none)
    × ((d : Session)
        → get_session_by_refresh_token (listed Session) 40 "t1" (
            run
              (listed Session)
              false
              requests
              (revoke_session (listed Session) 5 "ann" "s1" none one_session).0)
          ≡ success_response (some d)
        → d.session_id ≢ "s1")
unfolding program
get_session-revoke_session_example =
    get_session-revoke_session (listed Session) false 5 "ann" "s1" none one_session requests 40 "t1"
      (ground arith) refl (ne_of_test "s2" "s1" refl, (tt, (tt, (tt, tt))))
