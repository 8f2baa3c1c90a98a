-- ===== src/Webrtc/Presence.antt =====
-- src/gateways/webrtc.gateway.ts: `handleConnection` and `handleDisconnect`.
use backend_gateway.Base.{
  ℕ, String, Bool, false, Option, none, some, List, [], ◌∷◌, ◌++◌, ◌==◌, string_eq, if◌then◌else◌,
  put, has, delete, Answer, ok, thrown, includes, filter, any, ◌&&◌, not,
}
use backend_gateway.Webrtc.State.{
  CallSession, Gateway, Client, incoming, Effect, disconnect, to_client, unhandled_rejection,
  Services, present, is_ringing, is_active,
}
use backend_gateway.Webrtc.Calls.{handle_call_end}

-- The handshake: `auth.token`, and the `authorization` header split at its spaces.
pub record Handshake : Type 0 where
  pub auth_token : Option String
  pub authorization : Option (List String)

abbrev second : List String → Option String
second (_ ∷ word ∷ _) = some word
second _ = none

abbrev bearer : Option (List String) → Option String
bearer none = none
bearer (some words) = second words

abbrev pub or_else : Option String → Option String → Option String
or_else none other = other
or_else (some s) other = some s

unfoldable pub token_of : Handshake → Option String
token_of h = present (or_else (present h.auth_token) (bearer h.authorization))

abbrev pub or_unknown : String → String
or_unknown name = if name == "" then "Unknown" else name

-- A ringing call in which the user takes part and which somebody else started.
abbrev pub is_pending : String → CallSession → Bool
is_pending user call =
    not (call.initiator == user) && (includes call.participants user && is_ringing call.status)

-- `call:incoming` for one pending call. The callback is not awaited: a throw is nobody's to catch.
unfoldable pub resend : Services → String → String → CallSession → Effect
resend s client_id key call = elim (s.find_by_id call.initiator) [
  | thrown _ ↦ unhandled_rejection
  | ok caller ↦ to_client client_id (
      incoming (record {
        call_id = key;
        call_type = call.call_type;
        conversation_id = call.conversation_id;
        from_id = call.initiator;
        display_name = or_unknown caller.display_name;
        avatar = caller.avatar;
        is_invite = false;
      }))
]

-- The loop over `activeCalls`.
unfoldable pub resend_pending :
    Services → String → String → List (String × CallSession) → List Effect
resend_pending s client_id user [] = []
resend_pending s client_id user ((key, call) ∷ rest) =
    if is_pending user call
    then resend s client_id key call ∷ resend_pending s client_id user rest
    else resend_pending s client_id user rest

-- `verify` is `jwtService.verify` with the secret, giving the `sub` of the payload.
unfoldable pub handle_connection :
    (String → Answer String) → Services → Handshake → String → Gateway → Gateway × List Effect
unfolding token_of resend_pending
handle_connection verify s h client_id g = elim (token_of h) [
  | none ↦ (g, disconnect client_id ∷ [])
  | some token ↦ elim (verify token) [
    | thrown _ ↦ (g, disconnect client_id ∷ [])
    | ok user ↦ (
      record g { connected_users = put user client_id g.connected_users },
      resend_pending s client_id user g.active_calls,
    )
  ]
]

-- The test by which the disconnect of a user ends a call.
unfoldable pub is_abandoned : Gateway → String → CallSession → Bool
is_abandoned g user call =
    includes call.participants user
    && (is_active call.status
        && not
            (any (λ p. has p g.connected_users) (filter (λ p. not (p == user)) call.participants)))

-- One round of the loop over `activeCalls`.
unfoldable pub close_abandoned : ℕ → Client → String → CallSession → Gateway → Gateway × List Effect
unfolding is_abandoned
close_abandoned now client key call g =
    if is_abandoned g client.user_id call
    then (let (g', sent, _) = handle_call_end now client key g in (g', sent))
    else (g, [])

-- The loop over `activeCalls`. A round deletes at most the entry that it stands at.
unfoldable pub end_abandoned :
    ℕ → Client → List (String × CallSession) → Gateway → Gateway × List Effect
unfolding close_abandoned
end_abandoned now client [] g = (g, [])
end_abandoned now client ((key, call) ∷ rest) g =
    let (g', sent) = close_abandoned now client key call g in
    let (g'', more) = end_abandoned now client rest g' in (g'', sent ++ more)

unfoldable pub handle_disconnect : ℕ → Client → Gateway → Gateway × List Effect
unfolding end_abandoned
handle_disconnect now client g =
    if client.user_id == ""
    then (g, [])
    else (let g' = record g { connected_users = delete client.user_id g.connected_users } in
        end_abandoned now client g'.active_calls g')
