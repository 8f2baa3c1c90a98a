-- ===== src/Webrtc/Lifecycle.antt =====
-- What one handler may do to a session (src/gateways/webrtc.gateway.ts).
use backend_gateway.Base.{
  ℕ, String, true, Option, none, some, List, ◌≡◌, ◌⊎◌, refl, inl, inr, Answer, ◌==◌, if◌then◌else◌,
  subst, string_eq, includes, get, delete, get-put, get-delete, arith, Option-cases, Bool-cases,
}
use backend_gateway.Webrtc.State.{
  CallSession, Gateway, active, Incoming, Client, Services, IceConfig,
}
use backend_gateway.Webrtc.Calls.{
  CallRequest, handle_call_initiate, handle_call_answer, handle_call_reject, send_call_invitation,
  add_participants, session_or, recovered_session, new_session,
}
use backend_gateway.Webrtc.Presence.{Handshake, handle_connection, handle_disconnect}
use backend_gateway.Webrtc.Actions.{
  Action, connect, disconnect, initiate, answer, reject, end, invite, apply, IsFresh,
}
use backend_gateway.Webrtc.Participants.{includes-add_participants}
use backend_gateway.Webrtc.Ending.{get-handle_call_end}
use backend_gateway.Webrtc.Leaving.{get-end_abandoned}

-- The later session is the earlier one further on: the same call, from the same user and with the
-- same document, with everybody who took part before, and answered if it was answered before.
pub record Follows (c c' : CallSession) : Type 0 where
  pub same_call : c'.call_id ≡ c.call_id
  pub same_initiator : c'.initiator ≡ c.initiator
  pub same_document : c'.db_call_id ≡ c.db_call_id
  pub same_start : c'.start_time ≡ c.start_time
  pub stays_answered : c.status ≡ active → c'.status ≡ active
  pub keeps_participants :
      (p : String) → includes c.participants p ≡ true → includes c'.participants p ≡ true

pub Follows-refl : (c : CallSession) → Follows c c
Follows-refl c = record {
  same_call = refl;
  same_initiator = refl;
  same_document = refl;
  same_start = refl;
  stays_answered = λ h. h;
  keeps_participants = λ p h. h;
}

abbrev FollowsTo : CallSession → Option CallSession → Type 0
FollowsTo c none = Unit
FollowsTo c (some c') = Follows c c'

same-Follows : (c d c' : CallSession) → some d ≡ some c' → Follows c d → Follows c c'
same-Follows c d c' e h = subst (FollowsTo c) e h

invite-Follows :
    (c : CallSession) (us : List String)
    → Follows c (record c { participants = add_participants c.participants us })
invite-Follows c us = record {
  same_call = refl;
  same_initiator = refl;
  same_document = refl;
  same_start = refl;
  stays_answered = λ h. h;
  keeps_participants = λ p h. ground (arith, includes-add_participants c.participants us p);
}

answer-Follows : (c : CallSession) → Follows c (record c { status = active })
answer-Follows c = record {
  same_call = refl;
  same_initiator = refl;
  same_document = refl;
  same_start = refl;
  stays_answered = λ h. refl;
  keeps_participants = λ p h. h;
}

get-connect :
    (verify : String → Answer String) (s : Services) (hs : Handshake) (client_id : String)
    (g : Gateway)
    → (handle_connection verify s hs client_id g).0.active_calls ≡ g.active_calls
unfolding handle_connection
get-connect verify s hs client_id g = ground arith

get-disconnect :
    (now : ℕ) (client : Client) (g : Gateway) (k : String)
    → (get k (handle_disconnect now client g).0.active_calls ≡ none)
      ⊎ (get k (handle_disconnect now client g).0.active_calls ≡ get k g.active_calls)
unfolding handle_disconnect
get-disconnect now client g k = ground (
  arith,
  get-end_abandoned now client k g.active_calls
      (record g { connected_users = delete client.user_id g.connected_users }),
)

pub get-initiate :
    (s : Services) (c : IceConfig) (now : ℕ) (call_id : String) (client : Client)
    (req : CallRequest) (g : Gateway) (k : String)
    → get k (handle_call_initiate s c now call_id client req g).0.active_calls
      ≡ (if call_id == k then some (new_session s now call_id client req) else get k g.active_calls)
unfolding handle_call_initiate
get-initiate s c now call_id client req g k =
    ground (arith, get-put call_id k (new_session s now call_id client req) g.active_calls)

pub get-answer :
    (c : IceConfig) (now : ℕ) (client : Client) (call_id : String) (g : Gateway) (k : String)
    → get k (handle_call_answer c now client call_id g).0.active_calls ≡ (
        if call_id == k
        then some
            (record (session_or
              (get call_id g.active_calls)
              (recovered_session now call_id client)) { status = active })
        else get k g.active_calls)
unfolding handle_call_answer
get-answer c now client call_id g k = get-put call_id k _ g.active_calls

get-reject :
    (client : Client) (call_id : String) (g : Gateway) (k : String)
    → get k (handle_call_reject client call_id g).0.active_calls
      ≡ (if call_id == k then none else get k g.active_calls)
unfolding handle_call_reject
get-reject client call_id g k = ground (arith, get-delete call_id k g.active_calls)

abbrev invited : List String → Option CallSession → Option CallSession
invited users none = none
invited users (some c) = some (record c { participants = add_participants c.participants users })

get-invite :
    (users : List String) (i : Incoming) (g : Gateway) (k : String)
    → get k (send_call_invitation users i g).0.active_calls ≡ (
        if i.call_id == k
        then invited users (get i.call_id g.active_calls)
        else get k g.active_calls)
unfolding send_call_invitation
get-invite users i g k = elim (Option-cases (get i.call_id g.active_calls)) [
  | inl missing ↦ rw (missing, send_call_invitation) (ground arith)
  | inr (c, found) ↦ rw (found, send_call_invitation) (get-put i.call_id k _ g.active_calls)
]

-- A handler never turns a session back or into another: if the call is in the table before and
-- after it, the later session follows the earlier one. An initiated call has an unused id.
pub apply-Follows :
    (a : Action) (g : Gateway) (k : String) (c c' : CallSession)
    → IsFresh a g
    → get k g.active_calls ≡ some c
    → get k (apply a g).active_calls ≡ some c'
    → Follows c c'
unfolding apply
apply-Follows (connect verify s hs client_id) g k c c' fresh before after =
    same-Follows c c c' (cc (get-connect verify s hs client_id g)) (Follows-refl c)
apply-Follows (disconnect now client) g k c c' fresh before after =
    same-Follows c c c' (ground (arith, get-disconnect now client g k)) (Follows-refl c)
apply-Follows (initiate s conf now call_id client req) g k c c' fresh before after =
    same-Follows c c c' (ground (arith, get-initiate s conf now call_id client req g k))
      (Follows-refl c)
apply-Follows (answer conf now client call_id) g k c c' fresh before after =
    elim (Bool-cases (call_id == k)) [
      | inl here ↦
          same-Follows c (record c { status = active }) c'
            (ground (arith, get-answer conf now client call_id g k)) (answer-Follows c)
      | inr there ↦
          same-Follows c c c' (ground (arith, get-answer conf now client call_id g k))
            (Follows-refl c)
    ]
apply-Follows (reject client call_id) g k c c' fresh before after =
    same-Follows c c c' (ground (arith, get-reject client call_id g k)) (Follows-refl c)
apply-Follows (end now client call_id) g k c c' fresh before after =
    same-Follows c c c' (ground (arith, get-handle_call_end now client call_id k g))
      (Follows-refl c)
apply-Follows (invite users i) g k c c' fresh before after = elim (Bool-cases (i.call_id == k)) [
  | inl here ↦
      same-Follows c (record c { participants = add_participants c.participants users }) c'
        (ground (arith, get-invite users i g k)) (invite-Follows c users)
  | inr there ↦ same-Follows c c c' (ground (arith, get-invite users i g k)) (Follows-refl c)
]
