-- ===== src/Webrtc/Ringing.antt =====
-- Who is told of a ringing call (src/gateways/webrtc.gateway.ts: `handleCallInitiate`,
-- `handleConnection`, and the sockets that the relays reach).
use backend_gateway.Base.{
  ℕ, String, true, false, some, List, [], ◌∷◌, ◌++◌, ◌≡◌, ◌≢◌, ◌⊎◌, sym, inl, inr, string_eq,
  includes, get, keys, IsDistinct, includes-keys_of_get, subst, put, arith, Answer, ok, Bool-cases,
  ==_refl,
}
use backend_gateway.Webrtc.State.{
  CallSession, Gateway, Client, Services, IceConfig, Incoming, User, Effect, incoming, to_client,
  to_socket, ringing, socket_of, join,
}
use backend_gateway.Webrtc.Calls.{
  CallRequest, announce, handle_call_initiate, initial_incoming, new_session, notify_all,
}
use backend_gateway.Webrtc.Presence.{
  Handshake, token_of, is_pending, resend, resend_pending, handle_connection, or_unknown,
}
use backend_gateway.Webrtc.Invariant.{IsValid}
use backend_gateway.Webrtc.Lifecycle.{get-initiate}
use backend_gateway.Webrtc.Sent.{Sent, Sent-append_left}

module _ (s : Services) (client_id user : String) where
  Sent-resend_pending :
      (k : String) (c : CallSession) (m : List (String × CallSession))
      → get k m ≡ some c
      → is_pending user c ≡ true
      → Sent (resend s client_id k c) (resend_pending s client_id user m)
  unfolding get resend_pending
  Sent-resend_pending k c [] found p = cc
  Sent-resend_pending k c ((key, call) ∷ rest) found p =
      ground (arith, Sent-resend_pending k c rest)

  -- An effect of the loop is the resending of a pending call of the list.
  abbrev Resent : Effect → List (String × CallSession) → Type 0
  Resent x m =
      (k : String) × (c : CallSession) × (get k m ≡ some c)
      × (is_pending user c ≡ true)
      × (x ≡ resend s client_id k c)

  Resent-cons :
      (x : Effect) (key : String) (call : CallSession) (rest : List (String × CallSession))
      → IsDistinct (keys ((key, call) ∷ rest))
      → Resent x rest
      → Resent x ((key, call) ∷ rest)
  unfolding get
  Resent-cons x key call rest d (k, c, found, p, e) =
      (k, c, ground (arith, includes-keys_of_get k c rest found), p, e)

  split_first :
      (x : Effect) (key : String) (call : CallSession) (rest : List (String × CallSession))
      → is_pending user call ≡ true
      → Sent x (resend_pending s client_id user ((key, call) ∷ rest))
      → (resend s client_id key call ≡ x) ⊎ Sent x (resend_pending s client_id user rest)
  unfolding resend_pending
  split_first x key call rest p h = rw (p, resend_pending) at h

  resend_pending-Resent :
      (x : Effect) (m : List (String × CallSession))
      → IsDistinct (keys m)
      → Sent x (resend_pending s client_id user m)
      → Resent x m
  unfolding get resend_pending
  resend_pending-Resent x [] d h = absurd h
  resend_pending-Resent x ((key, call) ∷ rest) d h = elim (Bool-cases (is_pending user call)) [
    | inl p ↦ elim (split_first x key call rest p h) [
      | inl first ↦ (key, call, ground (arith, ==_refl key), p, sym first)
      | inr later ↦ Resent-cons x key call rest d (resend_pending-Resent x rest d.1 later)
    ]
    | inr p ↦
        Resent-cons x key call rest d
          (resend_pending-Resent x rest d.1 (rw (p, resend_pending) at h))
  ]

connection_accepted :
    (verify : String → Answer String) (s : Services) (hs : Handshake)
    (client_id token user : String) (g : Gateway)
    → token_of hs ≡ some token
    → verify token ≡ ok user
    → (handle_connection verify s hs client_id g).1 ≡ resend_pending s client_id user g.active_calls
unfolding handle_connection
connection_accepted verify s hs client_id token user g t v =
    rw (t, handle_connection) (rw (v, handle_connection))

-- The announcement that a user receives who connects while the call `k` rings.
abbrev pub late_incoming : String → CallSession → User → Incoming
late_incoming k c caller = record {
  call_id = k;
  call_type = c.call_type;
  conversation_id = c.conversation_id;
  from_id = c.initiator;
  display_name = or_unknown caller.display_name;
  avatar = caller.avatar;
  is_invite = false;
}

resend_known :
    (s : Services) (client_id k : String) (c : CallSession) (caller : User)
    → s.find_by_id c.initiator ≡ ok caller
    → resend s client_id k c ≡ to_client client_id (incoming (late_incoming k c caller))
unfolding resend
resend_known s client_id k c caller f = rw (f, resend)

new_session-is_pending :
    (s : Services) (now : ℕ) (k : String) (client : Client) (req : CallRequest) (user : String)
    → includes req.participants user ≡ true
    → user ≢ client.user_id
    → is_pending user (new_session s now k client req) ≡ true
unfolding new_session
new_session-is_pending s now k client req user m other = ground arith

is_pending_parts :
    (user : String) (c : CallSession)
    → is_pending user c ≡ true
    → (includes c.participants user ≡ true) × (c.initiator ≢ user) × (c.status ≡ ringing)
is_pending_parts user c p = ground arith

-- A participant, other than the caller, of a call that was initiated under an unused id is told of
-- it when it connects next: it is sent the call's announcement, with the caller's name.
pub connect-initiate :
    (verify : String → Answer String) (s : Services) (conf : IceConfig) (now : ℕ) (k : String)
    (client : Client) (req : CallRequest) (g : Gateway) (hs : Handshake)
    (client_id token user : String) (caller : User)
    → includes req.participants user ≡ true
    → user ≢ client.user_id
    → s.find_by_id client.user_id ≡ ok caller
    → token_of hs ≡ some token
    → verify token ≡ ok user
    → let g' = (handle_call_initiate s conf now k client req g).0 in
      Sent
        (to_client client_id (incoming (late_incoming k (new_session s now k client req) caller)))
        (handle_connection verify s hs client_id g').1
connect-initiate verify s conf now k client req g hs client_id token user caller m other f t v =
    let g' = (handle_call_initiate s conf now k client req g).0 in
    let c = new_session s now k client req in
    let found : get k g'.active_calls ≡ some c =
      ground (arith, get-initiate s conf now k client req g k, ==_refl k) in
    rw (connection_accepted verify s hs client_id token user g' t v) (
      subst (λ x. Sent x (resend_pending s client_id user g'.active_calls))
        (resend_known s client_id k c caller (unfold new_session in f))
        (Sent-resend_pending s client_id user k c g'.active_calls found
          (new_session-is_pending s now k client req user m other)))

-- A user whose token is accepted is sent the announcements of calls that ring, in which it takes
-- part and which somebody else started, and nothing else.
pub connect_only_pending :
    (verify : String → Answer String) (s : Services) (hs : Handshake)
    (client_id token user : String) (g : Gateway) (x : Effect)
    → IsValid g
    → token_of hs ≡ some token
    → verify token ≡ ok user
    → Sent x (handle_connection verify s hs client_id g).1
    → (k : String) × (c : CallSession) × (get k g.active_calls ≡ some c)
      × (includes c.participants user ≡ true)
      × (c.initiator ≢ user)
      × (c.status ≡ ringing)
      × (x ≡ resend s client_id k c)
connect_only_pending verify s hs client_id token user g x valid t v h =
    let (k, c, found, p, e) =
      resend_pending-Resent s client_id user x g.active_calls valid.calls_distinct
        (rw (connection_accepted verify s hs client_id token user g t v) at h) in
    let (member, other, rings) = is_pending_parts user c p in (k, c, found, member, other, rings, e)

Sent-announce :
    (g : Gateway) (i : Incoming) (p socket : String) (ps : List String)
    → includes ps p ≡ true
    → socket_of g p ≡ some socket
    → Sent (to_socket socket (incoming i)) (announce g i ps)
unfolding announce
Sent-announce g i p socket [] h found = cc
Sent-announce g i p socket (q ∷ ps) h found = ground (arith, Sent-announce g i p socket ps)

-- Every requested participant that is connected is sent the call at once, if the caller is known.
pub initiate_tells :
    (s : Services) (conf : IceConfig) (now : ℕ) (k : String) (client : Client) (req : CallRequest)
    (g : Gateway) (p socket : String) (caller : User)
    → includes req.participants p ≡ true
    → socket_of g p ≡ some socket
    → s.find_by_id client.user_id ≡ ok caller
    → Sent
        (to_socket socket (incoming (initial_incoming k client req caller)))
        (handle_call_initiate s conf now k client req g).1
unfolding handle_call_initiate
initiate_tells s conf now k client req g p socket caller m found f =
    let i = initial_incoming k client req caller in
    let g' = record g { active_calls = put k (new_session s now k client req) g.active_calls } in
    rw (f, handle_call_initiate)
      (inr (
        Sent-append_left (to_socket socket (incoming i)) (announce g' i req.participants)
          (notify_all s caller.display_name req k ++ join client.id k ∷ [])
          (Sent-announce g' i p socket req.participants m found)))
