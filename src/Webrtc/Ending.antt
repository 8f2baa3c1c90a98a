-- ===== src/Webrtc/Ending.antt =====
-- How a call ends (src/gateways/webrtc.gateway.ts, `handleCallEnd` and `handleDisconnect`).
use backend_gateway.Base.{
  ℕ, ◌-◌, ◌/◌, String, true, none, some, List, [], ◌∷◌, ◌++◌, ◌≡◌, ◌≢◌, ◌⊎◌, inr, ◌==◌, string_eq,
  if◌then◌else◌, includes, get, get-delete, arith, ◌&&◌,
}
use backend_gateway.Webrtc.State.{
  CallSession, Gateway, Client, ended_by, completed, missed, to_socket, to_room, to_client,
  update_call, present, ringing, socket_of,
}
use backend_gateway.Webrtc.Calls.{
  handle_call_end, tell_ended, ended_status, ended_duration, update_stored,
}
use backend_gateway.Webrtc.Presence.{is_abandoned, close_abandoned}
use backend_gateway.Webrtc.Sent.{Sent, Sent-append_left, Sent-append_right}

Sent-tell_ended :
    (g : Gateway) (k user p socket : String) (ps : List String)
    → includes ps p ≡ true
    → p ≢ user
    → socket_of g p ≡ some socket
    → Sent (to_socket socket (ended_by k user)) (tell_ended g k user ps)
unfolding tell_ended
Sent-tell_ended g k user p socket [] h other found = cc
Sent-tell_ended g k user p socket (q ∷ ps) h other found =
    ground (arith, Sent-tell_ended g k user p socket ps)

-- A participant other than the one who ends a known call, if connected, is told on its own socket.
pub end_tells :
    (now : ℕ) (client : Client) (k : String) (g : Gateway) (c : CallSession) (p socket : String)
    → get k g.active_calls ≡ some c
    → includes c.participants p ≡ true
    → p ≢ client.user_id
    → socket_of g p ≡ some socket
    → Sent (to_socket socket (ended_by k client.user_id)) (handle_call_end now client k g).1
unfolding handle_call_end
end_tells now client k g c p socket known member other found =
    let told = ended_by k client.user_id in
    let loop = tell_ended g k client.user_id c.participants in
    rw (known, handle_call_end)
      (Sent-append_right (to_socket socket told)
        (update_stored (present c.db_call_id) (ended_status c) (some (ended_duration now c)))
        (to_room k told ∷ (loop ++ to_client client.id told ∷ []))
        (inr (
          Sent-append_left (to_socket socket told) loop (to_client client.id told ∷ [])
            (Sent-tell_ended g k client.user_id p socket c.participants member other found))))

-- The call's document, if there is one, is updated: to missed with no duration if the call still
-- rang, else to completed with the whole seconds since the start.
pub end_stores :
    (now : ℕ) (client : Client) (k : String) (g : Gateway) (c : CallSession) (id : String)
    → get k g.active_calls ≡ some c
    → c.db_call_id ≡ some id
    → id ≢ ""
    → ((c.status ≡ ringing)
        × Sent (update_call id missed (some 0)) (handle_call_end now client k g).1)
      ⊎ ((c.status ≢ ringing)
          × Sent
              (update_call id completed (some ((now - c.start_time) / 1000)))
              (handle_call_end now client k g).1)
unfolding handle_call_end
end_stores now client k g c id known stored real =
    rw (known, handle_call_end, stored) (ground arith)

-- A call leaves the table at its end, and no other does.
pub get-handle_call_end :
    (now : ℕ) (client : Client) (k j : String) (g : Gateway)
    → get j (handle_call_end now client k g).0.active_calls
      ≡ (if k == j then none else get j g.active_calls)
unfolding handle_call_end
get-handle_call_end now client k j g = ground (arith, get-delete k j g.active_calls)

connected-handle_call_end :
    (now : ℕ) (client : Client) (k : String) (g : Gateway)
    → (handle_call_end now client k g).0.connected_users ≡ g.connected_users
unfolding handle_call_end
connected-handle_call_end now client k g = ground arith

pub connected-close_abandoned :
    (now : ℕ) (client : Client) (key : String) (call : CallSession) (g : Gateway)
    → (close_abandoned now client key call g).0.connected_users ≡ g.connected_users
unfolding close_abandoned
connected-close_abandoned now client key call g =
    ground (arith, connected-handle_call_end now client key g)

pub get-close_abandoned :
    (now : ℕ) (client : Client) (key k : String) (call : CallSession) (g : Gateway)
    → get k (close_abandoned now client key call g).0.active_calls
      ≡ (if key == k && is_abandoned g client.user_id call then none else get k g.active_calls)
unfolding close_abandoned
get-close_abandoned now client key k call g = ground (arith, get-handle_call_end now client key k g)
