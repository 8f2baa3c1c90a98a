-- ===== src/Webrtc/Invariant.antt =====
-- What holds of the gateway between two handlers (src/gateways/webrtc.gateway.ts).
use backend_gateway.Base.{
  ℕ, String, true, Option, none, some, List, [], ◌∷◌, ◌≡◌, ◌≢◌, ◌⊎◌, refl, inl, inr, string_eq,
  includes, IsDistinct, keys, get, put, delete, All, All-put, All-delete, All-get,
  IsDistinct-keys-put, IsDistinct-keys-delete, arith, ==_refl,
}
use backend_gateway.Webrtc.State.{Incoming, CallSession, Gateway, Client, Services, ended, active}
use backend_gateway.Webrtc.Calls.{
  CallRequest, new_session, recovered_session, session_or, handle_call_initiate, handle_call_answer,
  handle_call_reject, handle_call_end, send_call_invitation, add_participants,
}
use backend_gateway.Webrtc.Presence.{
  handle_connection, handle_disconnect, close_abandoned, end_abandoned,
}
use backend_gateway.Webrtc.Actions.{
  Action, connect, disconnect, initiate, answer, reject, end, invite, apply, run,
}
use backend_gateway.Webrtc.Participants.{includes-add_participants}

-- A session is filed under its own id, has not ended, and counts its initiator, if that is known,
-- among its participants.
abbrev pub IsOpen : String × CallSession → Type 0
IsOpen (key, c) =
    (c.call_id ≡ key)
    × (c.status ≢ ended)
    × ((c.initiator ≡ "") ⊎ (includes c.participants c.initiator ≡ true))

pub record IsValid (g : Gateway) : Type 0 where
  pub users_distinct : IsDistinct (keys g.connected_users)
  pub calls_distinct : IsDistinct (keys g.active_calls)
  pub calls_open : All IsOpen g.active_calls

put_call-IsValid :
    (key : String) (c : CallSession) (g : Gateway)
    → IsOpen (key, c)
    → IsValid g
    → IsValid (record g { active_calls = put key c g.active_calls })
put_call-IsValid key c g o h = record {
  users_distinct = h.users_distinct;
  calls_distinct = IsDistinct-keys-put key c g.active_calls h.calls_distinct;
  calls_open = All-put IsOpen key c g.active_calls h.calls_open o;
}

delete_call-IsValid :
    (key : String) (g : Gateway)
    → IsValid g
    → IsValid (record g { active_calls = delete key g.active_calls })
delete_call-IsValid key g h = record {
  users_distinct = h.users_distinct;
  calls_distinct = IsDistinct-keys-delete key g.active_calls h.calls_distinct;
  calls_open = All-delete IsOpen key g.active_calls h.calls_open;
}

initiate-IsValid :
    (s : Services) (now : ℕ) (call_id : String) (client : Client) (req : CallRequest) (g : Gateway)
    → IsValid g
    → IsValid (record g {
      active_calls = put call_id (new_session s now call_id client req) g.active_calls;
    })
unfolding new_session
initiate-IsValid s now call_id client req g h =
    put_call-IsValid call_id _ g (refl, (λ e. cc), inr (ground (arith, ==_refl client.user_id))) h

answer-IsValid :
    (now : ℕ) (client : Client) (call_id : String) (g : Gateway) (found : Option CallSession)
    → get call_id g.active_calls ≡ found
    → IsValid g
    → IsValid (record g {
      active_calls =
          put call_id
            (record (session_or found (recovered_session now call_id client)) { status = active })
            g.active_calls;
    })
unfolding recovered_session
answer-IsValid now client call_id g none e h =
    put_call-IsValid call_id _ g (refl, (λ e. cc), inl refl) h
answer-IsValid now client call_id g (some c) e h =
    let o = All-get IsOpen call_id c g.active_calls h.calls_open e in
    put_call-IsValid call_id _ g (o.0, (λ e. cc), o.2) h

end-IsValid :
    (now : ℕ) (client : Client) (call_id : String) (g : Gateway)
    → IsValid g
    → IsValid (handle_call_end now client call_id g).0
unfolding handle_call_end
end-IsValid now client call_id g h = ground (arith, delete_call-IsValid call_id g h)

close_abandoned-IsValid :
    (now : ℕ) (client : Client) (key : String) (call : CallSession) (g : Gateway)
    → IsValid g
    → IsValid (close_abandoned now client key call g).0
unfolding close_abandoned
close_abandoned-IsValid now client key call g h = ground (arith, end-IsValid now client key g h)

end_abandoned-IsValid :
    (now : ℕ) (client : Client) (entries : List (String × CallSession)) (g : Gateway)
    → IsValid g
    → IsValid (end_abandoned now client entries g).0
unfolding end_abandoned
end_abandoned-IsValid now client [] g h = h
end_abandoned-IsValid now client ((key, call) ∷ rest) g h =
    end_abandoned-IsValid now client rest (close_abandoned now client key call g).0
      (close_abandoned-IsValid now client key call g h)

invite-IsOpen :
    (key : String) (c : CallSession) (users : List String)
    → IsOpen (key, c)
    → IsOpen (key, record c { participants = add_participants c.participants users })
invite-IsOpen key c users (a, b, d) =
    (a, b, ground (arith, includes-add_participants c.participants users c.initiator))

connected-IsValid :
    (user client_id : String) (g : Gateway)
    → IsValid g
    → IsValid (record g { connected_users = put user client_id g.connected_users })
connected-IsValid user client_id g h = record {
  users_distinct = IsDistinct-keys-put user client_id g.connected_users h.users_distinct;
  calls_distinct = h.calls_distinct;
  calls_open = h.calls_open;
}

disconnected-IsValid :
    (user : String) (g : Gateway)
    → IsValid g
    → IsValid (record g { connected_users = delete user g.connected_users })
disconnected-IsValid user g h = record {
  users_distinct = IsDistinct-keys-delete user g.connected_users h.users_distinct;
  calls_distinct = h.calls_distinct;
  calls_open = h.calls_open;
}

invite-IsValid :
    (users : List String) (i : Incoming) (g : Gateway) (found : Option CallSession)
    → get i.call_id g.active_calls ≡ found
    → IsValid g
    → IsValid (send_call_invitation users i g).0
unfolding send_call_invitation
invite-IsValid users i g none e h = rw (e, send_call_invitation) h
invite-IsValid users i g (some c) e h =
    rw (e, send_call_invitation)
      (put_call-IsValid i.call_id _ g
        (invite-IsOpen i.call_id c users (All-get IsOpen i.call_id c g.active_calls h.calls_open e))
        h)

-- Every handler, on any arguments and whatever its services answer, keeps the gateway valid.
pub apply-IsValid : (a : Action) (g : Gateway) → IsValid g → IsValid (apply a g)
unfolding apply
apply-IsValid (connect verify s hs client_id) g h =
    unfold handle_connection in grind (arith, connected-IsValid)
apply-IsValid (disconnect now client) g h =
    unfold handle_disconnect in
    ground (
      arith,
      end_abandoned-IsValid now client g.active_calls
          (record g { connected_users = delete client.user_id g.connected_users }),
      disconnected-IsValid client.user_id g,
    )
apply-IsValid (initiate s c now call_id client req) g h =
    unfold handle_call_initiate in ground (arith, initiate-IsValid s now call_id client req g)
apply-IsValid (answer c now client call_id) g h =
    unfold handle_call_answer in answer-IsValid now client call_id g _ refl h
apply-IsValid (reject client call_id) g h =
    unfold handle_call_reject in ground (arith, delete_call-IsValid call_id g h)
apply-IsValid (end now client call_id) g h = end-IsValid now client call_id g h
apply-IsValid (invite users i) g h = invite-IsValid users i g _ refl h

-- So it is valid after any run from the start.
pub run-IsValid : (actions : List Action) (g : Gateway) → IsValid g → IsValid (run actions g)
unfolding run
run-IsValid [] g h = h
run-IsValid (a ∷ rest) g h = run-IsValid rest (apply a g) (apply-IsValid a g h)
