-- ===== src/Webrtc/Routing.antt =====
-- Where a relayed message goes (src/gateways/webrtc.gateway.ts: the relays, with
-- `handleConnection` and `handleDisconnect`).
use backend_gateway.Base.{
  ℕ, String, some, [], ◌∷◌, ◌≡◌, ◌≢◌, string_eq, get-put, arith, Answer, ok, ==_refl,
}
use backend_gateway.Webrtc.State.{
  Gateway, Client, Services, offer, answer, ice_candidate, to_socket, success, socket_of,
}
use backend_gateway.Webrtc.Relay.{handle_offer, handle_answer, handle_ice_candidate}
use backend_gateway.Webrtc.Presence.{Handshake, token_of, handle_connection, handle_disconnect}
use backend_gateway.Webrtc.Leaving.{connected-handle_disconnect}

socket_of-connect :
    (verify : String → Answer String) (s : Services) (hs : Handshake)
    (client_id token user : String) (g : Gateway)
    → client_id ≢ ""
    → token_of hs ≡ some token
    → verify token ≡ ok user
    → socket_of (handle_connection verify s hs client_id g).0 user ≡ some client_id
unfolding handle_connection
socket_of-connect verify s hs client_id token user g real t v =
    rw (t, handle_connection)
      (rw (v, handle_connection)
        (ground (arith, get-put user user client_id g.connected_users, ==_refl user)))

-- Offers, answers and candidates for a user whose token was accepted go to its newest socket, and
-- to no other.
pub relay-connect :
    (verify : String → Answer String) (s : Services) (hs : Handshake)
    (client_id token user : String) (g : Gateway) (sender : Client) (k payload : String)
    → client_id ≢ ""
    → token_of hs ≡ some token
    → verify token ≡ ok user
    → let g' = (handle_connection verify s hs client_id g).0 in
      (handle_offer sender k user payload g'
        ≡ (to_socket client_id (offer k sender.user_id payload) ∷ [], success))
      × (handle_answer sender k user payload g'
          ≡ (to_socket client_id (answer k sender.user_id payload) ∷ [], success))
      × (handle_ice_candidate sender k user payload g'
          ≡ (to_socket client_id (ice_candidate k sender.user_id payload) ∷ [], success))
unfolding handle_offer handle_answer handle_ice_candidate
relay-connect verify s hs client_id token user g sender k payload real t v =
    let e = socket_of-connect verify s hs client_id token user g real t v in
    (ground (arith, e), ground (arith, e), ground (arith, e))

-- After the disconnect of a user nothing is sent to it, and the sender is told of success all the
-- same.
pub relay-disconnect :
    (now : ℕ) (client sender : Client) (g : Gateway) (k payload : String)
    → client.user_id ≢ ""
    → let g' = (handle_disconnect now client g).0 in
      (handle_offer sender k client.user_id payload g' ≡ ([], success))
      × (handle_answer sender k client.user_id payload g' ≡ ([], success))
      × (handle_ice_candidate sender k client.user_id payload g' ≡ ([], success))
unfolding handle_offer handle_answer handle_ice_candidate
relay-disconnect now client sender g k payload real =
    let e = connected-handle_disconnect now client g client.user_id real in
    let r = ==_refl client.user_id in
    (ground (arith, e, r), ground (arith, e, r), ground (arith, e, r))
