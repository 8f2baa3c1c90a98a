-- ===== src/Webrtc/Relay.antt =====
-- src/gateways/webrtc.gateway.ts: the handlers that pass a message on (`webrtc:offer`,
-- `webrtc:answer`, `webrtc:ice-candidate`, `call:toggle-audio`, `call:toggle-video`). None changes
-- the two maps. A session description or a candidate is a text.
use backend_gateway.Base.{String, Bool, Option, none, some, List, [], ◌∷◌}
use backend_gateway.Webrtc.State.{
  Gateway, Client, Event, offer, answer, ice_candidate, audio_toggled, video_toggled, Effect,
  to_socket, to_others, Response, success, socket_of,
}

abbrev pub send_to : Option String → Event → List Effect
send_to none e = []
send_to (some socket) e = to_socket socket e ∷ []

unfoldable pub handle_offer : Client → String → String → String → Gateway → List Effect × Response
handle_offer client call_id target sdp g =
    (send_to (socket_of g target) (offer call_id client.user_id sdp), success)

unfoldable pub handle_answer : Client → String → String → String → Gateway → List Effect × Response
handle_answer client call_id target sdp g =
    (send_to (socket_of g target) (answer call_id client.user_id sdp), success)

unfoldable pub handle_ice_candidate :
    Client → String → String → String → Gateway → List Effect × Response
handle_ice_candidate client call_id target candidate g =
    (send_to (socket_of g target) (ice_candidate call_id client.user_id candidate), success)

unfoldable pub handle_toggle_audio : Client → String → Bool → List Effect × Response
handle_toggle_audio client call_id enabled =
    (to_others client.id call_id (audio_toggled client.user_id enabled) ∷ [], success)

unfoldable pub handle_toggle_video : Client → String → Bool → List Effect × Response
handle_toggle_video client call_id enabled =
    (to_others client.id call_id (video_toggled client.user_id enabled) ∷ [], success)
