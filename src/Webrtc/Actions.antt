-- ===== src/Webrtc/Actions.antt =====
-- Runs of the gateway of src/gateways/webrtc.gateway.ts: one action for each handler that may
-- change the state, with what its environment answers, and lists of them.
use backend_gateway.Base.{string_eq, ℕ, String, List, [], ◌∷◌, Answer, get, none, ◌≡◌}
use backend_gateway.Webrtc.State.{Gateway, Client, Incoming, Services, IceConfig}
use backend_gateway.Webrtc.Calls.{
  CallRequest, handle_call_initiate, handle_call_answer, handle_call_reject, handle_call_end,
  send_call_invitation,
}
use backend_gateway.Webrtc.Presence.{Handshake, handle_connection, handle_disconnect}

pub data Action : Type 0 where
  connect : (String → Answer String) → Services → Handshake → String → Action
  disconnect : ℕ → Client → Action
  initiate : Services → IceConfig → ℕ → String → Client → CallRequest → Action
  answer : IceConfig → ℕ → Client → String → Action
  reject : Client → String → Action
  end : ℕ → Client → String → Action
  invite : List String → Incoming → Action

unfoldable pub apply : Action → Gateway → Gateway
apply (connect verify s h client_id) g = (handle_connection verify s h client_id g).0
apply (disconnect now client) g = (handle_disconnect now client g).0
apply (initiate s c now call_id client req) g =
    (handle_call_initiate s c now call_id client req g).0
apply (answer c now client call_id) g = (handle_call_answer c now client call_id g).0
apply (reject client call_id) g = (handle_call_reject client call_id g).0
apply (end now client call_id) g = (handle_call_end now client call_id g).0
apply (invite users i) g = (send_call_invitation users i g).0

unfoldable pub run : List Action → Gateway → Gateway
run [] g = g
run (a ∷ rest) g = run rest (apply a g)

abbrev pub empty : Gateway
empty = record { connected_users = []; active_calls = [] }

-- The id that an `initiate` draws is not in use.
abbrev pub IsFresh : Action → Gateway → Type 0
IsFresh (initiate s c now call_id client req) g = get call_id g.active_calls ≡ none
IsFresh _ g = Unit
