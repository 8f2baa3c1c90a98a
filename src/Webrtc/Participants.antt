-- ===== src/Webrtc/Participants.antt =====
-- The list of participants that `sendCallInvitation` extends (src/gateways/webrtc.gateway.ts).
use backend_gateway.Base.{
  String, List, [], ◌∷◌, ◌++◌, ◌≡◌, string_eq, includes, IsDistinct, includes-append,
  IsDistinct-append_one, arith, ◌||◌,
}
use backend_gateway.Webrtc.Calls.{add_participants}

-- After an invitation the participants are the old ones and the invited ones, and nobody else.
pub includes-add_participants :
    (ps us : List String) (a : String)
    → includes (add_participants ps us) a ≡ (includes ps a || includes us a)
unfolding add_participants
includes-add_participants ps [] a = ground arith
includes-add_participants ps (u ∷ us) a = ground (
  arith,
  includes-add_participants ps us a,
  includes-add_participants (ps ++ u ∷ []) us a,
  includes-append ps (u ∷ []) a,
)

-- No participant is listed twice by it.
pub IsDistinct-add_participants :
    (ps us : List String) → IsDistinct ps → IsDistinct (add_participants ps us)
unfolding add_participants
IsDistinct-add_participants ps [] h = h
IsDistinct-add_participants ps (u ∷ us) h = ground (
  arith,
  IsDistinct-add_participants ps us,
  IsDistinct-add_participants (ps ++ u ∷ []) us,
  IsDistinct-append_one ps u,
)
