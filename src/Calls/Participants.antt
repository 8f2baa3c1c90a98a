-- ===== src/Calls/Participants.antt =====
-- The participants of a stored call (src/modules/calls/calls.service.ts).
use backend_gateway.Base.{
  ℕ, String, Bool, true, false, Option, none, some, List, [], ◌∷◌, ◌++◌, ◌≡◌, ◌≢◌, refl, sym, ap,
  subst, ◌==◌, string_eq, includes, includes-append, IsDistinct, map, not, ◌||◌, ◌&&◌, arith, reply,
  ==_refl, All,
}
use backend_gateway.Webrtc.State.{Client, Services}
use backend_gateway.Webrtc.Calls.{CallRequest, new_session}
use backend_gateway.Calls.Document.{CallParticipant, Call, CreateCall}
use backend_gateway.Calls.Service.{
  create, other_participants, ids_or_none, join_call, invite_to_call, change_first, mark_joined,
  users, new_users, invitee,
}

includes-users-other :
    (joined : Option ℕ) (user u : String) (ids : List String)
    → includes (users (other_participants joined user ids)) u ≡ (not (user == u) && includes ids u)
unfolding other_participants
includes-users-other joined user u [] = ground arith
includes-users-other joined user u (i ∷ ids) =
    ground (arith, includes-users-other joined user u ids)

users-create :
    (now : ℕ) (joined : Option ℕ) (user : String) (dto : CreateCall)
    → users (create now joined user dto).participants
      ≡ user ∷ users (other_participants joined user (ids_or_none dto.participant_ids))
unfolding create
users-create now joined user dto = refl

participants-new_session :
    (s : Services) (now : ℕ) (call_id : String) (client : Client) (req : CallRequest)
    → (new_session s now call_id client req).participants ≡ client.user_id ∷ req.participants
unfolding new_session
participants-new_session s now call_id client req = refl

-- The session that the gateway keeps of a call and the document that the service creates for it
-- have the same participants, whatever ids are asked for.
pub create-new_session :
    (s : Services) (now : ℕ) (call_id : String) (client : Client) (req : CallRequest)
    (joined : Option ℕ) (dto : CreateCall) (u : String)
    → dto.participant_ids ≡ some req.participants
    → includes (users (create now joined client.user_id dto).participants) u
      ≡ includes (new_session s now call_id client req).participants u
create-new_session s now call_id client req joined dto u e = ground (
  arith,
  users-create now joined client.user_id dto,
  participants-new_session s now call_id client req,
  includes-users-other joined client.user_id u req.participants,
)

IsDistinct-users-other :
    (joined : Option ℕ) (user : String) (ids : List String)
    → IsDistinct ids
    → IsDistinct (users (other_participants joined user ids))
unfolding other_participants
IsDistinct-users-other joined user [] d = tt
IsDistinct-users-other joined user (i ∷ ids) d =
    ground (arith, includes-users-other joined user i ids, IsDistinct-users-other joined user ids)

-- A call that is created for different ids lists nobody twice, its initiator neither.
pub create-IsDistinct :
    (now : ℕ) (joined : Option ℕ) (user : String) (dto : CreateCall)
    → IsDistinct (ids_or_none dto.participant_ids)
    → IsDistinct (users (create now joined user dto).participants)
create-IsDistinct now joined user dto d =
    let ids = ids_or_none dto.participant_ids in
    subst IsDistinct (sym (users-create now joined user dto)) (
      ground (arith, includes-users-other joined user user ids, ==_refl user),
      IsDistinct-users-other joined user ids d,
    )

abbrev HasJoined : CallParticipant → Type 0
HasJoined p = p.joined_at ≢ none

change_first-joined :
    (now : ℕ) (user : String) (ps : List CallParticipant)
    → All HasJoined ps
    → change_first user (mark_joined now) ps ≡ ps
unfolding change_first mark_joined
change_first-joined now user [] h = refl
change_first-joined now user (p ∷ ps) h = ground (arith, h.0, change_first-joined now user ps h.1)

other-HasJoined :
    (t : ℕ) (user : String) (ids : List String)
    → All HasJoined (other_participants (some t) user ids)
unfolding other_participants
other-HasJoined t user [] = tt
other-HasJoined t user (i ∷ ids) = ground (arith, other-HasJoined t user ids)

create-HasJoined :
    (now t : ℕ) (user : String) (dto : CreateCall)
    → All HasJoined (create now (some t) user dto).participants
unfolding create
create-HasJoined now t user dto =
    ((λ e. cc), other-HasJoined t user (ids_or_none dto.participant_ids))

change_first_twice :
    (now later : ℕ) (user : String) (ps : List CallParticipant)
    → change_first user (mark_joined later) (change_first user (mark_joined now) ps)
      ≡ change_first user (mark_joined now) ps
unfolding change_first mark_joined
change_first_twice now later user [] = refl
change_first_twice now later user (p ∷ ps) = ground (arith, change_first_twice now later user ps)

users-append-invitees :
    (now : ℕ) (ps : List CallParticipant) (ids : List String)
    → users (ps ++ map (invitee now) ids) ≡ users ps ++ ids
users-append-invitees now [] [] = refl
users-append-invitees now [] (i ∷ ids) = ap (◌∷◌ i) (users-append-invitees now [] ids)
users-append-invitees now (p ∷ ps) ids = ap (◌∷◌ p.user_id) (users-append-invitees now ps ids)

not-IsDistinct-append : (xs : List String) (u : String) → ¬ IsDistinct (xs ++ (u ∷ u ∷ []))
not-IsDistinct-append [] u d = ground (arith, ==_refl u)
not-IsDistinct-append (x ∷ xs) u d = not-IsDistinct-append xs u d.1

invited_lem :
    (now : ℕ) (c c' : Call) (ids invited : List String)
    → invite_to_call now (some c) ids ≡ reply (c', invited)
    → (invited ≡ new_users c.participants ids)
      × (users c'.participants ≡ users c.participants ++ new_users c.participants ids)
unfolding invite_to_call
invited_lem now c c' ids invited h = (
  ground arith,
  ground (arith, users-append-invitees now c.participants (new_users c.participants ids)),
)

includes-new_users :
    (ps : List CallParticipant) (ids : List String) (u : String)
    → includes (new_users ps ids) u ≡ (includes ids u && not (includes (users ps) u))
includes-new_users ps [] u = refl
includes-new_users ps (i ∷ ids) u = ground (arith, includes-new_users ps ids u)

-- With a default for `joinedAt`, as the schema has, everybody counts as joined from the start:
-- joining a call that was just created changes nothing in it.
pub join_call-create :
    (is_object_id : String → Bool) (now t later : ℕ) (user u id : String) (dto : CreateCall)
    → is_object_id id ≡ true
    → join_call is_object_id later id (some (create now (some t) user dto)) u
      ≡ reply (some (create now (some t) user dto))
unfolding join_call
join_call-create is_object_id now t later user u id dto h = rw h (
    ap (λ ps. reply (some (record (create now (some t) user dto) { participants = ps })))
      (change_first-joined later u (create now (some t) user dto).participants
        (create-HasJoined now t user dto)))

-- Joining a second time changes nothing.
pub join_call_twice :
    (is_object_id : String → Bool) (now later : ℕ) (c c' : Call) (user id : String)
    → join_call is_object_id now id (some c) user ≡ reply (some c')
    → join_call is_object_id later id (some c') user ≡ reply (some c')
unfolding join_call
join_call_twice is_object_id now later c c' user id h =
    ground (arith, change_first_twice now later user c.participants)

-- After an invitation the participants are those before and the ids of the request, and the ids
-- reported are those of the request that were not participants.
pub invite_to_call-users :
    (now : ℕ) (c c' : Call) (ids invited : List String) (u : String)
    → invite_to_call now (some c) ids ≡ reply (c', invited)
    → (includes (users c'.participants) u ≡ (includes (users c.participants) u || includes ids u))
      × (includes invited u ≡ (includes ids u && not (includes (users c.participants) u)))
invite_to_call-users now c c' ids invited u h =
    let (reported, after) = invited_lem now c c' ids invited h in
    (
      ground (
        arith,
        after,
        includes-append (users c.participants) (new_users c.participants ids) u,
        includes-new_users c.participants ids u,
      ),
      rw reported (includes-new_users c.participants ids u),
    )

-- An id that the request names twice, and that is no participant yet, becomes a participant twice.
pub invite_to_call_duplicate :
    (now : ℕ) (c c' : Call) (u : String) (invited : List String)
    → includes (users c.participants) u ≡ false
    → invite_to_call now (some c) (u ∷ u ∷ []) ≡ reply (c', invited)
    → ¬ IsDistinct (users c'.participants)
invite_to_call_duplicate now c c' u invited new h d =
    let after = (invited_lem now c c' (u ∷ u ∷ []) invited h).1 in
    not-IsDistinct-append (users c.participants) u (subst IsDistinct (ground (arith, after)) d)
