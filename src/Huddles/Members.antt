-- ===== src/Huddles/Members.antt =====
-- What the changes of src/modules/huddle/repositories/huddle.repository.ts do to who takes part in
-- one huddle.
use backend_gateway.Base.{
  String, Bool, true, false, none, List, [], ◌∷◌, ◌++◌, ◌≡◌, refl, ◌∙◌, ◌==◌, nat_eq, string_eq,
  not, ◌&&◌, ◌||◌, any, length, arith, change_where,
}
use backend_gateway.Huddles.Document.{
  HuddleParticipant, Huddle, ParticipantUpdates, is_active, is_given,
}
use backend_gateway.Huddles.Repository.{
  takes_part, has_present, is_in, in_room, updated, update_first, pushed,
}
use backend_gateway.Huddles.Service.{present}

-- An active huddle of the user: one that the user started or came to, also one that they left.
abbrev pub is_member : String → Huddle → Bool
is_member user h = is_active h.status && (h.initiator_id == user || takes_part user h)

-- An active huddle that everybody has left.
abbrev pub is_ghost : Huddle → Bool
is_ghost h = is_active h.status && not (has_present h)

pub member_or_ghost :
    (user : String) (h : Huddle)
    → is_member user h ≡ true
    → is_in user h ≡ false
    → is_ghost h ≡ true
member_or_ghost user h k m = ground arith

any-append :
    (f : HuddleParticipant → Bool) (ps : List HuddleParticipant) (p : HuddleParticipant)
    → any f (ps ++ p ∷ []) ≡ (any f ps || f p)
any-append f [] p = ground arith
any-append f (q ∷ ps) p = ground (arith, any-append f ps p)

any-change_where :
    (f q : HuddleParticipant → Bool) (g : HuddleParticipant → HuddleParticipant)
    (ps : List HuddleParticipant)
    → ((p : HuddleParticipant) → f (g p) ≡ f p)
    → any f (change_where q g ps) ≡ any f ps
any-change_where f q g [] h = refl
any-change_where f q g (p ∷ ps) h = ground (arith, h p, any-change_where f q g ps h)

pub takes_part-pushed :
    (user : String) (p : HuddleParticipant) (h : Huddle)
    → takes_part user (pushed p h) ≡ (takes_part user h || p.user_id == user)
unfolding pushed
takes_part-pushed user p h = any-append (λ x. x.user_id == user) h.participants p

pub has_present-pushed :
    (p : HuddleParticipant) (h : Huddle) → p.left_at ≡ none → has_present (pushed p h) ≡ true
unfolding pushed
has_present-pushed p h e =
    any-append (λ x. not (is_given x.left_at)) h.participants p ∙ rw e (ground arith)

pub takes_part-update_first :
    (v user : String) (u : ParticipantUpdates) (h : Huddle)
    → takes_part v (update_first user u h) ≡ takes_part v h
unfolding update_first updated
takes_part-update_first v user u h =
    any-change_where (λ x. x.user_id == v) (λ x. x.user_id == user) (updated u) h.participants
      (λ p. refl)

pub has_present-update_first :
    (user : String) (u : ParticipantUpdates) (h : Huddle)
    → u.left_at ≡ none
    → has_present (update_first user u h) ≡ has_present h
unfolding update_first updated
has_present-update_first user u h e =
    any-change_where (λ x. not (is_given x.left_at)) (λ x. x.user_id == user) (updated u)
      h.participants (λ p. rw e refl)

none_present-any :
    (ps : List HuddleParticipant)
    → (length (present ps) == 0) ≡ not (any (λ p. not (is_given p.left_at)) ps)
none_present-any [] = ground arith
none_present-any (p ∷ ps) = ground (arith, none_present-any ps)

pub none_present-has_present :
    (h : Huddle) → (length (present h.participants) == 0) ≡ not (has_present h)
none_present-has_present h = none_present-any h.participants

-- The test by which a leave finds its huddle.
abbrev pub leaves : String → String → Huddle → Bool
leaves user room d = in_room room d && takes_part user d
