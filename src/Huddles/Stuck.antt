-- ===== src/Huddles/Stuck.antt =====
-- Users who left a huddle of src/modules/huddle and are not free.
use backend_gateway.Base.{
  ℕ, String, Bool, true, false, none, some, List, [], ◌∷◌, ◌++◌, Bool-cases, change_where, ◌≡◌,
  refl, ap, ◌∙◌, ◌==◌, nat_eq, string_eq, not, ◌&&◌, any, length, arith, inl, inr, Collection,
  reply,
}
use backend_gateway.Huddles.Document.{HuddleParticipant, Huddle, is_given}
use backend_gateway.Huddles.Repository.{
  has_present, in_room, updated, update_first, left_now, find_by_room_id,
}
use backend_gateway.Huddles.Service.{present, leave_huddle}
use backend_gateway.Huddles.Members.{leaves, none_present-has_present}
use backend_gateway.Huddles.Going.{remove_participant-some}

any_imp :
    (f g : HuddleParticipant → Bool) (ps : List HuddleParticipant)
    → ((p : HuddleParticipant) → f p ≡ true → g p ≡ true)
    → any f ps ≡ true
    → any g ps ≡ true
any_imp f g [] h k = ground arith
any_imp f g (p ∷ ps) h k = ground (arith, h p, any_imp f g ps h)

any_later :
    (user : String) (front rest : List HuddleParticipant) (p : HuddleParticipant)
    → any (λ q. q.user_id == user && not (is_given q.left_at)) rest ≡ true
    → any (λ q. q.user_id == user && not (is_given q.left_at)) (front ++ p ∷ rest) ≡ true
any_later user [] rest p k = ground (arith, k)
any_later user (q ∷ front) rest p k = ground (arith, any_later user front rest p k)

-- An entry that is not the user's first is not marked.
entry_stays :
    (now : ℕ) (user : String) (front rest : List HuddleParticipant) (p : HuddleParticipant)
    → p.user_id ≡ user
    → any (λ q. q.user_id == user && not (is_given q.left_at)) rest ≡ true
    → any
        (λ q. q.user_id == user && not (is_given q.left_at))
        (change_where (λ q. q.user_id == user) (updated (left_now now)) (front ++ p ∷ rest))
      ≡ true
unfolding updated
entry_stays now user [] rest p u k = ground (arith, u, k)
entry_stays now user (q ∷ front) rest p u k = elim (Bool-cases (q.user_id == user)) [
  | inl e ↦ ground (arith, e, any_later user front rest p k)
  | inr e ↦ ground (arith, e, entry_stays now user front rest p u k)
]

second_stays :
    (now : ℕ) (user : String) (d : Huddle) (front rest : List HuddleParticipant)
    (p : HuddleParticipant)
    → d.participants ≡ front ++ p ∷ rest
    → p.user_id ≡ user
    → any (λ q. q.user_id == user && not (is_given q.left_at)) rest ≡ true
    → (any
          (λ q. q.user_id == user && not (is_given q.left_at))
          (update_first user (left_now now) d).participants
        ≡ true)
      × (has_present (update_first user (left_now now) d) ≡ true)
unfolding update_first
second_stays now user d front rest p g u k =
    let stays = entry_stays now user front rest p u k in
    (
      rw g stays,
      rw g (
          any_imp (λ q. q.user_id == user && not (is_given q.left_at))
            (λ q. not (is_given q.left_at))
            (change_where (λ q. q.user_id == user) (updated (left_now now)) (front ++ p ∷ rest))
            (λ q i. ground arith) stays),
    )

module _ {S : Type 0} (c : Collection Huddle S) where
  -- A leave after which somebody is there.
  leave_huddle-others :
      (print : ℕ → String) (now : ℕ) (user room : String) (s : S) (x d : Huddle)
      → c.find_one (in_room room) s ≡ some x
      → c.find_one (leaves user room) s ≡ some d
      → has_present (update_first user (left_now now) d) ≡ true
      → leave_huddle c print now user room s ≡ (
        c.update_one (leaves user room) (update_first user (left_now now)) s,
        reply (update_first user (left_now now) d, none),
      )
  unfolding leave_huddle find_by_room_id
  leave_huddle-others print now user room s x d e f k =
      let present_left : (length (present (update_first user (left_now now) d).participants) == 0)
          ≡ false =
        none_present-has_present (update_first user (left_now now) d) ∙ ap not k in
      rw
        (
          e,
          leave_huddle,
          remove_participant-some c now user room s d f,
          remove_participant-some c now user room s d f,
          present_left,
        )
        refl

  -- Wherever the entries stand, an entry of a user that is present and not the first stays when the
  -- user leaves: only the first is marked, and the huddle does not end.
  pub leave_huddle-twice :
      (print : ℕ → String) (now : ℕ) (user room : String) (s : S) (x d : Huddle)
      (front rest : List HuddleParticipant) (p : HuddleParticipant)
      → c.find_one (in_room room) s ≡ some x
      → c.find_one (leaves user room) s ≡ some d
      → d.participants ≡ front ++ p ∷ rest
      → p.user_id ≡ user
      → any (λ q. q.user_id == user && not (is_given q.left_at)) rest ≡ true
      → ((leave_huddle c print now user room s).1
          ≡ reply (update_first user (left_now now) d, none))
        × (any
              (λ q. q.user_id == user && not (is_given q.left_at))
              (update_first user (left_now now) d).participants
            ≡ true)
  leave_huddle-twice print now user room s x d front rest p e f g u k =
      let (stays, here) = second_stays now user d front rest p g u k in
      (ap (λ r. r.1) (leave_huddle-others print now user room s x d e f here), stays)
