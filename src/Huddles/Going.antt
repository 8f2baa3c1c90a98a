-- ===== src/Huddles/Going.antt =====
-- A huddle of src/modules/huddle that everybody has left ends.
use backend_gateway.Base.{
  ℕ, ◌≤◌, String, true, none, some, ◌≡◌, refl, sym, ◌⊎◌, ◌==◌, nat_eq, string_eq, not, ◌&&◌, ◌||◌,
  length, arith, Bool-cases, Option-cases, inl, inr, Collection, Reply, reply, Exception, subst,
  refuse, not_found, change_where, count_where, count-change_where, count_imp,
  count-change_where_seen, count_split, count-change_where_cover,
}
use backend_gateway.Huddles.Document.{Huddle}
use backend_gateway.Huddles.Repository.{
  takes_part, has_present, in_room, update_first, with_end, left_now, find_by_room_id,
  find_one_and_update, update_participant_of, remove_participant, end_huddle,
}
use backend_gateway.Huddles.Service.{present, end_empty, leave_huddle}
use backend_gateway.Huddles.Members.{
  is_member, is_ghost, takes_part-update_first, none_present-has_present,
}
use backend_gateway.Huddles.Members.{leaves}
use backend_gateway.Huddles.Sound.{IsSound}

Reply-cases :
    (r : Reply Huddle) → ((h : Huddle) × (r ≡ reply h)) ⊎ ((e : Exception) × (r ≡ refuse e))
Reply-cases (reply h) = inl (h, refl)
Reply-cases (refuse e) = inr (e, refl)

module _ {S : Type 0} (c : Collection Huddle S) where
  pub remove_participant-none :
      (now : ℕ) (user room : String) (s : S)
      → c.find_one (λ d. in_room room d && takes_part user d) s ≡ none
      → remove_participant c now room user s
        ≡ (s, refuse (not_found "Huddle or participant not found"))
  unfolding remove_participant update_participant_of find_one_and_update
  remove_participant-none now user room s e = rw (e, find_one_and_update) refl

  pub remove_participant-some :
      (now : ℕ) (user room : String) (s : S) (d : Huddle)
      → c.find_one (λ d. in_room room d && takes_part user d) s ≡ some d
      → remove_participant c now room user s ≡ (
        c.update_one
            (λ d. in_room room d && takes_part user d)
            (update_first user (left_now now))
            s,
        reply (update_first user (left_now now) d),
      )
  unfolding remove_participant update_participant_of find_one_and_update
  remove_participant-some now user room s d e = rw (e, find_one_and_update) refl

  one_room-left :
      (now : ℕ) (user room r : String) (s : S)
      → IsSound (c.docs s)
      → count_where
          (in_room r)
          (change_where (leaves user room) (update_first user (left_now now)) (c.docs s))
        ≤ 1
  unfolding update_first
  one_room-left now user room r s h =
      let less =
        count-change_where (in_room r) (leaves user room) (update_first user (left_now now))
          (c.docs s) (λ d i j. j) in
      let lim = h.one_room r in omega (arith, less, lim)

  one_huddle-left :
      (now : ℕ) (user room v : String) (s : S)
      → IsSound (c.docs s)
      → count_where
          (is_member v)
          (change_where (leaves user room) (update_first user (left_now now)) (c.docs s))
        ≤ 1
  unfolding update_first
  one_huddle-left now user room v s h =
      let less =
        count-change_where (is_member v) (leaves user room) (update_first user (left_now now))
          (c.docs s) (λ d i j. ground (arith, takes_part-update_first v user (left_now now) d)) in
      let lim = h.one_huddle v in omega (arith, less, lim)

  pub one_leaves :
      (user room : String) (s : S)
      → IsSound (c.docs s)
      → count_where (leaves user room) (c.docs s) ≤ 1
  one_leaves user room s h =
      let less = count_imp (leaves user room) (in_room room) (c.docs s) (λ d i. ground arith) in
      let lim = h.one_room room in omega (arith, less, lim)

  ghost_elsewhere :
      (now : ℕ) (user room : String) (s : S)
      → IsSound (c.docs s)
      → count_where
          (λ x. is_ghost x && not (in_room room x))
          (change_where (leaves user room) (update_first user (left_now now)) (c.docs s))
        ≡ 0
  unfolding update_first
  ghost_elsewhere now user room s h =
      let less =
        count-change_where (λ x. is_ghost x && not (in_room room x)) (leaves user room)
          (update_first user (left_now now)) (c.docs s) (λ d i j. ground arith) in
      let fewer =
        count_imp (λ x. is_ghost x && not (in_room room x)) is_ghost (c.docs s)
          (λ d i. ground arith) in
      let none_before = h.no_ghost in omega (arith, less, fewer, none_before)

  -- The end of the huddle in a room, where no other is a ghost.
  IsSound-end_ghost :
      (now : ℕ) (room : String) (s : S)
      → ((r : String) → count_where (in_room r) (c.docs s) ≤ 1)
      → count_where (λ x. is_ghost x && not (in_room room x)) (c.docs s) ≡ 0
      → ((v : String) → count_where (is_member v) (c.docs s) ≤ 1)
      → IsSound (c.docs (end_huddle c now room s).0)
  unfolding end_huddle with_end
  IsSound-end_ghost now room s one elsewhere member =
      elim (Option-cases (c.find_one (in_room room) s)) [
        | inl e ↦
            rw (e, find_one_and_update)
              record {
                one_room = one;
                no_ghost =
                    (let gone = c.find_one_none (in_room room) s e in
                      let split = count_split is_ghost (in_room room) (c.docs s) in
                      let few =
                        count_imp (λ x. is_ghost x && in_room room x) (in_room room) (c.docs s)
                          (λ d i. ground arith) in
                      omega (arith, gone, split, few, elsewhere));
                one_huddle = member;
              }
        | inr (d, e) ↦
            rw (e, find_one_and_update)
              (rw (c.update_one_law (in_room room) (with_end now) s) record {
                one_room = λ r.
                    (let less =
                        count-change_where (in_room r) (in_room room) (with_end now) (c.docs s)
                          (λ x i j. j) in
                      let lim = one r in omega (arith, less, lim));
                no_ghost =
                    count-change_where_cover is_ghost (in_room room) (with_end now) (c.docs s)
                      (one room) (λ x i. ground arith) elsewhere;
                one_huddle = λ v.
                    (let less =
                        count-change_where (is_member v) (in_room room) (with_end now) (c.docs s)
                          (λ x i j. ground arith) in
                      let lim = member v in omega (arith, less, lim));
              })
      ]

  -- A leave after which somebody is still there.
  IsSound-left :
      (now : ℕ) (user room : String) (s : S) (d : Huddle)
      → IsSound (c.docs s)
      → c.find_one (leaves user room) s ≡ some d
      → has_present (update_first user (left_now now) d) ≡ true
      → IsSound (c.docs (c.update_one (leaves user room) (update_first user (left_now now)) s))
  IsSound-left now user room s d h e k =
      let (i, see) = c.find_one_some (leaves user room) s d e in
      let some_left =
        see
          (λ x.
            leaves user room x
            && (is_ghost x || not (is_ghost (update_first user (left_now now) x))))
          (ground (arith, i, k)) in
      let less =
        count-change_where_seen is_ghost (leaves user room) (update_first user (left_now now))
          (c.docs s) (one_leaves user room s h) some_left in
      let none_before = h.no_ghost in
      let ghost_left : count_where is_ghost
            (change_where (leaves user room) (update_first user (left_now now)) (c.docs s))
          ≡ 0 =
        omega (arith, less, none_before) in
      rw (c.update_one_law (leaves user room) (update_first user (left_now now)) s) record {
        one_room = λ r. one_room-left now user room r s h;
        no_ghost = ghost_left;
        one_huddle = λ v. one_huddle-left now user room v s h;
      }

  -- A leave after which nobody is there: the ghost is in the room, and ends.
  IsSound-ended :
      (now : ℕ) (user room : String) (s : S)
      → IsSound (c.docs s)
      → IsSound (
          c.docs
            (end_huddle c now room
              (c.update_one (leaves user room) (update_first user (left_now now)) s)).0)
  IsSound-ended now user room s h =
      let s' = c.update_one (leaves user room) (update_first user (left_now now)) s in
      let law = c.update_one_law (leaves user room) (update_first user (left_now now)) s in
      IsSound-end_ghost now room s' (λ r. rw law (one_room-left now user room r s h))
        (rw law (ghost_elsewhere now user room s h))
        (λ v. rw law (one_huddle-left now user room v s h))

  end_empty-end_huddle :
      (print : ℕ → String) (now : ℕ) (room : String) (s : S)
      → (end_empty c print now room s).0 ≡ (end_huddle c now room s).0
  unfolding end_empty
  end_empty-end_huddle print now room s = elim (Reply-cases (end_huddle c now room s).1) [
    | inl (a, e) ↦ rw (e, end_empty) refl
    | inr (x, e) ↦ rw (e, end_empty) refl
  ]

  pub IsSound-leave_huddle :
      (print : ℕ → String) (now : ℕ) (user room : String) (s : S)
      → IsSound (c.docs s)
      → IsSound (c.docs (leave_huddle c print now user room s).0)
  unfolding leave_huddle find_by_room_id
  IsSound-leave_huddle print now user room s h = elim (Option-cases (c.find_one (in_room room) s)) [
    | inl e ↦ rw (e, leave_huddle) h
    | inr (x, e) ↦ elim (Option-cases (c.find_one (λ d. in_room room d && takes_part user d) s)) [
      | inl f ↦
          rw
            (
              e,
              leave_huddle,
              remove_participant-none now user room s f,
              remove_participant-none now user room s f,
            )
            h
      | inr (d, f) ↦
          elim (Bool-cases
            (length (present (update_first user (left_now now) d).participants) == 0)) [
              | inl m ↦
                  rw
                    (
                      e,
                      leave_huddle,
                      remove_participant-some now user room s d f,
                      remove_participant-some now user room s d f,
                      m,
                    )
                    (subst (λ x. IsSound (c.docs x)) (sym (end_empty-end_huddle print now room _))
                      (IsSound-ended now user room s h))
              | inr m ↦
                  rw
                    (
                      e,
                      leave_huddle,
                      remove_participant-some now user room s d f,
                      remove_participant-some now user room s d f,
                      m,
                    )
                    (IsSound-left now user room s d h f (
                      ground
                        (arith, none_present-has_present (update_first user (left_now now) d), m)))
            ]
    ]
  ]
