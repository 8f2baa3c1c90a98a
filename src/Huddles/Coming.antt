-- ===== src/Huddles/Coming.antt =====
-- A user who joins a huddle of src/modules/huddle is in no other active one.
use backend_gateway.Base.{
  ℕ, ◌≤◌, ◌<◌, String, true, none, some, ◌≡◌, refl, ◌⊎◌, ◌==◌, nat_eq, string_eq, not, ◌&&◌, ◌||◌,
  arith, Bool-cases, Option-cases, inl, inr, Collection, change_where, count_where,
  count-change_where, count-change_where_seen, count-change_where_more,
}
use backend_gateway.Huddles.Document.{
  HuddleParticipant, Huddle, JoinHuddle, is_active, create_participant,
}
use backend_gateway.Huddles.Repository.{
  is_in, in_room, pushed, find_by_room_id, find_active_by_user_id, find_one_and_update,
  add_participant,
}
use backend_gateway.Huddles.Service.{enter, join_huddle, is_present}
use backend_gateway.Huddles.Members.{is_member, is_ghost, takes_part-pushed, has_present-pushed}
use backend_gateway.Huddles.Sound.{IsSound, not_found-member}

module _ {S : Type 0} (c : Collection Huddle S) where
  -- A user who comes to a room is a member of no huddle yet, or of the one in the room.
  one_huddle-pushed :
      (user v room : String) (p : HuddleParticipant) (s : S)
      → IsSound (c.docs s)
      → p.user_id ≡ user
      → (count_where (is_member user) (c.docs s) ≡ 0)
        ⊎ (0
            < count_where
                (λ d. in_room room d && (is_member user d || not (is_member user (pushed p d))))
                (c.docs s))
      → count_where (is_member v) (change_where (in_room room) (pushed p) (c.docs s)) ≤ 1
  unfolding pushed
  one_huddle-pushed user v room p s h e k = elim (Bool-cases (user == v)) [
    | inr m ↦
        (let less =
            count-change_where (is_member v) (in_room room) (pushed p) (c.docs s)
              (λ d i j. ground (arith, takes_part-pushed v p d, e, m)) in
          let lim = h.one_huddle v in omega (arith, less, lim))
    | inl m ↦ elim k [
      | inl z ↦
          (let more = count-change_where_more (is_member v) (in_room room) (pushed p) (c.docs s) in
            ground (arith, more, z, m))
      | inr z ↦
          (let less =
              count-change_where_seen (is_member user) (in_room room) (pushed p) (c.docs s)
                (h.one_room room) z in
            let lim = h.one_huddle user in ground (arith, less, lim, m))
    ]
  ]

  IsSound-add_participant :
      (user room : String) (p : HuddleParticipant) (s : S)
      → IsSound (c.docs s)
      → p.user_id ≡ user
      → p.left_at ≡ none
      → (count_where (is_member user) (c.docs s) ≡ 0)
        ⊎ (0
            < count_where
                (λ d. in_room room d && (is_member user d || not (is_member user (pushed p d))))
                (c.docs s))
      → IsSound (c.docs (add_participant c room p s).0)
  unfolding add_participant find_one_and_update
  IsSound-add_participant user room p s h e l k =
      elim (Option-cases (c.find_one (in_room room) s)) [
        | inl m ↦ rw (m, find_one_and_update) h
        | inr (d, m) ↦
            rw (m, find_one_and_update)
              (rw (c.update_one_law (in_room room) (pushed p) s) record {
                one_room = λ r.
                    (let less =
                        count-change_where (in_room r) (in_room room) (pushed p) (c.docs s)
                          (λ x i j. j) in
                      let lim = h.one_room r in omega (arith, less, lim));
                no_ghost =
                    (let less =
                        count-change_where is_ghost (in_room room) (pushed p) (c.docs s)
                          (λ x i j. ground (arith, has_present-pushed p x l)) in
                      let lim = h.no_ghost in omega (arith, less, lim));
                one_huddle = λ v. one_huddle-pushed user v room p s h e k;
              })
      ]

  IsSound-enter :
      (shown : String → String) (now : ℕ) (user : String) (dto : JoinHuddle) (found : Huddle)
      (s : S)
      → IsSound (c.docs s)
      → (count_where (is_member user) (c.docs s) ≡ 0)
        ⊎ ((d : Huddle) × (c.find_one (is_in user) s ≡ some d) × (in_room dto.room_id d ≡ true))
      → IsSound (c.docs (enter c shown now user dto found s).0)
  unfolding enter create_participant
  IsSound-enter shown now user dto found s h k = elim (Bool-cases (is_active found.status)) [
    | inr a ↦ rw (a, enter) h
    | inl a ↦ elim (Bool-cases (is_present shown user found)) [
      | inl b ↦ rw (a, b, enter) h
      | inr b ↦
          rw (a, b, enter)
            (IsSound-add_participant user dto.room_id (create_participant now user _ _) s h refl
              refl
              (elim k [
                | inl z ↦ inl z
                | inr (d, e, m) ↦ inr (
                    let (i, see) = c.find_one_some (is_in user) s d e in
                    see _ (ground (arith, i, m)))
              ]))
    ]
  ]

  pub IsSound-join_huddle :
      (shown : String → String) (now : ℕ) (user : String) (dto : JoinHuddle) (s : S)
      → IsSound (c.docs s)
      → IsSound (c.docs (join_huddle c shown now user dto s).0)
  unfolding join_huddle find_active_by_user_id find_by_room_id
  IsSound-join_huddle shown now user dto s h = elim (Option-cases (c.find_one (is_in user) s)) [
    | inl e ↦ elim (Option-cases (c.find_one (in_room dto.room_id) s)) [
      | inl f ↦ rw (e, f, join_huddle) h
      | inr (d, f) ↦
          rw (e, f, join_huddle)
            (IsSound-enter shown now user dto d s h (inl (not_found-member c user s h e)))
    ]
    | inr (x, e) ↦ elim (Bool-cases (x.room_id == dto.room_id)) [
      | inr m ↦ rw (e, m, join_huddle) h
      | inl m ↦ elim (Option-cases (c.find_one (in_room dto.room_id) s)) [
        | inl f ↦ rw (e, m, f, join_huddle) h
        | inr (d, f) ↦
            rw (e, m, f, join_huddle) (IsSound-enter shown now user dto d s h (inr (x, e, m)))
      ]
    ]
  ]
