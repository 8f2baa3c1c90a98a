-- ===== src/Huddles/Sound.antt =====
-- The invariant of the stored huddles of src/modules/huddle, and the requests that keep it without a
-- word on who comes and goes.
use backend_gateway.Base.{
  ℕ, ◌≤◌, String, Bool, true, none, List, ◌∷◌, ◌≡◌, refl, sym, ◌∙◌, nat_eq, string_eq, not, ◌&&◌,
  arith, Bool-cases, Option-cases, inl, inr, Collection, count_where, count-change_where,
  count-filter, count_imp, count_split,
}
use backend_gateway.Huddles.Document.{
  Huddle, CreateHuddle, ParticipantUpdates, is_active, create_participant, create_huddle_data,
}
use backend_gateway.Huddles.Repository.{
  takes_part, is_in, in_room, update_first, with_end, is_old, create, find_by_room_id,
  find_active_by_user_id, find_one_and_update, update_participant_of, end_huddle,
  delete_old_huddles,
}
use backend_gateway.Huddles.Service.{create_huddle, update_participant}
use backend_gateway.Huddles.Members.{
  is_member, is_ghost, member_or_ghost, takes_part-update_first, has_present-update_first,
}

-- Nobody is in two active huddles, no active huddle is left by all, and a room has one huddle.
pub record IsSound (ds : List Huddle) : Type 0 where
  pub one_room : (room : String) → count_where (in_room room) ds ≤ 1
  pub no_ghost : count_where is_ghost ds ≡ 0
  pub one_huddle : (user : String) → count_where (is_member user) ds ≤ 1

IsSound-created :
    (now : ℕ) (room user : String) (dto : CreateHuddle) (ds : List Huddle)
    → IsSound ds
    → count_where (in_room room) ds ≡ 0
    → count_where (is_member user) ds ≡ 0
    → IsSound (create_huddle_data now room user dto ∷ ds)
unfolding create_huddle_data create_participant
IsSound-created now room user dto ds h new free = record {
  one_room = λ r. (let lim = h.one_room r in ground arith);
  no_ghost = ground (arith, h.no_ghost);
  one_huddle = λ u. (let lim = h.one_huddle u in ground arith);
}

module _ {S : Type 0} (c : Collection Huddle S) where
  -- A user who is found in no active huddle is a member of none.
  pub not_found-member :
      (user : String) (s : S)
      → IsSound (c.docs s)
      → c.find_one (is_in user) s ≡ none
      → count_where (is_member user) (c.docs s) ≡ 0
  not_found-member user s h e = ground (
    arith,
    h.no_ghost,
    c.find_one_none (is_in user) s e,
    count_split (is_member user) (is_in user) (c.docs s),
    count_imp (λ x. is_member user x && is_in user x) (is_in user) (c.docs s) (λ x i. ground arith),
    count_imp (λ x. is_member user x && not (is_in user x)) is_ghost (c.docs s)
        (λ x i. member_or_ghost user x (ground arith) (ground arith)),
  )

  -- A change of one huddle after which it is in its room and not in a worse state.
  IsSound-update_one :
      (q : Huddle → Bool) (f : Huddle → Huddle) (s : S)
      → IsSound (c.docs s)
      → ((room : String) (d : Huddle) → in_room room (f d) ≡ in_room room d)
      → ((d : Huddle) → q d ≡ true → is_ghost (f d) ≡ true → is_ghost d ≡ true)
      → ((user : String) (d : Huddle)
          → q d ≡ true
          → is_member user (f d) ≡ true
          → is_member user d ≡ true)
      → IsSound (c.docs (c.update_one q f s))
  IsSound-update_one q f s h r g m = rw (c.update_one_law q f s) record {
    one_room = λ room.
        (let less =
            count-change_where (in_room room) q f (c.docs s) (λ d i j. sym (r room d) ∙ j) in
          let lim = h.one_room room in omega (arith, less, lim));
    no_ghost =
        (let less = count-change_where is_ghost q f (c.docs s) g in
          let lim = h.no_ghost in omega (arith, less, lim));
    one_huddle = λ user.
        (let less = count-change_where (is_member user) q f (c.docs s) (m user) in
          let lim = h.one_huddle user in omega (arith, less, lim));
  }

  pub IsSound-find_one_and_update :
      (q : Huddle → Bool) (f : Huddle → Huddle) (message : String) (s : S)
      → IsSound (c.docs s)
      → ((room : String) (d : Huddle) → in_room room (f d) ≡ in_room room d)
      → ((d : Huddle) → q d ≡ true → is_ghost (f d) ≡ true → is_ghost d ≡ true)
      → ((user : String) (d : Huddle)
          → q d ≡ true
          → is_member user (f d) ≡ true
          → is_member user d ≡ true)
      → IsSound (c.docs (find_one_and_update c q f message s).0)
  unfolding find_one_and_update
  IsSound-find_one_and_update q f message s h r g m = elim (Option-cases (c.find_one q s)) [
    | inl e ↦ rw (e, find_one_and_update) h
    | inr (d, e) ↦ rw (e, find_one_and_update) (IsSound-update_one q f s h r g m)
  ]

  pub IsSound-end_huddle :
      (now : ℕ) (room : String) (s : S)
      → IsSound (c.docs s)
      → IsSound (c.docs (end_huddle c now room s).0)
  unfolding end_huddle with_end
  IsSound-end_huddle now room s h =
      IsSound-find_one_and_update (in_room room) (with_end now) "Huddle not found" s h (λ r d. refl)
        (λ d i j. ground arith) (λ u d i j. ground arith)

  pub IsSound-delete_old_huddles :
      (cutoff : ℕ) (s : S) → IsSound (c.docs s) → IsSound (c.docs (delete_old_huddles c cutoff s).0)
  unfolding delete_old_huddles
  IsSound-delete_old_huddles cutoff s h = rw (c.delete_many_law (is_old cutoff) s) record {
    one_room = λ room.
        (let less = count-filter (in_room room) (λ x. not (is_old cutoff x)) (c.docs s) in
          let lim = h.one_room room in omega (arith, less, lim));
    no_ghost =
        (let less = count-filter is_ghost (λ x. not (is_old cutoff x)) (c.docs s) in
          let lim = h.no_ghost in omega (arith, less, lim));
    one_huddle = λ user.
        (let less = count-filter (is_member user) (λ x. not (is_old cutoff x)) (c.docs s) in
          let lim = h.one_huddle user in omega (arith, less, lim));
  }

  pub IsSound-update_participant :
      (user room : String) (u : ParticipantUpdates) (s : S)
      → u.left_at ≡ none
      → IsSound (c.docs s)
      → IsSound (c.docs (update_participant c user room u s).0)
  unfolding update_participant update_participant_of
  IsSound-update_participant user room u s e h =
      let sound =
        IsSound-find_one_and_update (λ x. in_room room x && takes_part user x) (update_first user u)
          "Huddle or participant not found" s h (λ r d. refl)
          (λ d i j. ground (arith, has_present-update_first user u d e))
          (λ v d i j. ground (arith, takes_part-update_first v user u d)) in
      elim (Option-cases (find_by_room_id c room s)) [
        | inl k ↦ rw (k, update_participant) h
        | inr (d, k) ↦ elim (Bool-cases (is_active d.status)) [
          | inl m ↦ rw (k, update_participant, m) sound
          | inr m ↦ rw (k, update_participant, m) h
        ]
      ]

  pub IsSound-create_huddle :
      (now : ℕ) (room user : String) (dto : CreateHuddle) (s : S)
      → count_where (in_room room) (c.docs s) ≡ 0
      → IsSound (c.docs s)
      → IsSound (c.docs (create_huddle c now room user dto s).0)
  unfolding create_huddle create find_active_by_user_id
  IsSound-create_huddle now room user dto s new h =
      elim (Option-cases (c.find_one (is_in user) s)) [
        | inr (d, e) ↦ rw (find_active_by_user_id, e, create_huddle) h
        | inl e ↦
            rw (find_active_by_user_id, e, create_huddle)
              (rw (c.insert_law (create_huddle_data now room user dto) s)
                (IsSound-created now room user dto (c.docs s) h new (not_found-member user s h e)))
      ]
