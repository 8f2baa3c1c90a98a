-- ===== src/Huddles/Forced.antt =====
-- What forced leaves keep (`forceLeaveAllHuddles` of
-- src/modules/huddle/repositories/huddle.repository.ts).
use backend_gateway.Base.{
  ℕ, zero, suc, ◌≤◌, String, Bool, true, some, List, [], ◌∷◌, ◌≡◌, refl, ◌==◌, string_eq, any,
  arith, Collection, change_all, count_where, count-change_all,
}
use backend_gateway.Huddles.Document.{HuddleParticipant, Huddle}
use backend_gateway.Huddles.Repository.{
  in_room, change_at, initiated_by, is_joined_by, stopped, left_where, force_leave_all_huddles,
}
use backend_gateway.Huddles.Members.{is_member, is_ghost}
use backend_gateway.Huddles.Sound.{IsSound}

takes_part-change_at :
    (user : String) (i now : ℕ) (ps : List HuddleParticipant)
    → any (λ p. p.user_id == user) (change_at i (λ p. record p { left_at = some now }) ps)
      ≡ any (λ p. p.user_id == user) ps
takes_part-change_at user i now [] = refl
takes_part-change_at user zero now (p ∷ ps) = refl
takes_part-change_at user (suc i) now (p ∷ ps) = ground (arith, takes_part-change_at user i now ps)

module _ {S : Type 0} (c : Collection Huddle S) (position : String → List HuddleParticipant → ℕ)
    (now : ℕ) (user : String) where
  -- No more huddles pass a test that neither change makes pass.
  count-force_leave :
      (p : Huddle → Bool) (s : S)
      → ((d : Huddle) → p (stopped now d) ≡ true → p d ≡ true)
      → ((d : Huddle) → p (left_where (position user) now d) ≡ true → p d ≡ true)
      → count_where p (c.docs (force_leave_all_huddles c position now user s).0)
        ≤ count_where p (c.docs s)
  unfolding force_leave_all_huddles
  count-force_leave p s h k =
      rw
        (
          c.update_many_law (is_joined_by user) (left_where (position user) now)
              (c.update_many (initiated_by user) (stopped now) s),
          c.update_many_law (initiated_by user) (stopped now) s,
        )
        (let one = count-change_all p (initiated_by user) (stopped now) (c.docs s) (λ d i. h d) in
          let two =
            count-change_all p (is_joined_by user) (left_where (position user) now)
              (change_all (initiated_by user) (stopped now) (c.docs s)) (λ d i. k d) in
          omega (arith, one, two))

  -- A forced leave of a user keeps the huddles sound if it leaves somebody in each active one.
  pub IsSound-force_leave :
      (s : S)
      → count_where is_ghost (c.docs (force_leave_all_huddles c position now user s).0) ≡ 0
      → IsSound (c.docs s)
      → IsSound (c.docs (force_leave_all_huddles c position now user s).0)
  IsSound-force_leave s none_left h = record {
    one_room = λ room.
        (let less = count-force_leave (in_room room) s (λ d i. i) (λ d i. i) in
          let lim = h.one_room room in omega (arith, less, lim));
    no_ghost = none_left;
    one_huddle = λ w.
        (let less =
            count-force_leave (is_member w) s (λ d i. ground arith)
              (λ d i. ground (
                arith,
                takes_part-change_at w (position user d.participants) now d.participants,
              )) in
          let lim = h.one_huddle w in omega (arith, less, lim));
  }
