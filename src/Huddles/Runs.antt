-- ===== src/Huddles/Runs.antt =====
-- Runs of requests of src/modules/huddle: a user is in one active huddle at most.
use backend_gateway.Base.{
  ℕ, String, Bool, Option, none, List, [], ◌∷◌, ◌≡◌, refl, nat_eq, string_eq, Collection,
  count_where,
}
use backend_gateway.Huddles.Document.{HuddleParticipant, Huddle, CreateHuddle, JoinHuddle}
use backend_gateway.Huddles.Repository.{
  in_room, end_huddle, delete_old_huddles, force_leave_all_huddles,
}
use backend_gateway.Huddles.Service.{create_huddle, join_huddle, leave_huddle, update_participant}
use backend_gateway.Huddles.Members.{is_ghost}
use backend_gateway.Huddles.Forced.{IsSound-force_leave}
use backend_gateway.Huddles.Sound.{
  IsSound, IsSound-end_huddle, IsSound-delete_old_huddles, IsSound-update_participant,
  IsSound-create_huddle,
}
use backend_gateway.Huddles.Coming.{IsSound-join_huddle}
use backend_gateway.Huddles.Going.{IsSound-leave_huddle}

pub data Request : Type 0 where
  creation : (now : ℕ) (room user : String) → CreateHuddle → Request
  entry : (now : ℕ) (user : String) → JoinHuddle → Request
  leaving : (now : ℕ) (user room : String) → Request
  change : (user room : String) (audio_on video_on muted : Option Bool) → Request
  ending : (now : ℕ) (room : String) → Request
  cleaning : (cutoff : ℕ) → Request
  forced_leave : (now : ℕ) (user : String) → Request

-- `position` is the place that the driver chooses in a forced leave.
module _ {S : Type 0} (c : Collection Huddle S) (shown : String → String) (print : ℕ → String)
    (position : String → List HuddleParticipant → ℕ) where
  unfoldable pub handle : Request → S → S
  handle (creation now room user dto) s = (create_huddle c now room user dto s).0
  handle (entry now user dto) s = (join_huddle c shown now user dto s).0
  handle (leaving now user room) s = (leave_huddle c print now user room s).0
  handle (change user room audio_on video_on muted) s =
      (update_participant c user room
        (record {
          is_audio_enabled = audio_on;
          is_video_enabled = video_on;
          is_muted = muted;
          left_at = none;
        })
        s).0
  handle (ending now room) s = (end_huddle c now room s).0
  handle (cleaning cutoff) s = (delete_old_huddles c cutoff s).0
  handle (forced_leave now user) s = (force_leave_all_huddles c position now user s).0

  abbrev pub run : List Request → S → S
  run [] s = s
  run (r ∷ rs) s = run rs (handle r s)

  -- A new room has no huddle yet, and a forced leave, which ends no huddle that it empties, leaves
  -- somebody in each active one.
  abbrev pub IsRegular : Request → S → Type 0
  IsRegular (creation now room user dto) s = count_where (in_room room) (c.docs s) ≡ 0
  IsRegular (forced_leave now user) s =
      count_where is_ghost (c.docs (force_leave_all_huddles c position now user s).0) ≡ 0
  IsRegular r s = Unit

  abbrev pub AreRegular : List Request → S → Type 0
  AreRegular [] s = Unit
  AreRegular (r ∷ rs) s = IsRegular r s × AreRegular rs (handle r s)

  IsSound-handle :
      (r : Request) (s : S) → IsRegular r s → IsSound (c.docs s) → IsSound (c.docs (handle r s))
  unfolding handle
  IsSound-handle (creation now room user dto) s new h =
      IsSound-create_huddle c now room user dto s new h
  IsSound-handle (entry now user dto) s new h = IsSound-join_huddle c shown now user dto s h
  IsSound-handle (leaving now user room) s new h = IsSound-leave_huddle c print now user room s h
  IsSound-handle (change user room audio_on video_on muted) s new h =
      IsSound-update_participant c user room _ s refl h
  IsSound-handle (ending now room) s new h = IsSound-end_huddle c now room s h
  IsSound-handle (cleaning cutoff) s new h = IsSound-delete_old_huddles c cutoff s h
  IsSound-handle (forced_leave now user) s new h = IsSound-force_leave c position now user s new h

  -- Whatever requests are served, one after the other, nobody is in two active huddles, no active
  -- huddle is left by all, and a room has one huddle, if it was so before: as long as each new
  -- huddle gets a new room, and each forced leave leaves somebody in every active huddle.
  pub run-IsSound :
      (rs : List Request) (s : S)
      → AreRegular rs s
      → IsSound (c.docs s)
      → IsSound (c.docs (run rs s))
  run-IsSound [] s new h = h
  run-IsSound (r ∷ rs) s (one, new) h = run-IsSound rs (handle r s) new (IsSound-handle r s one h)
