-- ===== src/Huddles/Tests.antt =====
-- Huddles at concrete inputs, and the theorems applied there.
use native.Mathlib.Decide.{ℕ_discrete}
use backend_gateway.Base.{
  ℕ, String, String_discrete, true, false, Option, none, some, List, [], ◌∷◌, ◌≡◌, refl, ◌==◌,
  string_eq, nat_eq, ◌&&◌, not, any, arith, listed, reply, length,
}
use backend_gateway.Huddles.Document.{
  audio, Huddle, HuddleParticipant, CreateHuddle, JoinHuddle, active, is_given, create_participant,
  create_huddle_data,
}
use backend_gateway.Huddles.Repository.{
  updated, update_first, pushed, with_end, create, find_by_room_id, find_active_by_user_id,
  find_one_and_update, add_participant, update_participant_of, remove_participant, end_huddle,
  delete_old_huddles, force_leave_all_huddles, left_now, get_history,
}
use backend_gateway.Huddles.Service.{
  duration_text, end_content, create_huddle_end_message, announcement, create_huddle, enter,
  join_huddle, end_empty, leave_huddle, update_participant, get_user_stats,
}
use backend_gateway.Huddles.Sound.{IsSound}
use backend_gateway.Huddles.Runs.{
  Request, creation, entry, leaving, forced_leave, handle, run, run-IsSound,
}
use backend_gateway.Huddles.Stuck.{leave_huddle-twice}

program : Unit {0}
unfolding String_discrete ℕ_discrete create_participant create_huddle_data updated update_first
    pushed with_end create find_by_room_id find_active_by_user_id find_one_and_update
    add_participant update_participant_of remove_participant end_huddle delete_old_huddles
    get_history duration_text end_content create_huddle_end_message announcement create_huddle enter
    join_huddle end_empty leave_huddle update_participant get_user_stats force_leave_all_huddles
    handle
program = tt

abbrev start_audio : CreateHuddle
start_audio = record {
  type_of = audio;
  chat_id = none;
  is_video_enabled = none;
  is_audio_enabled = none;
}

abbrev to_room : JoinHuddle
to_room = record { room_id = "r1"; is_video_enabled = none; is_audio_enabled = none }

abbrev shown : String → String
shown user = user

abbrev print : ℕ → String
print n = "n"

abbrev position : String → List HuddleParticipant → ℕ
position user ps = 1

abbrev empty_store : List Huddle
empty_store = []

abbrev requests : List Request
requests =
    creation 1000 "r1" "ann" start_audio
    ∷ entry 2000 "bob" to_room
    ∷ leaving 3000 "ann" "r1"
    ∷ entry 4000 "ann" to_room
    ∷ []

abbrev after : List Huddle
after = run (listed Huddle) shown print position requests empty_store

comes_back : length after ≡ 1
unfolding program
comes_back = refl

empty-IsSound : IsSound []
empty-IsSound = record {
  one_room = λ r. ground arith;
  no_ghost = refl;
  one_huddle = λ u. ground arith;
}

-- Then bob, who has the second entry, is forced to leave.
abbrev then_forced : List Request
then_forced =
    creation 1000 "r1" "ann" start_audio ∷ entry 2000 "bob" to_room ∷ forced_leave 5000 "bob" ∷ []

run-IsSound_example : IsSound (run (listed Huddle) shown print position then_forced empty_store)
unfolding program
run-IsSound_example =
    run-IsSound (listed Huddle) shown print position then_forced empty_store
      (refl, (tt, (refl, tt))) empty-IsSound

abbrev entry_of : String → ℕ → Option ℕ → HuddleParticipant
entry_of user joined left = record {
  user_id = user;
  joined_at = joined;
  left_at = left;
  is_audio_enabled = true;
  is_video_enabled = false;
  is_muted = false;
}

abbrev huddle_of : List HuddleParticipant → Huddle
huddle_of ps = record {
  initiator_id = "ann";
  chat_id = none;
  type_of = audio;
  status = active;
  participants = ps;
  started_at = 1000;
  ended_at = none;
  duration = 0;
  room_id = "r1";
  created_at = 1000;
}

abbrev two_in : Huddle
two_in = huddle_of (entry_of "ann" 1000 none ∷ entry_of "bob" 2000 none ∷ [])

abbrev ann_back : Huddle
ann_back =
    huddle_of
      (entry_of "ann" 1000 (some 3000) ∷ entry_of "bob" 2000 none ∷ entry_of "ann" 4000 none ∷ [])

came_back : after ≡ ann_back ∷ []
unfolding program
came_back = refl

leave_huddle-twice_example :
    ((leave_huddle (listed Huddle) print 5000 "ann" "r1" (ann_back ∷ [])).1
      ≡ reply (update_first "ann" (left_now 5000) ann_back, none))
    × (any
          (λ q. q.user_id == "ann" && not (is_given q.left_at))
          (update_first "ann" (left_now 5000) ann_back).participants
        ≡ true)
unfolding program
leave_huddle-twice_example =
    leave_huddle-twice (listed Huddle) print 5000 "ann" "r1" (ann_back ∷ []) ann_back ann_back []
      (entry_of "bob" 2000 none ∷ entry_of "ann" 4000 none ∷ []) (entry_of "ann" 1000 (some 3000))
      refl refl refl refl refl
