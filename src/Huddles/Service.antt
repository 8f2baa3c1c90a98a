-- ===== src/Huddles/Service.antt =====
-- src/modules/huddle/services: creation, participants and queries. `shown` is what `toString` gives
-- for the id of a participant where the user is populated.
use Prim.Native.String.{◌++◌ as ◌<>◌}
use backend_gateway.Base.{
  ℕ, zero, suc, ◌+◌, ◌/◌, ◌%◌, String, Bool, true, false, Option, none, some, List, [], ◌∷◌, map,
  ◌==◌, string_eq, nat_eq, if◌then◌else◌, ltb, not, ◌&&◌, any, filter, length, includes, Collection,
  Reply, reply, refuse, not_found, conflict, bad_request,
}
use backend_gateway.Huddles.Document.{
  HuddleParticipant, Huddle, CreateHuddle, JoinHuddle, ParticipantUpdates, HuddleMessage, is_video,
  is_active, is_given, or_given, create_participant, create_huddle_data,
}
use backend_gateway.Huddles.Repository.{
  create, find_by_room_id, find_active_by_user_id, add_participant, update_participant_of,
  remove_participant, end_huddle, get_history,
}

abbrev pub present : List HuddleParticipant → List HuddleParticipant
present ps = filter (λ p. not (is_given p.left_at)) ps

unfoldable pub duration_text : (ℕ → String) → ℕ → String
duration_text print d =
    if ltb 0 (d / 60)
    then print (d / 60) <> ("m " <> (print (d % 60) <> "s"))
    else print (d % 60) <> "s"

abbrev plural : ℕ → String
plural n = if n == 1 then "" else "s"

unfoldable pub end_content : (ℕ → String) → Huddle → String
unfolding duration_text
end_content print h =
    (if is_video h.type_of then "Video" else "Audio")
    <> (" Huddle ended • "
        <> (print (length h.participants)
            <> (" participant"
                <> (plural (length h.participants) <> (" • " <> duration_text print h.duration)))))

-- A failure to send is caught, so the message that is sent is given beside the result.
unfoldable pub create_huddle_end_message : (ℕ → String) → String → Huddle → HuddleMessage
unfolding end_content
create_huddle_end_message print chat h = record {
  chat_id = chat;
  sender_id = h.initiator_id;
  content = end_content print h;
  room_id = h.room_id;
  participant_count = length h.participants;
  duration = h.duration;
  type_of = h.type_of;
  participants = h.participants;
}

abbrev is_other_room : String → Option Huddle → Bool
is_other_room room none = false
is_other_room room (some h) = not (h.room_id == room)

abbrev pub is_present : (String → String) → String → Huddle → Bool
is_present shown user h =
    any (λ p. shown p.user_id == user && not (is_given p.left_at)) h.participants

unfoldable pub announcement : (ℕ → String) → Huddle → Option HuddleMessage
unfolding create_huddle_end_message
announcement print h = elim h.chat_id [
  | none ↦ none
  | some chat ↦ some (create_huddle_end_message print chat h)
]

module _ {S : Type 0} (c : Collection Huddle S) where
  unfoldable pub create_huddle : ℕ → String → String → CreateHuddle → S → S × Reply Huddle
  unfolding create_huddle_data
  create_huddle now room user dto s = elim (find_active_by_user_id c user s) [
    | some h ↦ (
      s,
      refuse
          (conflict "User is already in an active huddle. Please leave the current huddle first."),
    )
    | none ↦ (
      create c (create_huddle_data now room user dto) s,
      reply (create_huddle_data now room user dto),
    )
  ]

  -- With the huddle of the room.
  unfoldable pub enter : (String → String) → ℕ → String → JoinHuddle → Huddle → S → S × Reply Huddle
  unfolding create_participant
  enter shown now user dto h s =
      if not (is_active h.status)
      then (s, refuse (bad_request "Huddle has ended"))
      else if is_present shown user h
      then (s, reply h)
      else add_participant c dto.room_id
          (create_participant now user (or_given dto.is_audio_enabled true)
            (or_given dto.is_video_enabled false))
          s

  unfoldable pub join_huddle : (String → String) → ℕ → String → JoinHuddle → S → S × Reply Huddle
  unfolding enter
  join_huddle shown now user dto s =
      if is_other_room dto.room_id (find_active_by_user_id c user s)
      then (s, refuse (conflict "User is already in another active huddle"))
      else elim (find_by_room_id c dto.room_id s) [
        | none ↦ (s, refuse (not_found "Huddle not found"))
        | some h ↦ enter shown now user dto h s
      ]

  -- The end of a huddle that nobody is in any more, with the message that it sends.
  unfoldable pub end_empty :
      (ℕ → String) → ℕ → String → S → S × Reply (Huddle × Option HuddleMessage)
  unfolding announcement
  end_empty print now room s =
      let (s', result) = end_huddle c now room s in
      elim result [ refuse e ↦ (s', refuse e) | reply h ↦ (s', reply (h, announcement print h)) ]

  unfoldable pub leave_huddle :
      (ℕ → String) → ℕ → String → String → S → S × Reply (Huddle × Option HuddleMessage)
  unfolding end_empty
  leave_huddle print now user room s = elim (find_by_room_id c room s) [
    | none ↦ (s, refuse (not_found "Huddle not found"))
    | some found ↦
        let (s', result) = remove_participant c now room user s in
        elim result [
          | refuse e ↦ (s', refuse e)
          | reply h ↦
              if length (present h.participants) == 0
              then end_empty print now room s'
              else (s', reply (h, none))
        ]
  ]

  unfoldable pub update_participant : String → String → ParticipantUpdates → S → S × Reply Huddle
  update_participant user room u s = elim (find_by_room_id c room s) [
    | none ↦ (s, refuse (not_found "Huddle not found"))
    | some h ↦
        if not (is_active h.status)
        then (s, refuse (bad_request "Huddle has ended"))
        else update_participant_of c room user u s
  ]

  unfoldable pub get_active_participants : String → S → Reply (List HuddleParticipant)
  get_active_participants room s = elim (find_by_room_id c room s) [
    | none ↦ refuse (not_found "Huddle not found")
    | some h ↦ reply (present h.participants)
  ]

  unfoldable pub invite_to_huddle :
      (String → String) → String → String → List String → S → Reply (List String × Huddle)
  invite_to_huddle shown inviter room users s = elim (find_by_room_id c room s) [
    | none ↦ refuse (not_found "Huddle not found")
    | some h ↦
        if not (is_active h.status)
        then refuse (bad_request "Huddle has ended")
        else if not (is_present shown inviter h)
        then refuse (bad_request "Only active participants can invite others")
        else reply (
          filter (λ u. not (includes (map (λ p. shown p.user_id) (present h.participants)) u))
              users,
          h,
        )
  ]

-- What `getUserStats` gives.
pub record HuddleStats : Type 0 where
  pub total_huddles : ℕ
  pub total_duration : ℕ
  pub average_duration : ℕ
  pub audio_count : ℕ
  pub video_count : ℕ

abbrev pub total : List Huddle → ℕ
total [] = 0
total (h ∷ hs) = h.duration + total hs

abbrev average : ℕ → ℕ → ℕ
average zero d = 0
average (suc n) d = d / suc n

unfoldable pub get_user_stats : {S : Type 0} → Collection Huddle S → String → S → HuddleStats
get_user_stats c user s =
    let hs = get_history c user 1000 s in
    record {
      total_huddles = length hs;
      total_duration = total hs;
      average_duration = average (length hs) (total hs);
      audio_count = length (filter (λ h. not (is_video h.type_of)) hs);
      video_count = length (filter (λ h. is_video h.type_of) hs);
    }
