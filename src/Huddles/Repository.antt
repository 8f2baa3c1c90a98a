-- ===== src/Huddles/Repository.antt =====
-- src/modules/huddle/repositories/huddle.repository.ts over a collection of huddles. What is found is
-- given without the fields of the users that the queries populate.
use backend_gateway.Base.{
  ℕ, zero, suc, ◌+◌, ◌-◌, ◌/◌, String, Bool, false, Option, none, some, List, [], ◌∷◌, ◌++◌, ◌==◌,
  string_eq, ltb, not, ◌&&◌, ◌||◌, any, take, change_where, Collection, Reply, reply, refuse,
  not_found,
}
use backend_gateway.Huddles.Document.{
  HuddleParticipant, Huddle, ParticipantUpdates, ended, is_active, is_given, or_given,
}

-- `'participants.userId': user`
abbrev pub takes_part : String → Huddle → Bool
takes_part user h = any (λ p. p.user_id == user) h.participants

-- `'participants.leftAt': null`, which one participant of any id fulfils.
abbrev pub has_present : Huddle → Bool
has_present h = any (λ p. not (is_given p.left_at)) h.participants

-- The query of `findActiveByUserId`.
abbrev pub is_in : String → Huddle → Bool
is_in user h =
    is_active h.status && (h.initiator_id == user || (takes_part user h && has_present h))

abbrev pub in_room : String → Huddle → Bool
in_room room h = h.room_id == room

-- `$set` of the fields that are given.
unfoldable pub updated : ParticipantUpdates → HuddleParticipant → HuddleParticipant
updated u p = record p {
  is_audio_enabled = or_given u.is_audio_enabled p.is_audio_enabled;
  is_video_enabled = or_given u.is_video_enabled p.is_video_enabled;
  is_muted = or_given u.is_muted p.is_muted;
  left_at = elim u.left_at [ none ↦ p.left_at | some t ↦ some t ];
}

-- `participants.$`: the first participant with the id.
unfoldable pub update_first : String → ParticipantUpdates → Huddle → Huddle
unfolding updated
update_first user u h = record h {
  participants = change_where (λ p. p.user_id == user) (updated u) h.participants;
}

unfoldable pub pushed : HuddleParticipant → Huddle → Huddle
pushed p h = record h { participants = h.participants ++ p ∷ [] }

-- The end, and the duration that is saved after.
unfoldable pub with_end : ℕ → Huddle → Huddle
with_end now h = record h {
  status = ended;
  ended_at = some now;
  duration = (now - h.started_at) / 1000;
}

abbrev pub left_now : ℕ → ParticipantUpdates
left_now now = record {
  is_audio_enabled = none;
  is_video_enabled = none;
  is_muted = none;
  left_at = some now;
}

abbrev pub change_at :
    ℕ → (HuddleParticipant → HuddleParticipant) → List HuddleParticipant → List HuddleParticipant
change_at i f [] = []
change_at zero f (p ∷ ps) = f p ∷ ps
change_at (suc i) f (p ∷ ps) = p ∷ change_at i f ps

abbrev is_of : String → Option String → Bool
is_of chat none = false
is_of chat (some c) = c == chat

abbrev ended_before : ℕ → Option ℕ → Bool
ended_before cutoff none = false
ended_before cutoff (some t) = ltb t cutoff

abbrev pub is_old : ℕ → Huddle → Bool
is_old cutoff h = not (is_active h.status) && ended_before cutoff h.ended_at

abbrev pub initiated_by : String → Huddle → Bool
initiated_by user h = is_active h.status && h.initiator_id == user

abbrev pub is_joined_by : String → Huddle → Bool
is_joined_by user h = (is_active h.status && takes_part user h) && has_present h

abbrev pub stopped : ℕ → Huddle → Huddle
stopped now h = record h { status = ended; ended_at = some now }

abbrev pub left_where : (List HuddleParticipant → ℕ) → ℕ → Huddle → Huddle
left_where position now h = record h {
  participants =
      change_at (position h.participants) (λ p. record p { left_at = some now }) h.participants;
}

module _ {S : Type 0} (c : Collection Huddle S) where
  unfoldable pub create : Huddle → S → S
  create h s = c.insert h s

  unfoldable pub find_by_room_id : String → S → Option Huddle
  find_by_room_id room s = c.find_one (in_room room) s

  unfoldable pub find_active_by_user_id : String → S → Option Huddle
  find_active_by_user_id user s = c.find_one (is_in user) s

  unfoldable pub find_active_by_chat_id : String → S → List Huddle
  find_active_by_chat_id chat s =
      c.find_sorted (λ h. is_of chat h.chat_id && is_active h.status) (λ h. h.created_at) s

  -- `findOneAndUpdate` with the document after the update, and its check.
  unfoldable pub find_one_and_update :
      (Huddle → Bool) → (Huddle → Huddle) → String → S → S × Reply Huddle
  find_one_and_update p f message s = elim (c.find_one p s) [
    | none ↦ (s, refuse (not_found message))
    | some h ↦ (c.update_one p f s, reply (f h))
  ]

  unfoldable pub add_participant : String → HuddleParticipant → S → S × Reply Huddle
  unfolding find_one_and_update pushed
  add_participant room p s = find_one_and_update (in_room room) (pushed p) "Huddle not found" s

  unfoldable pub update_participant_of : String → String → ParticipantUpdates → S → S × Reply Huddle
  unfolding find_one_and_update update_first
  update_participant_of room user u s =
      find_one_and_update (λ h. in_room room h && takes_part user h) (update_first user u)
        "Huddle or participant not found" s

  unfoldable pub remove_participant : ℕ → String → String → S → S × Reply Huddle
  unfolding update_participant_of
  remove_participant now room user s = update_participant_of room user (left_now now) s

  unfoldable pub end_huddle : ℕ → String → S → S × Reply Huddle
  unfolding find_one_and_update with_end
  end_huddle now room s = find_one_and_update (in_room room) (with_end now) "Huddle not found" s

  unfoldable pub get_history : String → ℕ → S → List Huddle
  get_history user limit s =
      take limit
        (c.find_sorted (λ h. h.initiator_id == user || takes_part user h) (λ h. h.created_at) s)

  unfoldable pub get_active_count : S → ℕ
  get_active_count s = c.count (λ h. is_active h.status) s

  -- `cutoff` is the day that `setDate` gives.
  unfoldable pub delete_old_huddles : ℕ → S → S × ℕ
  delete_old_huddles cutoff s = (c.delete_many (is_old cutoff) s, c.count (is_old cutoff) s)

  -- `position` is the place that the driver chooses for `$`, with two conditions on the array.
  unfoldable pub force_leave_all_huddles :
      (String → List HuddleParticipant → ℕ) → ℕ → String → S → S × ℕ
  force_leave_all_huddles position now user s =
      let s' = c.update_many (initiated_by user) (stopped now) s in
      (
        c.update_many (is_joined_by user) (left_where (position user) now) s',
        c.count (initiated_by user) s + c.count (is_joined_by user) s',
      )
