-- ===== src/Huddles/Document.antt =====
-- src/modules/huddle: the schema, the transfer objects and the factory. The metadata, which nothing
-- reads, are left out.
use backend_gateway.Base.{ℕ, String, Bool, true, false, Option, none, some, List, [], ◌∷◌}

pub data HuddleType : Type 0 where
  audio video : HuddleType

pub data HuddleStatus : Type 0 where
  active ended : HuddleStatus

pub record HuddleParticipant : Type 0 where
  pub user_id : String
  pub joined_at : ℕ
  pub left_at : Option ℕ
  pub is_audio_enabled : Bool
  pub is_video_enabled : Bool
  pub is_muted : Bool

pub record Huddle : Type 0 where
  pub initiator_id : String
  pub chat_id : Option String
  pub type_of : HuddleType
  pub status : HuddleStatus
  pub participants : List HuddleParticipant
  pub started_at : ℕ
  pub ended_at : Option ℕ
  pub duration : ℕ
  pub room_id : String
  pub created_at : ℕ

pub record CreateHuddle : Type 0 where
  pub type_of : HuddleType
  pub chat_id : Option String
  pub is_video_enabled : Option Bool
  pub is_audio_enabled : Option Bool

pub record JoinHuddle : Type 0 where
  pub room_id : String
  pub is_video_enabled : Option Bool
  pub is_audio_enabled : Option Bool

-- `Partial<HuddleParticipant>`, of which the repository reads these.
pub record ParticipantUpdates : Type 0 where
  pub is_audio_enabled : Option Bool
  pub is_video_enabled : Option Bool
  pub is_muted : Option Bool
  pub left_at : Option ℕ

-- What `createMessage` is called with when a huddle ends.
pub record HuddleMessage : Type 0 where
  pub chat_id : String
  pub sender_id : String
  pub content : String
  pub room_id : String
  pub participant_count : ℕ
  pub duration : ℕ
  pub type_of : HuddleType
  pub participants : List HuddleParticipant

abbrev pub is_video : HuddleType → Bool
is_video audio = false
is_video video = true

abbrev pub is_active : HuddleStatus → Bool
is_active active = true
is_active ended = false

-- `a ?? b`
abbrev pub or_given {ℓ} : {A : Type ℓ} → Option A → A → A
or_given none b = b
or_given (some a) b = a

abbrev pub is_given {ℓ} : {A : Type ℓ} → Option A → Bool
is_given none = false
is_given (some a) = true

unfoldable pub create_participant : ℕ → String → Bool → Bool → HuddleParticipant
create_participant now user audio_on video_on = record {
  user_id = user;
  joined_at = now;
  left_at = none;
  is_audio_enabled = audio_on;
  is_video_enabled = video_on;
  is_muted = false;
}

-- `createHuddleData`, with a new room id, as it is stored.
unfoldable pub create_huddle_data : ℕ → String → String → CreateHuddle → Huddle
unfolding create_participant
create_huddle_data now room user dto = record {
  initiator_id = user;
  chat_id = dto.chat_id;
  type_of = dto.type_of;
  status = active;
  participants =
      create_participant now user (or_given dto.is_audio_enabled true)
        (or_given dto.is_video_enabled (is_video dto.type_of))
      ∷ [];
  started_at = now;
  ended_at = none;
  duration = 0;
  room_id = room;
  created_at = now;
}
