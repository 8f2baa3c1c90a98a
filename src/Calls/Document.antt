-- ===== src/Calls/Document.antt =====
-- src/modules/calls/schemas/call.schema.ts, and the transfer objects of src/modules/calls/dto.
use backend_gateway.Base.{ℕ, String, Bool, true, false, Option, List}
use backend_gateway.Webrtc.State.{CallType}

pub data CallStatus : Type 0 where
  ongoing completed missed rejected failed : CallStatus

pub record CallParticipant : Type 0 where
  pub user_id : String
  pub joined_at : Option ℕ
  pub left_at : Option ℕ
  pub is_initiator : Bool

pub record Call : Type 0 where
  pub conversation_id : Option String
  pub initiator_id : String
  pub call_type : CallType
  pub status : CallStatus
  pub participants : List CallParticipant
  pub started_at : Option ℕ
  pub ended_at : Option ℕ
  pub duration : ℕ
  pub is_group_call : Bool

pub record CreateCall : Type 0 where
  pub conversation_id : Option String
  pub call_type : CallType
  pub participant_ids : Option (List String)
  pub is_group_call : Option Bool

pub record UpdateCall : Type 0 where
  pub status : Option CallStatus
  pub duration : Option ℕ

-- What `createCallEndMessage` hands to `MessagesService.createMessage`.
pub record EndMessage : Type 0 where
  pub conversation_id : String
  pub sender_id : String
  pub content : String
  pub status : CallStatus
  pub duration : ℕ

-- The document that `update` saves, and the message that it sends before.
pub record Updated : Type 0 where
  pub call : Call
  pub message : Option EndMessage

abbrev pub is_final : CallStatus → Bool
is_final ongoing = false
is_final _ = true
