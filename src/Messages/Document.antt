-- ===== src/Messages/Document.antt =====
-- src/modules/messages/schemas/message.schema.ts. Of the metadata only that they are kept as they are
-- given matters, so they are a text.
use backend_gateway.Base.{ℕ, String, Bool, true, false, Option, List, ◌==◌, string_eq, ◌&&◌}

pub data MessageType : Type 0 where
  text image video audio file call huddle system : MessageType

pub record MessageReaction : Type 0 where
  pub emoji : String
  pub user_id : String
  pub created_at : ℕ

pub record MessageAttachment : Type 0 where
  pub kind : String
  pub url : String
  pub thumbnail_url : Option String
  pub file_name : Option String
  pub file_size : Option ℕ
  pub mime_type : Option String
  pub duration : Option ℕ
  pub width : Option ℕ
  pub height : Option ℕ

pub record MessageReadReceipt : Type 0 where
  pub user_id : String
  pub read_at : ℕ

pub record Message : Type 0 where
  pub id : String
  pub conversation_id : String
  pub sender_id : String
  pub kind : MessageType
  pub content : Option String
  pub encrypted_content : Option String
  pub attachments : List MessageAttachment
  pub reactions : List MessageReaction
  pub read_receipts : List MessageReadReceipt
  pub reply_to : Option String
  pub is_edited : Bool
  pub is_deleted : Bool
  pub deleted_at : Option ℕ
  pub is_forwarded : Bool
  pub forwarded_from : Option String
  pub metadata : Option String
  pub expires_at : Option ℕ
  pub is_expired : Bool
  pub created_at : ℕ

-- The arguments of `createMessage`.
pub record CreateMessage : Type 0 where
  pub conversation_id : String
  pub sender_id : String
  pub kind : MessageType
  pub content : Option String
  pub attachments : List MessageAttachment
  pub reply_to : Option String
  pub metadata : Option String
  pub is_forwarded : Bool
  pub forwarded_from : Option String
  pub expires_in_seconds : ℕ

abbrev pub is_text : MessageType → Bool
is_text text = true
is_text _ = false

abbrev pub is_reaction : String → String → MessageReaction → Bool
is_reaction user emoji r = r.user_id == user && r.emoji == emoji

abbrev pub is_receipt : String → MessageReadReceipt → Bool
is_receipt user r = r.user_id == user
