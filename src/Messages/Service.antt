-- ===== src/Messages/Service.antt =====
-- src/modules/messages/messages.service.ts over a collection of messages and the conversations. What
-- AES makes of a text is an argument.
use backend_gateway.Base.{
  ℕ, ◌+◌, ◌*◌, String, Bool, true, false, Option, none, some, List, [], ◌∷◌, ◌++◌, ◌==◌, string_eq,
  if◌then◌else◌, ltb, not, ◌&&◌, any, filter, take, Collection, Reply, reply, refuse, not_found,
  forbidden,
}
use backend_gateway.Conversations.Document.{Driver}
use backend_gateway.Conversations.Service.{update_last_message}
use backend_gateway.Messages.Document.{
  MessageType, Message, CreateMessage, is_text, is_reaction, is_receipt,
}

abbrev pub has_id : String → Message → Bool
has_id id m = m.id == id

-- A content that is there, not empty and of a text.
unfoldable pub encrypted : (String → String) → MessageType → Option String → Option String
encrypted encrypt kind none = none
encrypted encrypt kind (some t) = if not (t == "") && is_text kind then some (encrypt t) else none

unfoldable pub new_message : (String → String) → ℕ → String → CreateMessage → Message
unfolding encrypted
new_message encrypt now id o = record {
  id = id;
  conversation_id = o.conversation_id;
  sender_id = o.sender_id;
  kind = o.kind;
  content = o.content;
  encrypted_content = encrypted encrypt o.kind o.content;
  attachments = o.attachments;
  reactions = [];
  read_receipts = [];
  reply_to = o.reply_to;
  is_edited = false;
  is_deleted = false;
  deleted_at = none;
  is_forwarded = o.is_forwarded;
  forwarded_from = o.forwarded_from;
  metadata = o.metadata;
  expires_at =
      if ltb 0 o.expires_in_seconds then some (now + o.expires_in_seconds * 1000) else none;
  is_expired = false;
  created_at = now;
}

unfoldable pub edited : (String → String) → String → Message → Message
edited encrypt content m = record m {
  content = some content;
  encrypted_content = some (encrypt content);
  is_edited = true;
}

unfoldable pub deleted : ℕ → Message → Message
deleted now m = record m {
  is_deleted = true;
  deleted_at = some now;
  content = none;
  encrypted_content = none;
  attachments = [];
}

unfoldable pub reacted : ℕ → String → String → Message → Message
reacted now user emoji m = record m {
  reactions = m.reactions ++ (record { emoji = emoji; user_id = user; created_at = now }) ∷ [];
}

unfoldable pub unreacted : String → String → Message → Message
unreacted user emoji m = record m {
  reactions = filter (λ r. not (is_reaction user emoji r)) m.reactions;
}

unfoldable pub read_by : ℕ → String → Message → Message
read_by now user m = record m {
  read_receipts = m.read_receipts ++ (record { user_id = user; read_at = now }) ∷ [];
}

abbrev pub is_shown : String → Message → Bool
is_shown conversation m = m.conversation_id == conversation && not m.is_deleted

module _ {S : Type 0} (c : Collection Message S) where
  unfoldable pub create_message :
      {T : Type 0}
      → Driver T
      → (String → String)
      → ℕ
      → String
      → CreateMessage
      → S × T
      → (S × T) × Message
  unfolding new_message
  create_message d encrypt now id o (s, t) = (
    (c.insert (new_message encrypt now id o) s, update_last_message d o.conversation_id id t),
    new_message encrypt now id o,
  )

  unfoldable pub find_by_id : String → S → Reply Message
  find_by_id id s = elim (c.find_one (has_id id) s) [
    | none ↦ refuse (not_found "Message not found")
    | some m ↦ reply m
  ]

  unfoldable pub get_conversation_messages : String → ℕ → Option String → S → Reply (List Message)
  unfolding find_by_id
  get_conversation_messages conversation limit none s =
      reply (take limit (c.find_sorted (is_shown conversation) (λ m. m.created_at) s))
  get_conversation_messages conversation limit (some before) s = elim (find_by_id before s) [
    | refuse e ↦ refuse e
    | reply b ↦ reply (
        take limit (
          c.find_sorted (λ m. is_shown conversation m && ltb m.created_at b.created_at)
            (λ m. m.created_at) s))
  ]

  -- `findByIdAndUpdate` with the document after the update, and its check.
  unfoldable pub find_by_id_and_update : String → (Message → Message) → S → S × Reply Message
  find_by_id_and_update id f s = elim (c.find_one (has_id id) s) [
    | none ↦ (s, refuse (not_found "Message not found"))
    | some m ↦ (c.update_one (has_id id) f s, reply (f m))
  ]

  unfoldable pub edit_message : (String → String) → String → String → String → S → S × Reply Message
  unfolding find_by_id find_by_id_and_update edited
  edit_message encrypt id user content s = elim (find_by_id id s) [
    | refuse e ↦ (s, refuse e)
    | reply m ↦
        if not (m.sender_id == user)
        then (s, refuse (forbidden "You can only edit your own messages"))
        else if not (is_text m.kind)
        then (s, refuse (forbidden "Only text messages can be edited"))
        else find_by_id_and_update id (edited encrypt content) s
  ]

  unfoldable pub delete_message : ℕ → String → String → S → S × Reply Message
  unfolding find_by_id find_by_id_and_update deleted
  delete_message now id user s = elim (find_by_id id s) [
    | refuse e ↦ (s, refuse e)
    | reply m ↦
        if not (m.sender_id == user)
        then (s, refuse (forbidden "You can only delete your own messages"))
        else find_by_id_and_update id (deleted now) s
  ]

  unfoldable pub add_reaction : ℕ → String → String → String → S → S × Reply Message
  unfolding find_by_id find_by_id_and_update reacted
  add_reaction now id user emoji s = elim (find_by_id id s) [
    | refuse e ↦ (s, refuse e)
    | reply m ↦
        if any (is_reaction user emoji) m.reactions
        then (s, reply m)
        else find_by_id_and_update id (reacted now user emoji) s
  ]

  unfoldable pub remove_reaction : String → String → String → S → S × Reply Message
  unfolding find_by_id_and_update unreacted
  remove_reaction id user emoji s = find_by_id_and_update id (unreacted user emoji) s

  unfoldable pub add_read_receipt : ℕ → String → String → S → S × Reply (Unit {0})
  unfolding find_by_id read_by
  add_read_receipt now id user s = elim (find_by_id id s) [
    | refuse e ↦ (s, refuse e)
    | reply m ↦
        if any (is_receipt user) m.read_receipts
        then (s, reply tt)
        else (c.update_one (has_id id) (read_by now user) s, reply tt)
  ]

  unfoldable pub clear_conversation_messages : ℕ → String → S → S
  unfolding deleted
  clear_conversation_messages now conversation s =
      c.update_many (is_shown conversation) (deleted now) s
