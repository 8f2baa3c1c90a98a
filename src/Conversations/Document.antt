-- ===== src/Conversations/Document.antt =====
-- src/modules/conversations/schemas/conversation.schema.ts, and what the service asks of the driver.
use backend_gateway.Base.{
  ℕ, String, Bool, Option, none, some, List, [], ◌∷◌, ◌++◌, ◌≡◌, ◌≢◌, ◌==◌, string_eq,
  if◌then◌else◌, includes, filter, not,
}

pub data ConversationType : Type 0 where
  single group : ConversationType

pub record ConversationParticipant : Type 0 where
  pub user_id : String
  pub last_read_message_id : Option String
  pub unread_count : ℕ
  pub is_muted : Bool
  pub is_pinned : Bool

pub record Conversation : Type 0 where
  pub kind : ConversationType
  pub name : Option String
  pub avatar : Option String
  pub description : Option String
  pub participants : List ConversationParticipant
  pub admins : List String
  pub created_by : String
  pub last_message : Option String
  pub is_archived : Bool
  pub is_locked : Bool
  pub pinned_messages : List String
  pub disappearing_messages_timer : ℕ

-- `Partial<Conversation>`, but for the times: the fields that `updateConversation` is given.
pub record Updates : Type 0 where
  pub kind : Option ConversationType
  pub name : Option String
  pub avatar : Option String
  pub description : Option String
  pub participants : Option (List ConversationParticipant)
  pub admins : Option (List String)
  pub created_by : Option String
  pub last_message : Option String
  pub is_archived : Option Bool
  pub is_locked : Option Bool
  pub pinned_messages : Option (List String)
  pub disappearing_messages_timer : Option ℕ

-- The changes that the service asks the driver for. Times are not kept.
pub data Change : Type 0 where
  add_to_participants : List String → Change
  pull_participant : String → Change
  set_last_message : String → Change
  set_read : String → String → Change
  set_muted : String → Bool → Change
  increment_unread : List String → Change
  set_fields : Updates → Change
  add_to_pinned : String → Change
  pull_pinned : String → Change
  set_timer : ℕ → Change

-- A change that is none of the pinned messages, nor of the timer.
abbrev pub IsElsewhere : Change → Type 0
IsElsewhere (add_to_pinned m) = ⊥
IsElsewhere (pull_pinned m) = ⊥
IsElsewhere (set_timer t) = ⊥
IsElsewhere (set_fields u) = (u.pinned_messages ≡ none) × (u.disappearing_messages_timer ≡ none)
IsElsewhere _ = Unit

-- The driver: documents by their ids, and what a change makes of a document. The laws are the ones
-- that the service relies on.
pub record Driver (S : Type 0) : Type 0 where
  pub find_by_id : String → S → Option Conversation
  pub update : String → Change → S → S
  pub remove : String → S → S
  pub apply : Change → Conversation → Conversation
  pub find_update_same :
      (id : String) (ch : Change) (s : S) (c : Conversation)
      → find_by_id id s ≡ some c
      → find_by_id id (update id ch s) ≡ some (apply ch c)
  pub find_update_none :
      (id : String) (ch : Change) (s : S)
      → find_by_id id s ≡ none
      → find_by_id id (update id ch s) ≡ none
  pub find_update_other :
      (id k : String) (ch : Change) (s : S)
      → k ≢ id
      → find_by_id k (update id ch s) ≡ find_by_id k s
  pub find_remove_same : (id : String) (s : S) → find_by_id id (remove id s) ≡ none
  pub find_remove_other :
      (id k : String) (s : S) → k ≢ id → find_by_id k (remove id s) ≡ find_by_id k s
  pub add_to_pinned_law :
      (m : String) (c : Conversation)
      → (apply (add_to_pinned m) c).pinned_messages
        ≡ (if includes c.pinned_messages m then c.pinned_messages else c.pinned_messages ++ m ∷ [])
  pub pull_pinned_law :
      (m : String) (c : Conversation)
      → (apply (pull_pinned m) c).pinned_messages ≡ filter (λ x. not (x == m)) c.pinned_messages
  pub set_timer_law :
      (t : ℕ) (c : Conversation) → (apply (set_timer t) c).disappearing_messages_timer ≡ t
  pub pins_keep_timer :
      (m : String) (c : Conversation)
      → ((apply (add_to_pinned m) c).disappearing_messages_timer ≡ c.disappearing_messages_timer)
        × ((apply (pull_pinned m) c).disappearing_messages_timer ≡ c.disappearing_messages_timer)
  pub timer_keeps_pins :
      (t : ℕ) (c : Conversation) → (apply (set_timer t) c).pinned_messages ≡ c.pinned_messages
  pub pins_keep_participants :
      (m : String) (c : Conversation)
      → ((apply (add_to_pinned m) c).participants ≡ c.participants)
        × ((apply (pull_pinned m) c).participants ≡ c.participants)
  pub elsewhere_keeps :
      (ch : Change) (c : Conversation)
      → IsElsewhere ch
      → ((apply ch c).pinned_messages ≡ c.pinned_messages)
        × ((apply ch c).disappearing_messages_timer ≡ c.disappearing_messages_timer)
  pub pull_participant_law :
      (u : String) (c : Conversation)
      → ((apply (pull_participant u) c).participants
          ≡ filter (λ p. not (p.user_id == u)) c.participants)
        × ((apply (pull_participant u) c).admins ≡ c.admins)
        × ((apply (pull_participant u) c).kind ≡ c.kind)
