-- ===== src/Conversations/Service.antt =====
-- src/modules/conversations/conversations.service.ts over the driver. A method takes the store, and
-- gives the store after it and its result. `updated` is what the driver finds after the change.
use backend_gateway.Base.{
  ℕ, String, Bool, true, false, Option, none, some, List, [], ◌∷◌, ◌==◌, string_eq, nat_eq,
  if◌then◌else◌, includes, any, filter, map, length, leb, not, ◌&&◌, Reply, reply, refuse,
  not_found, forbidden, require, existing, ◌>>=◌, ◌>>◌,
}
use backend_gateway.Conversations.Document.{
  ConversationType, single, group, ConversationParticipant, Conversation, Updates, Change,
  add_to_participants, pull_participant, set_last_message, set_read, set_muted, increment_unread,
  set_fields, add_to_pinned, pull_pinned, set_timer, Driver,
}

abbrev pub is_group : ConversationType → Bool
is_group group = true
is_group single = false

abbrev pub is_participant : String → Conversation → Bool
is_participant user c = any (λ p. p.user_id == user) c.participants

-- `conversation.type === 'group' && !conversation.admins.includes(userId)`
abbrev pub lacks_admin : String → Conversation → Bool
lacks_admin user c = is_group c.kind && not (includes c.admins user)

abbrev pub max_pinned : ℕ
max_pinned = 10

abbrev pub valid_timers : List ℕ
valid_timers = 0 ∷ 86400 ∷ 604800 ∷ 2592000 ∷ []

-- `Array.from(new Set(ids))`: the first of equal ids is kept, in order.
unfoldable pub unique : List String → List String
unique [] = []
unique (u ∷ us) = u ∷ filter (λ v. not (v == u)) (unique us)

abbrev pub new_participant : String → ConversationParticipant
new_participant u = record {
  user_id = u;
  last_read_message_id = none;
  unread_count = 0;
  is_muted = false;
  is_pinned = false;
}

unfoldable pub create_group_conversation :
    String → String → List String → Option String → Conversation
unfolding unique
create_group_conversation creator name ids description = record {
  kind = group;
  name = some name;
  avatar = none;
  description = description;
  participants = map new_participant (unique (creator ∷ ids));
  admins = creator ∷ [];
  created_by = creator;
  last_message = none;
  is_archived = false;
  is_locked = false;
  pinned_messages = [];
  disappearing_messages_timer = 0;
}

-- `[userId1, userId2].sort()`: they change places where the second precedes the first.
unfoldable pub sort_two : (String → String → Bool) → String → String → String × String
sort_two precedes a b = if precedes b a then (b, a) else (a, b)

-- `find_pair` finds the single conversation of two users, named in the order that `sort` gives.
unfoldable pub create_single_conversation :
    (String → String → Bool)
    → (String → String → Option Conversation)
    → String
    → String
    → Conversation
unfolding sort_two
create_single_conversation precedes find_pair a b =
    let (x, y) = sort_two precedes a b in
    elim (find_pair x y) [
      | some c ↦ c
      | none ↦ record {
        kind = single;
        name = none;
        avatar = none;
        description = none;
        participants = new_participant x ∷ new_participant y ∷ [];
        admins = [];
        created_by = a;
        last_message = none;
        is_archived = false;
        is_locked = false;
        pinned_messages = [];
        disappearing_messages_timer = 0;
      }
    ]

-- The conversations among those stored, before the sort by time.
unfoldable pub get_user_conversations : String → List Conversation → List Conversation
get_user_conversations user cs = filter (λ c. is_participant user c && not c.is_archived) cs

abbrev read_up_to : Option String → ConversationParticipant → ConversationParticipant
read_up_to none p = record p { unread_count = 0 }
read_up_to (some m) p = record p { unread_count = 0; last_read_message_id = some m }

-- The participant at `findIndex`, changed in place.
unfoldable pub read_first :
    String → Option String → List ConversationParticipant → List ConversationParticipant
read_first user m [] = []
read_first user m (p ∷ ps) =
    if p.user_id == user then read_up_to m p ∷ ps else p ∷ read_first user m ps

-- What `markAllAsRead` saves of the user's conversations.
unfoldable pub mark_all_as_read : String → List Conversation → List Conversation
unfolding read_first
mark_all_as_read user cs =
    map {B = Conversation}
      (λ c. record c { participants = read_first user c.last_message c.participants }) cs

module _ {S : Type 0} (d : Driver S) where
  abbrev no_conversation : {A : Type 0} → Option A → Reply A
  no_conversation found = existing found (not_found "Conversation not found")

  unfoldable pub find_by_id : String → S → Reply Conversation
  find_by_id id s = no_conversation (d.find_by_id id s)

  -- `findByIdAndUpdate`, and the check of what it returns.
  unfoldable pub commit : String → Change → S → S × Reply Conversation
  commit id change s = let s' = d.update id change s in (s', no_conversation (d.find_by_id id s'))

  -- A method that throws before its change leaves the store.
  abbrev pub if_allowed {ℓ κ} :
      {A : Type ℓ} {B : Type κ} → Reply A → S → (A → S × Reply B) → S × Reply B
  if_allowed (refuse e) s f = (s, refuse e)
  if_allowed (reply a) s f = f a

  unfoldable pub add_participants : String → String → List String → S → S × Reply Conversation
  unfolding find_by_id commit
  add_participants id user ids s =
      if_allowed
        (do
          c ← find_by_id id s
          require (is_group c.kind) (forbidden "Cannot add participants to single conversation")
          require (includes c.admins user) (forbidden "Only admins can add participants"))
        s (λ _. commit id (add_to_participants ids) s)

  unfoldable pub remove_participant : String → String → String → S → S × Reply Conversation
  unfolding find_by_id commit
  remove_participant id admin user s =
      if_allowed
        (do
          c ← find_by_id id s
          require (is_group c.kind)
              (forbidden "Cannot remove participants from single conversation")
          require (includes c.admins admin) (forbidden "Only admins can remove participants"))
        s (λ _. commit id (pull_participant user) s)

  abbrev pub update_last_message : String → String → S → S
  update_last_message id m s = d.update id (set_last_message m) s

  abbrev pub mark_as_read : String → String → String → S → S
  mark_as_read id user m s = d.update id (set_read user m) s

  abbrev pub toggle_mute : String → String → Bool → S → S
  toggle_mute id user muted s = d.update id (set_muted user muted) s

  abbrev pub increment_unread_count : String → List String → S → S
  increment_unread_count id users s = d.update id (increment_unread users) s

  unfoldable pub update_conversation : String → String → Updates → S → S × Reply Conversation
  unfolding find_by_id commit
  update_conversation id user updates s =
      if_allowed
        (do
          c ← find_by_id id s
          require (not (lacks_admin user c))
              (forbidden "Only admins can update group conversation"))
        s (λ _. commit id (set_fields updates) s)

  unfoldable pub delete_conversation : String → String → S → S × Reply (Unit {0})
  unfolding find_by_id
  delete_conversation id user s =
      if_allowed
        (do
          c ← find_by_id id s
          require (not (lacks_admin user c))
              (forbidden "Only admins can delete group conversation"))
        s (λ _. (d.remove id s, reply tt))

  -- The checks that pinning, unpinning and the timer begin with.
  unfoldable pub member_allowed : String → String → String → S → Reply Conversation
  unfolding find_by_id
  member_allowed id user only_admins s = do
    c ← find_by_id id s
    require (is_participant user c) (forbidden "You are not a participant of this conversation")
    require (not (lacks_admin user c)) (forbidden only_admins)
    reply c

  -- The rest of `pinMessage`, where the user is allowed to pin.
  unfoldable pub pin_unless_pinned : String → String → S → Conversation → S × Reply Conversation
  unfolding commit
  pin_unless_pinned id m s c = elim (includes c.pinned_messages m) [
    | true ↦ (s, reply c)
    | false ↦
        if_allowed
          (require (not (leb max_pinned (length c.pinned_messages)))
            (forbidden "Maximum number of pinned messages reached (10)"))
          s (λ _. commit id (add_to_pinned m) s)
  ]

  unfoldable pub pin_message : String → String → String → S → S × Reply Conversation
  unfolding member_allowed pin_unless_pinned
  pin_message id user m s =
      if_allowed (member_allowed id user "Only admins can pin messages in group conversations" s) s
        (pin_unless_pinned id m s)

  unfoldable pub unpin_message : String → String → String → S → S × Reply Conversation
  unfolding member_allowed commit
  unpin_message id user m s =
      if_allowed (member_allowed id user "Only admins can unpin messages in group conversations" s)
        s (λ c. commit id (pull_pinned m) s)

  unfoldable pub get_pinned_messages : String → String → S → Reply (List String)
  unfolding find_by_id
  get_pinned_messages id user s = do
    c ← find_by_id id s
    require (is_participant user c) (forbidden "You are not a participant of this conversation")
    reply c.pinned_messages

  unfoldable pub set_disappearing_messages_timer : String → String → ℕ → S → S × Reply Conversation
  unfolding member_allowed commit
  set_disappearing_messages_timer id user t s =
      if_allowed
        (do
          c ←
              member_allowed id user
                "Only admins can change disappearing messages settings in group conversations" s
          require (includes valid_timers t) (
              forbidden
                "Invalid timer value. Must be 0 (off), 86400 (24h), 604800 (7d), or 2592000 (30d)"))
        s (λ _. commit id (set_timer t) s)

  unfoldable pub get_disappearing_messages_timer : String → S → Reply ℕ
  unfolding find_by_id
  get_disappearing_messages_timer id s = do c ← find_by_id id s; reply c.disappearing_messages_timer
