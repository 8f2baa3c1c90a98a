-- ===== src/Conversations/Memory.antt =====
-- A driver that keeps the conversations of src/modules/conversations in memory.
use backend_gateway.Base.{
  ◌+◌, String, string_eq, nat_eq, Option, none, some, List, [], ◌∷◌, ◌++◌, ◌≡◌, ◌≢◌, refl, ◌==◌,
  Dict, get, put, delete, get-put, get-delete, includes, filter, map, not, if◌then◌else◌, arith,
  ==_refl,
}
use backend_gateway.Conversations.Document.{
  ConversationParticipant, Conversation, Change, add_to_participants, pull_participant,
  set_last_message, set_read, set_muted, increment_unread, set_fields, add_to_pinned, pull_pinned,
  set_timer, IsElsewhere, Driver,
}
use backend_gateway.Conversations.Service.{new_participant}

abbrev pub Store : Type 0
Store = Dict String Conversation

abbrev pub or_kept {ℓ} : {A : Type ℓ} → Option A → A → A
or_kept none a = a
or_kept (some b) a = b

abbrev pub or_first {ℓ} : {A : Type ℓ} → Option A → Option A → Option A
or_first none b = b
or_first (some a) b = some a

abbrev pub on_user :
    String
    → (ConversationParticipant → ConversationParticipant)
    → List ConversationParticipant
    → List ConversationParticipant
on_user user f [] = []
on_user user f (p ∷ ps) = if p.user_id == user then f p ∷ ps else p ∷ on_user user f ps

abbrev pub with_pin : String → List String → List String
with_pin m ps = if includes ps m then ps else ps ++ m ∷ []

abbrev pub apply : Change → Conversation → Conversation
apply (add_to_participants us) c = record c {
  participants = c.participants ++ map new_participant us;
}
apply (pull_participant u) c = record c {
  participants = filter (λ p. not (p.user_id == u)) c.participants;
}
apply (set_last_message m) c = record c { last_message = some m }
apply (set_read user m) c = record c {
  participants =
      on_user user (λ p. record p { last_read_message_id = some m; unread_count = 0 })
        c.participants;
}
apply (set_muted user b) c = record c {
  participants = on_user user (λ p. record p { is_muted = b }) c.participants;
}
apply (increment_unread us) c = record c {
  participants =
      map {B = ConversationParticipant}
        (λ p. if includes us p.user_id then record p { unread_count = p.unread_count + 1 } else p)
        c.participants;
}
apply (set_fields u) c = record c {
  kind = or_kept u.kind c.kind;
  name = or_first u.name c.name;
  avatar = or_first u.avatar c.avatar;
  description = or_first u.description c.description;
  participants = or_kept u.participants c.participants;
  admins = or_kept u.admins c.admins;
  created_by = or_kept u.created_by c.created_by;
  last_message = or_first u.last_message c.last_message;
  is_archived = or_kept u.is_archived c.is_archived;
  is_locked = or_kept u.is_locked c.is_locked;
  pinned_messages = or_kept u.pinned_messages c.pinned_messages;
  disappearing_messages_timer = or_kept u.disappearing_messages_timer c.disappearing_messages_timer;
}
apply (add_to_pinned m) c = record c { pinned_messages = with_pin m c.pinned_messages }
apply (pull_pinned m) c = record c {
  pinned_messages = filter (λ x. not (x == m)) c.pinned_messages;
}
apply (set_timer t) c = record c { disappearing_messages_timer = t }

abbrev pub change_stored : String → Change → Option Conversation → Store → Store
change_stored id ch none s = s
change_stored id ch (some c) s = put id (apply ch c) s

abbrev pub change_at : String → Change → Store → Store
change_at id ch s = change_stored id ch (get id s) s

pub apply_elsewhere :
    (ch : Change) (c : Conversation)
    → IsElsewhere ch
    → ((apply ch c).pinned_messages ≡ c.pinned_messages)
      × ((apply ch c).disappearing_messages_timer ≡ c.disappearing_messages_timer)
apply_elsewhere (add_to_participants us) c h = (refl, refl)
apply_elsewhere (pull_participant u) c h = (refl, refl)
apply_elsewhere (set_last_message m) c h = (refl, refl)
apply_elsewhere (set_read user m) c h = (refl, refl)
apply_elsewhere (set_muted user b) c h = (refl, refl)
apply_elsewhere (increment_unread us) c h = (refl, refl)
apply_elsewhere (set_fields u) c h = (rw h.0 refl, rw h.1 refl)
apply_elsewhere (add_to_pinned m) c h = absurd h
apply_elsewhere (pull_pinned m) c h = absurd h
apply_elsewhere (set_timer t) c h = absurd h

pub update_same :
    (id : String) (ch : Change) (s : Store) (c : Conversation)
    → get id s ≡ some c
    → get id (change_at id ch s) ≡ some (apply ch c)
update_same id ch s c h = ground (arith, get-put id id (apply ch c) s, ==_refl id)

pub update_none :
    (id : String) (ch : Change) (s : Store) → get id s ≡ none → get id (change_at id ch s) ≡ none
update_none id ch s h = ground arith

pub stored_other :
    (id k : String) (ch : Change) (o : Option Conversation) (s : Store)
    → k ≢ id
    → get k (change_stored id ch o s) ≡ get k s
stored_other id k ch none s h = refl
stored_other id k ch (some c) s h = ground (arith, get-put id k (apply ch c) s)

pub remove_same : (id : String) (s : Store) → get id (delete id s) ≡ none
remove_same id s = ground (arith, get-delete id id s, ==_refl id)

pub remove_other : (id k : String) (s : Store) → k ≢ id → get k (delete id s) ≡ get k s
remove_other id k s h = ground (arith, get-delete id k s)

abbrev pub in_memory : Driver Store
in_memory = record {
  find_by_id = get;
  update = change_at;
  remove = delete;
  apply = apply;
  find_update_same = update_same;
  find_update_none = update_none;
  find_update_other = λ id k ch s h. stored_other id k ch (get id s) s h;
  find_remove_same = remove_same;
  find_remove_other = remove_other;
  add_to_pinned_law = λ m c. refl;
  pull_pinned_law = λ m c. refl;
  set_timer_law = λ t c. refl;
  pins_keep_timer = λ m c. (refl, refl);
  timer_keeps_pins = λ t c. refl;
  pins_keep_participants = λ m c. (refl, refl);
  elsewhere_keeps = apply_elsewhere;
  pull_participant_law = λ u c. (refl, refl, refl);
}
