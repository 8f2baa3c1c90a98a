-- ===== src/Conversations/Members.antt =====
-- Who may change a conversation (src/modules/conversations/conversations.service.ts).
use backend_gateway.Base.{
  ℕ, String, Bool, true, false, Option, none, some, List, [], ◌∷◌, ◌≡◌, ◌⊎◌, refl, ◌==◌,
  Option-cases, ◌>>=◌, string_eq, includes, filter, not, any, Reply, reply, refuse, arith, inl, inr,
}
use backend_gateway.Conversations.Document.{
  single, Conversation, ConversationParticipant, Updates, add_to_participants, pull_participant,
  set_fields, Driver,
}
use backend_gateway.Conversations.Service.{
  is_participant, lacks_admin, find_by_id, commit, if_allowed, add_participants, remove_participant,
  update_conversation, delete_conversation, member_allowed, pin_message, unpin_message,
  set_disappearing_messages_timer,
}

abbrev pub is_refusal {ℓ} : {B : Type ℓ} → Reply B → Bool
is_refusal (reply b) = false
is_refusal (refuse e) = true

module _ {S : Type 0} (d : Driver S) where
  -- The store is as before, and something was thrown.
  abbrev pub IsRefused {ℓ} : {B : Type ℓ} → S → S × Reply B → Type 0
  IsRefused s r = (r.0 ≡ s) × (is_refusal r.1 ≡ true)

  abbrev pub IsStranger : String → Option Conversation → Type 0
  IsStranger user none = Unit
  IsStranger user (some c) = (is_participant user c ≡ false) ⊎ (lacks_admin user c ≡ true)

  member_allowed-refuse :
      (id user text : String) (s : S)
      → IsStranger user (d.find_by_id id s)
      → is_refusal (member_allowed d id user text s) ≡ true
  unfolding member_allowed find_by_id
  member_allowed-refuse id user text s h = elim (Option-cases (d.find_by_id id s)) [
    | inl e ↦ ground (arith, e)
    | inr (c, e) ↦ ground (arith, e)
  ]

  if_allowed-refuse {ℓ κ} :
      {A : Type ℓ} {B : Type κ} (r : Reply A) (s : S) (f : A → S × Reply B)
      → is_refusal r ≡ true
      → IsRefused s (if_allowed d r s f)
  if_allowed-refuse (reply a) s f h = ground arith
  if_allowed-refuse (refuse e) s f h = (refl, refl)

  bind-refuse {ℓ κ} :
      {A : Type ℓ} {B : Type κ} (r : Reply A) (f : A → Reply B)
      → is_refusal r ≡ true
      → is_refusal (r >>= f) ≡ true
  bind-refuse (reply a) f h = ground arith
  bind-refuse (refuse e) f h = refl

  -- Nobody pins, unpins or sets the timer in an unknown conversation, in one without taking part, or
  -- in a group without being an admin of it: the store stays, and the request is refused.
  pub strangers-IsRefused :
      (id user m : String) (t : ℕ) (s : S)
      → IsStranger user (d.find_by_id id s)
      → IsRefused s (pin_message d id user m s)
        × IsRefused s (unpin_message d id user m s)
        × IsRefused s (set_disappearing_messages_timer d id user t s)
  unfolding pin_message unpin_message set_disappearing_messages_timer
  strangers-IsRefused id user m t s h = (
    if_allowed-refuse _ s _
        (member_allowed-refuse id user "Only admins can pin messages in group conversations" s h),
    if_allowed-refuse _ s _
        (member_allowed-refuse id user "Only admins can unpin messages in group conversations" s h),
    if_allowed-refuse _ s _ (
        bind-refuse _ _ (
          member_allowed-refuse id user
            "Only admins can change disappearing messages settings in group conversations" s h)),
  )

  any-filter :
      (user : String) (ps : List ConversationParticipant)
      → any (λ p. p.user_id == user) (filter (λ p. not (p.user_id == user)) ps) ≡ false
  any-filter user [] = refl
  any-filter user (p ∷ ps) = ground (arith, any-filter user ps)

  -- A group's admin who was removed from it may still add participants.
  pub add_participants-remove_participant :
      (id admin user : String) (ids : List String) (s : S) (c c' : Conversation)
      → d.find_by_id id s ≡ some c
      → includes c.admins user ≡ true
      → (remove_participant d id admin user s).1 ≡ reply c'
      → (is_participant user c' ≡ false)
        × ((add_participants d id user ids (remove_participant d id admin user s).0).0
            ≡ d.update id (add_to_participants ids) (remove_participant d id admin user s).0)
  unfolding remove_participant add_participants find_by_id commit
  add_participants-remove_participant id admin user ids s c c' found is_admin h = ground (
    arith,
    d.find_update_same id (pull_participant user) s c,
    d.pull_participant_law user c,
    any-filter user c.participants,
  )

  -- Anybody may change or delete a single conversation: nobody asks whether the user takes part.
  pub single_for_anybody :
      (id user : String) (u : Updates) (s : S) (c : Conversation)
      → d.find_by_id id s ≡ some c
      → c.kind ≡ single
      → ((delete_conversation d id user s).0 ≡ d.remove id s)
        × (d.find_by_id id (delete_conversation d id user s).0 ≡ none)
        × ((update_conversation d id user u s).0 ≡ d.update id (set_fields u) s)
  unfolding delete_conversation update_conversation find_by_id commit
  single_for_anybody id user u s c found k = ground (arith, d.find_remove_same id s)
