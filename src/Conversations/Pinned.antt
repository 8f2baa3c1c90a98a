-- ===== src/Conversations/Pinned.antt =====
-- What a user reads of the pinned messages (src/modules/conversations/conversations.service.ts).
use backend_gateway.Base.{
  String, true, false, some, List, [], ◌∷◌, ◌≡◌, refl, sym, string_eq, nat_eq, includes,
  includes-append, Reply, reply, refuse, arith, inl, inr, Bool-cases, ==_refl,
}
use backend_gateway.Conversations.Document.{
  Conversation, Change, add_to_pinned, pull_pinned, Driver,
}
use backend_gateway.Conversations.Service.{
  is_participant, find_by_id, commit, if_allowed, pin_unless_pinned, pin_message, unpin_message,
  get_pinned_messages,
}
use backend_gateway.Conversations.Pins.{member_allowed-found, includes-filter}

module _ {S : Type 0} (d : Driver S) where
  get_pinned_messages-found :
      (id user : String) (s : S) (c : Conversation)
      → d.find_by_id id s ≡ some c
      → is_participant user c ≡ true
      → get_pinned_messages d id user s ≡ reply c.pinned_messages
  unfolding get_pinned_messages find_by_id
  get_pinned_messages-found id user s c e p = rw (e, p) refl

  if_allowed-reply {ℓ κ} :
      {A : Type ℓ} {B : Type κ} (r : Reply A) (s : S) (f : A → S × Reply B) (b : B)
      → (if_allowed d r s f).1 ≡ reply b
      → (a : A) × (r ≡ reply a) × (if_allowed d r s f ≡ f a)
  if_allowed-reply (refuse e) s f b h = ground arith
  if_allowed-reply (reply a) s f b h = (a, refl, refl)

  commit-store : (id : String) (ch : Change) (s : S) → (commit d id ch s).0 ≡ d.update id ch s
  unfolding commit
  commit-store id ch s = refl

  pin_unless_pinned-known :
      (id m : String) (s : S) (c : Conversation)
      → includes c.pinned_messages m ≡ true
      → (pin_unless_pinned d id m s c).0 ≡ s
  unfolding pin_unless_pinned
  pin_unless_pinned-known id m s c h = rw (h, pin_unless_pinned) refl

  pin_unless_pinned-new :
      (id m : String) (s : S) (c b : Conversation)
      → includes c.pinned_messages m ≡ false
      → (pin_unless_pinned d id m s c).1 ≡ reply b
      → (pin_unless_pinned d id m s c).0 ≡ d.update id (add_to_pinned m) s
  unfolding pin_unless_pinned
  pin_unless_pinned-new id m s c b h k = ground (arith, commit-store id (add_to_pinned m) s)

  add_to_pinned-includes :
      (m : String) (c : Conversation)
      → includes (d.apply (add_to_pinned m) c).pinned_messages m ≡ true
  add_to_pinned-includes m c =
      ground
        (arith, d.add_to_pinned_law m c, includes-append c.pinned_messages (m ∷ []) m, ==_refl m)

  -- After a pin that was accepted, the pinned messages that its user reads have the message.
  pub get_pinned_messages-pin_message :
      (id user m : String) (s : S) (c : Conversation)
      → (pin_message d id user m s).1 ≡ reply c
      → (ps : List String) × (get_pinned_messages d id user (pin_message d id user m s).0
          ≡ reply ps)
        × (includes ps m ≡ true)
  unfolding pin_message
  get_pinned_messages-pin_message id user m s c h =
      let (a, e, same) = if_allowed-reply _ s (pin_unless_pinned d id m s) c h in
      let (found, member) = member_allowed-found d id user _ s a e in
      elim (Bool-cases (includes a.pinned_messages m)) [
        | inl k ↦ (
          a.pinned_messages,
          rw (same, pin_unless_pinned-known id m s a k)
              (get_pinned_messages-found id user s a found member),
          k,
        )
        | inr k ↦ (
          (d.apply (add_to_pinned m) a).pinned_messages,
          rw (same, pin_unless_pinned-new id m s a c k (rw (sym same) h))
              (get_pinned_messages-found id user (d.update id (add_to_pinned m) s)
                (d.apply (add_to_pinned m) a) (d.find_update_same id (add_to_pinned m) s a found)
                (rw (d.pins_keep_participants m a).0 member)),
          add_to_pinned-includes m a,
        )
      ]

  -- After an unpin that was accepted, the pinned messages that its user reads do not have the message.
  pub get_pinned_messages-unpin_message :
      (id user m : String) (s : S) (c : Conversation)
      → (unpin_message d id user m s).1 ≡ reply c
      → (ps : List String) × (get_pinned_messages d id user (unpin_message d id user m s).0
          ≡ reply ps)
        × (includes ps m ≡ false)
  unfolding unpin_message
  get_pinned_messages-unpin_message id user m s c h =
      let (a, e, same) = if_allowed-reply _ s (λ _. commit d id (pull_pinned m) s) c h in
      let (found, member) = member_allowed-found d id user _ s a e in
      (
        (d.apply (pull_pinned m) a).pinned_messages,
        rw (same, commit-store id (pull_pinned m) s)
            (get_pinned_messages-found id user (d.update id (pull_pinned m) s)
              (d.apply (pull_pinned m) a) (d.find_update_same id (pull_pinned m) s a found)
              (rw (d.pins_keep_participants m a).1 member)),
        rw (d.pull_pinned_law m a) (includes-filter m a.pinned_messages),
      )
