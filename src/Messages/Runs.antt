-- ===== src/Messages/Runs.antt =====
-- Runs of requests of src/modules/messages: a reaction and a receipt stand once.
use backend_gateway.Base.{
  ℕ, String, List, [], ◌∷◌, ◌≡◌, ◌==◌, string_eq, any, arith, Bool-cases, Option-cases, inl, inr,
  Collection, count_where,
}
use backend_gateway.Conversations.Document.{Driver}
use backend_gateway.Messages.Document.{Message, CreateMessage, is_text, is_reaction, is_receipt}
use backend_gateway.Messages.Service.{
  has_id, new_message, edited, deleted, unreacted, is_shown, create_message, find_by_id,
  find_by_id_and_update, edit_message, delete_message, add_reaction, remove_reaction,
  add_read_receipt, clear_conversation_messages,
}
use backend_gateway.Messages.Once.{
  IsOnce, edited-IsTame, deleted-IsTame, unreacted-IsTame, IsOnce-update_many,
  IsOnce-find_by_id_and_update, IsOnce-reacted, IsOnce-read_by,
}

pub data Request : Type 0 where
  creation : (now : ℕ) (id : String) → CreateMessage → Request
  edit : (id user content : String) → Request
  deletion : (now : ℕ) (id user : String) → Request
  reaction : (now : ℕ) (id user emoji : String) → Request
  withdrawal : (id user emoji : String) → Request
  receipt : (now : ℕ) (id user : String) → Request
  clearing : (now : ℕ) (conversation : String) → Request

module _ {S T : Type 0} (c : Collection Message S) (d : Driver T) (encrypt : String → String) where
  unfoldable pub handle : Request → S × T → S × T
  handle (creation now id o) s = (create_message c d encrypt now id o s).0
  handle (edit id user content) (s, t) = ((edit_message c encrypt id user content s).0, t)
  handle (deletion now id user) (s, t) = ((delete_message c now id user s).0, t)
  handle (reaction now id user emoji) (s, t) = ((add_reaction c now id user emoji s).0, t)
  handle (withdrawal id user emoji) (s, t) = ((remove_reaction c id user emoji s).0, t)
  handle (receipt now id user) (s, t) = ((add_read_receipt c now id user s).0, t)
  handle (clearing now conversation) (s, t) = (clear_conversation_messages c now conversation s, t)

  abbrev pub run : List Request → S × T → S × T
  run [] s = s
  run (r ∷ rs) s = run rs (handle r s)

  -- A new message gets an id that no message has.
  abbrev pub IsNew : Request → S × T → Type 0
  IsNew (creation now id o) s = count_where (has_id id) (c.docs s.0) ≡ 0
  IsNew r s = Unit

  abbrev pub AreNew : List Request → S × T → Type 0
  AreNew [] s = Unit
  AreNew (r ∷ rs) s = IsNew r s × AreNew rs (handle r s)

  IsOnce-created :
      (now : ℕ) (id : String) (o : CreateMessage) (ds : List Message)
      → count_where (has_id id) ds ≡ 0
      → IsOnce ds
      → IsOnce (new_message encrypt now id o ∷ ds)
  unfolding new_message
  IsOnce-created now id o ds new h = record {
    one_id = λ i. (let lim = h.one_id i in ground arith);
    one_reaction = λ u x. (let lim = h.one_reaction u x in ground arith);
    one_receipt = λ u. (let lim = h.one_receipt u in ground arith);
  }

  IsOnce-create_message :
      (now : ℕ) (id : String) (o : CreateMessage) (s : S × T)
      → count_where (has_id id) (c.docs s.0) ≡ 0
      → IsOnce (c.docs s.0)
      → IsOnce (c.docs (create_message c d encrypt now id o s).0.0)
  unfolding create_message
  IsOnce-create_message now id o (s, t) new h =
      rw (c.insert_law (new_message encrypt now id o) s) (IsOnce-created now id o (c.docs s) new h)

  IsOnce-edit_message :
      (id user content : String) (s : S)
      → IsOnce (c.docs s)
      → IsOnce (c.docs (edit_message c encrypt id user content s).0)
  unfolding edit_message find_by_id
  IsOnce-edit_message id user content s h = elim (Option-cases (c.find_one (has_id id) s)) [
    | inl e ↦ rw (e, edit_message) h
    | inr (m, e) ↦ elim (Bool-cases (m.sender_id == user)) [
      | inr k ↦ rw (e, k, edit_message) h
      | inl k ↦ elim (Bool-cases (is_text m.kind)) [
        | inr l ↦ rw (e, k, l, edit_message) h
        | inl l ↦
            rw (e, k, l, edit_message)
              (IsOnce-find_by_id_and_update c id (edited encrypt content) s
                (edited-IsTame encrypt content) h)
      ]
    ]
  ]

  IsOnce-delete_message :
      (now : ℕ) (id user : String) (s : S)
      → IsOnce (c.docs s)
      → IsOnce (c.docs (delete_message c now id user s).0)
  unfolding delete_message find_by_id
  IsOnce-delete_message now id user s h = elim (Option-cases (c.find_one (has_id id) s)) [
    | inl e ↦ rw (e, delete_message) h
    | inr (m, e) ↦ elim (Bool-cases (m.sender_id == user)) [
      | inr k ↦ rw (e, k, delete_message) h
      | inl k ↦
          rw (e, k, delete_message)
            (IsOnce-find_by_id_and_update c id (deleted now) s (deleted-IsTame now) h)
    ]
  ]

  IsOnce-add_reaction :
      (now : ℕ) (id user emoji : String) (s : S)
      → IsOnce (c.docs s)
      → IsOnce (c.docs (add_reaction c now id user emoji s).0)
  unfolding add_reaction find_by_id find_by_id_and_update
  IsOnce-add_reaction now id user emoji s h = elim (Option-cases (c.find_one (has_id id) s)) [
    | inl e ↦ rw (e, add_reaction) h
    | inr (m, e) ↦ elim (Bool-cases (any (is_reaction user emoji) m.reactions)) [
      | inl k ↦ rw (e, k, add_reaction) h
      | inr k ↦
          rw (e, k, add_reaction, e, find_by_id_and_update)
            (IsOnce-reacted c now id user emoji s m h e k)
    ]
  ]

  IsOnce-add_read_receipt :
      (now : ℕ) (id user : String) (s : S)
      → IsOnce (c.docs s)
      → IsOnce (c.docs (add_read_receipt c now id user s).0)
  unfolding add_read_receipt find_by_id
  IsOnce-add_read_receipt now id user s h = elim (Option-cases (c.find_one (has_id id) s)) [
    | inl e ↦ rw (e, add_read_receipt) h
    | inr (m, e) ↦ elim (Bool-cases (any (is_receipt user) m.read_receipts)) [
      | inl k ↦ rw (e, k, add_read_receipt) h
      | inr k ↦ rw (e, k, add_read_receipt) (IsOnce-read_by c now id user s m h e k)
    ]
  ]

  IsOnce-handle :
      (r : Request) (s : S × T) → IsNew r s → IsOnce (c.docs s.0) → IsOnce (c.docs (handle r s).0)
  unfolding handle remove_reaction clear_conversation_messages
  IsOnce-handle (creation now id o) s new h = IsOnce-create_message now id o s new h
  IsOnce-handle (edit id user content) (s, t) new h = IsOnce-edit_message id user content s h
  IsOnce-handle (deletion now id user) (s, t) new h = IsOnce-delete_message now id user s h
  IsOnce-handle (reaction now id user emoji) (s, t) new h =
      IsOnce-add_reaction now id user emoji s h
  IsOnce-handle (withdrawal id user emoji) (s, t) new h =
      IsOnce-find_by_id_and_update c id (unreacted user emoji) s (unreacted-IsTame user emoji) h
  IsOnce-handle (receipt now id user) (s, t) new h = IsOnce-add_read_receipt now id user s h
  IsOnce-handle (clearing now conversation) (s, t) new h =
      IsOnce-update_many c (is_shown conversation) (deleted now) s (deleted-IsTame now) h

  -- Whatever requests are served, one after the other and each new message with a new id, an id has
  -- one message, a user reacts to a message once with an emoji, and has one receipt for it, if it was
  -- so before.
  pub run-IsOnce :
      (rs : List Request) (s : S × T)
      → AreNew rs s
      → IsOnce (c.docs s.0)
      → IsOnce (c.docs (run rs s).0)
  run-IsOnce [] s new h = h
  run-IsOnce (r ∷ rs) s (one, new) h = run-IsOnce rs (handle r s) new (IsOnce-handle r s one h)
