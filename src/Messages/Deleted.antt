-- ===== src/Messages/Deleted.antt =====
-- What is left of deleted messages (src/modules/messages/messages.service.ts).
use backend_gateway.Base.{
  ℕ, zero, suc, ◌≤◌, String, Bool, true, none, some, List, [], ◌∷◌, ◌≡◌, ◌≢◌, refl, ap, ◌∙◌, ◌==◌,
  string_eq, not, ◌&&◌, filter, take, arith, Bool-cases, Option-cases, inl, inr, Collection, reply,
  count_where, count-change_where, count_split, count_none, count-change_where_pos,
  count-change_where_cover, filter-change_all_out, count-change_all_same,
}
use backend_gateway.Messages.Document.{Message, is_text}
use backend_gateway.Messages.Service.{
  has_id, edited, deleted, is_shown, find_by_id, find_by_id_and_update, get_conversation_messages,
  edit_message, delete_message, clear_conversation_messages,
}

abbrev is_editable : String → Message → Bool
is_editable user m = m.sender_id == user && is_text m.kind

empty_of_count : (ms : List Message) → count_where (λ m. true) ms ≡ 0 → ms ≡ []
empty_of_count [] h = refl
empty_of_count (m ∷ ms) h = ground arith

take_nil : (n : ℕ) → take {A = Message} n [] ≡ []
take_nil zero = refl
take_nil (suc n) = refl

kept_deleted :
    (encrypt : String → String) (content : String) (m : Message)
    → m.is_deleted ≡ true
    → (edited encrypt content m).is_deleted ≡ true
unfolding edited
kept_deleted encrypt content m h = h

new_content :
    (encrypt : String → String) (content : String) (m : Message)
    → (edited encrypt content m).content ≡ some content
unfolding edited
new_content encrypt content m = refl

module _ {S : Type 0} (c : Collection Message S) where
  -- After a conversation was cleared it shows no messages, and every other one as many as before.
  pub get_conversation_messages-clear_conversation_messages :
      (now : ℕ) (conversation : String) (limit : ℕ) (s : S)
      → (get_conversation_messages c conversation limit none
            (clear_conversation_messages c now conversation s)
          ≡ reply [])
        × ((other : String)
            → other ≢ conversation
            → count_where
                (is_shown other)
                (c.docs (clear_conversation_messages c now conversation s))
              ≡ count_where (is_shown other) (c.docs s))
  unfolding get_conversation_messages clear_conversation_messages deleted
  get_conversation_messages-clear_conversation_messages now conversation limit s =
      let s' = c.update_many (is_shown conversation) (deleted now) s in
      let law = c.update_many_law (is_shown conversation) (deleted now) s in
      let nothing = empty_of_count _ (
        c.find_sorted_law (is_shown conversation) (λ m. true) (λ m. m.created_at) s'
        ∙ ap (λ ds. count_where (λ m. true) (filter (is_shown conversation) ds)) law
        ∙ ap (count_where (λ m. true)) (
            filter-change_all_out (is_shown conversation) (deleted now) (c.docs s)
              (λ d i. ground arith))) in
      (
        ap (λ ms. reply (take limit ms)) nothing ∙ ap reply (take_nil limit),
        λ other ne.
            ap (count_where (is_shown other)) law
            ∙ count-change_all_same (is_shown other) (is_shown conversation) (deleted now)
                (c.docs s) (λ d i. ground arith),
      )

  -- What holds of all messages of an id holds of the one that is found.
  of_found :
      (p : Message → Bool) (id : String) (s : S) (w : Message)
      → count_where (λ x. has_id id x && not (p x)) (c.docs s) ≡ 0
      → c.find_one (has_id id) s ≡ some w
      → p w ≡ true
  of_found p id s w h e = elim (Bool-cases (p w)) [
    | inl k ↦ k
    | inr k ↦
        let (i, see) = c.find_one_some (has_id id) s w e in
        let some_bad = see (λ x. has_id id x && not (p x)) (ground (arith, i, k)) in ground arith
  ]

  still_there :
      (now : ℕ) (id : String) (s : S) (m : Message)
      → count_where (has_id id) (c.docs s) ≤ 1
      → c.find_one (has_id id) s ≡ some m
      → c.find_one (has_id id) (c.update_one (has_id id) (deleted now) s) ≢ none
  unfolding deleted
  still_there now id s m h e n =
      let (i, see) = c.find_one_some (has_id id) s m e in
      let there =
        count-change_where_pos (has_id id) (has_id id) (deleted now) (c.docs s) h
          (see (λ x. has_id id x && has_id id (deleted now x)) (ground (arith, i))) in
      let gone = c.find_one_none (has_id id) (c.update_one (has_id id) (deleted now) s) n in
      let law = ap (count_where (has_id id)) (c.update_one_law (has_id id) (deleted now) s) in
      omega (arith, there, gone, law)

  all_deleted :
      (now : ℕ) (id : String) (s : S)
      → count_where (has_id id) (c.docs s) ≤ 1
      → count_where
          (λ x. has_id id x && not x.is_deleted)
          (c.docs (c.update_one (has_id id) (deleted now) s))
        ≡ 0
  unfolding deleted
  all_deleted now id s h =
      ap (count_where (λ x. has_id id x && not x.is_deleted))
        (c.update_one_law (has_id id) (deleted now) s)
      ∙ count-change_where_cover (λ x. has_id id x && not x.is_deleted) (has_id id) (deleted now)
          (c.docs s) h (λ d i. ground arith)
          (count_none (λ d. (has_id id d && not d.is_deleted) && not (has_id id d)) (c.docs s)
            (λ d. ground arith))

  all_editable :
      (now : ℕ) (id user : String) (s : S) (m : Message)
      → count_where (has_id id) (c.docs s) ≤ 1
      → c.find_one (has_id id) s ≡ some m
      → is_editable user m ≡ true
      → count_where
          (λ x. has_id id x && not (is_editable user x))
          (c.docs (c.update_one (has_id id) (deleted now) s))
        ≡ 0
  unfolding deleted
  all_editable now id user s m h e k =
      let (i, see) = c.find_one_some (has_id id) s m e in
      let good = see (λ x. has_id id x && is_editable user x) (ground (arith, i, k)) in
      let split = count_split (has_id id) (is_editable user) (c.docs s) in
      let less =
        count-change_where (λ x. has_id id x && not (is_editable user x)) (has_id id) (deleted now)
          (c.docs s) (λ d a b. b) in
      let law =
        ap (count_where (λ x. has_id id x && not (is_editable user x)))
          (c.update_one_law (has_id id) (deleted now) s) in
      omega (arith, good, split, less, law, h)

  -- The one message of an id after a deletion by its sender, if it is a text.
  deleted_found :
      (now : ℕ) (id user : String) (s : S) (m : Message)
      → count_where (has_id id) (c.docs s) ≤ 1
      → c.find_one (has_id id) s ≡ some m
      → is_editable user m ≡ true
      → (w : Message) × (c.find_one (has_id id) (c.update_one (has_id id) (deleted now) s) ≡ some w)
        × (is_editable user w ≡ true)
        × (w.is_deleted ≡ true)
  deleted_found now id user s m h e k =
      let s' = c.update_one (has_id id) (deleted now) s in
      elim (Option-cases (c.find_one (has_id id) s')) [
        | inl n ↦ elim (still_there now id s m h e n) [ ]
        | inr (w, n) ↦ (
          w,
          n,
          of_found (is_editable user) id s' w (all_editable now id user s m h e k) n,
          of_found (λ x. x.is_deleted) id s' w (all_deleted now id s h) n,
        )
      ]

  delete_message-own :
      (now : ℕ) (id user : String) (s : S) (m : Message)
      → c.find_one (has_id id) s ≡ some m
      → (m.sender_id == user) ≡ true
      → (delete_message c now id user s).0 ≡ c.update_one (has_id id) (deleted now) s
  unfolding delete_message find_by_id find_by_id_and_update
  delete_message-own now id user s m e k = rw (e, k, delete_message, e, find_by_id_and_update) refl

  edit_message-own :
      (encrypt : String → String) (id user content : String) (s : S) (m : Message)
      → c.find_one (has_id id) s ≡ some m
      → is_editable user m ≡ true
      → (edit_message c encrypt id user content s).1 ≡ reply (edited encrypt content m)
  unfolding edit_message find_by_id find_by_id_and_update
  edit_message-own encrypt id user content s m e k =
      let own : (m.sender_id == user) ≡ true = ground arith in
      let is_one : is_text m.kind ≡ true = ground arith in
      rw (e, own, is_one, edit_message, e, find_by_id_and_update) refl

  -- Its sender can still edit a text message that was deleted: it then has a content again, and
  -- stays deleted. Its id is unique.
  pub edit_message-delete_message :
      (encrypt : String → String) (now : ℕ) (id user content : String) (s : S) (m : Message)
      → count_where (has_id id) (c.docs s) ≤ 1
      → c.find_one (has_id id) s ≡ some m
      → m.sender_id ≡ user
      → is_text m.kind ≡ true
      → (w : Message) × ((edit_message c encrypt id user content
            (delete_message c now id user s).0).1
          ≡ reply w)
        × (w.is_deleted ≡ true)
        × (w.content ≡ some content)
  edit_message-delete_message encrypt now id user content s m h e k l =
      let (w, n, good, gone) = deleted_found now id user s m h e (ground (arith, k, l)) in
      (
        edited encrypt content w,
        ap (λ x. (edit_message c encrypt id user content x).1)
              (delete_message-own now id user s m e (ground (arith, k)))
            ∙ edit_message-own encrypt id user content (c.update_one (has_id id) (deleted now) s) w
                n good,
        kept_deleted encrypt content w gone,
        new_content encrypt content w,
      )
