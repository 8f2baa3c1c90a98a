-- ===== src/Messages/Once.antt =====
-- Runs of requests of src/modules/messages: a reaction and a receipt stand once.
use backend_gateway.Base.{
  ℕ, ◌+◌, ◌≤◌, String, Bool, true, false, some, List, [], ◌∷◌, ◌++◌, ◌≡◌, refl, sym, ap, ◌∙◌, ◌==◌,
  string_eq, if◌then◌else◌, ltb, not, ◌&&◌, ◌||◌, any, arith, Option-cases, inl, inr, Collection,
  count_where, count-change_where, count-change_all, count-filter, count-change_where_seen,
}
use backend_gateway.Messages.Document.{Message, is_reaction, is_receipt}
use backend_gateway.Messages.Service.{
  has_id, edited, deleted, reacted, unreacted, read_by, find_by_id_and_update,
}

-- A user who reacts twice with an emoji, and one with two receipts.
abbrev pub reacts_twice : String → String → Message → Bool
reacts_twice user emoji m = ltb 1 (count_where (is_reaction user emoji) m.reactions)

abbrev pub reads_twice : String → Message → Bool
reads_twice user m = ltb 1 (count_where (is_receipt user) m.read_receipts)

pub record IsOnce (ds : List Message) : Type 0 where
  pub one_id : (id : String) → count_where (has_id id) ds ≤ 1
  pub one_reaction : (user emoji : String) → count_where (reacts_twice user emoji) ds ≡ 0
  pub one_receipt : (user : String) → count_where (reads_twice user) ds ≡ 0

-- What an update may do: it keeps the id and adds no reaction and no receipt.
pub record IsTame (f : Message → Message) : Type 0 where
  pub same_id : (m : Message) → (f m).id ≡ m.id
  pub fewer_reactions :
      (user emoji : String) (m : Message)
      → count_where (is_reaction user emoji) (f m).reactions
        ≤ count_where (is_reaction user emoji) m.reactions
  pub same_receipts : (m : Message) → (f m).read_receipts ≡ m.read_receipts

any-count_where {ℓ} :
    {A : Type ℓ} (p : A → Bool) (xs : List A) → any p xs ≡ false → count_where p xs ≡ 0
any-count_where p [] h = refl
any-count_where p (x ∷ xs) h = ground (arith, any-count_where p xs)

count-append_one {ℓ} :
    {A : Type ℓ} (p : A → Bool) (xs : List A) (x : A)
    → count_where p (xs ++ x ∷ []) ≡ count_where p xs + (if p x then 1 else 0)
count-append_one p [] x = ground arith
count-append_one p (y ∷ xs) x = ground (arith, count-append_one p xs x)

pub edited-IsTame : (encrypt : String → String) (content : String) → IsTame (edited encrypt content)
unfolding edited
edited-IsTame encrypt content = record {
  same_id = λ m. refl;
  fewer_reactions = λ u e m. omega arith;
  same_receipts = λ m. refl;
}

pub deleted-IsTame : (now : ℕ) → IsTame (deleted now)
unfolding deleted
deleted-IsTame now = record {
  same_id = λ m. refl;
  fewer_reactions = λ u e m. omega arith;
  same_receipts = λ m. refl;
}

pub unreacted-IsTame : (user emoji : String) → IsTame (unreacted user emoji)
unfolding unreacted
unreacted-IsTame user emoji = record {
  same_id = λ m. refl;
  fewer_reactions =
      λ u e m. count-filter (is_reaction u e) (λ r. not (is_reaction user emoji r)) m.reactions;
  same_receipts = λ m. refl;
}

tame-has_id :
    (f : Message → Message) → IsTame f → (id : String) (m : Message) → has_id id (f m) ≡ has_id id m
tame-has_id f t id m = ap (λ i. i == id) (t.same_id m)

tame-reacts_twice :
    (f : Message → Message)
    → IsTame f
    → (user emoji : String) (m : Message) → reacts_twice user emoji (f m) ≡ true
    → reacts_twice user emoji m ≡ true
tame-reacts_twice f t user emoji m h = let less = t.fewer_reactions user emoji m in ground arith

tame-reads_twice :
    (f : Message → Message)
    → IsTame f
    → (user : String) (m : Message) → reads_twice user (f m) ≡ reads_twice user m
tame-reads_twice f t user m =
    ap (λ rs. ltb 1 (count_where (is_receipt user) rs)) (t.same_receipts m)

reacted_once :
    (now : ℕ) (user emoji u x : String) (m : Message)
    → any (is_reaction user emoji) m.reactions ≡ false
    → (reacts_twice u x m || not (reacts_twice u x (reacted now user emoji m))) ≡ true
unfolding reacted
reacted_once now user emoji u x m k = ground (
  arith,
  count-append_one (is_reaction u x) m.reactions
      (record { emoji = emoji; user_id = user; created_at = now }),
  any-count_where (is_reaction user emoji) m.reactions k,
)

read_once :
    (now : ℕ) (user u : String) (m : Message)
    → any (is_receipt user) m.read_receipts ≡ false
    → (reads_twice u m || not (reads_twice u (read_by now user m))) ≡ true
unfolding read_by
read_once now user u m k = ground (
  arith,
  count-append_one (is_receipt u) m.read_receipts (record { user_id = user; read_at = now }),
  any-count_where (is_receipt user) m.read_receipts k,
)

module _ {S : Type 0} (c : Collection Message S) where
  IsOnce-update_one :
      (q : Message → Bool) (f : Message → Message) (s : S)
      → IsTame f
      → IsOnce (c.docs s)
      → IsOnce (c.docs (c.update_one q f s))
  IsOnce-update_one q f s t h = rw (c.update_one_law q f s) record {
    one_id = λ id.
        (let less =
            count-change_where (has_id id) q f (c.docs s)
              (λ m i j. sym (tame-has_id f t id m) ∙ j) in
          let lim = h.one_id id in omega (arith, less, lim));
    one_reaction = λ u e.
        (let less =
            count-change_where (reacts_twice u e) q f (c.docs s)
              (λ m i j. tame-reacts_twice f t u e m j) in
          let lim = h.one_reaction u e in omega (arith, less, lim));
    one_receipt = λ u.
        (let less =
            count-change_where (reads_twice u) q f (c.docs s)
              (λ m i j. sym (tame-reads_twice f t u m) ∙ j) in
          let lim = h.one_receipt u in omega (arith, less, lim));
  }

  pub IsOnce-update_many :
      (q : Message → Bool) (f : Message → Message) (s : S)
      → IsTame f
      → IsOnce (c.docs s)
      → IsOnce (c.docs (c.update_many q f s))
  IsOnce-update_many q f s t h = rw (c.update_many_law q f s) record {
    one_id = λ id.
        (let less =
            count-change_all (has_id id) q f (c.docs s) (λ m i j. sym (tame-has_id f t id m) ∙ j) in
          let lim = h.one_id id in omega (arith, less, lim));
    one_reaction = λ u e.
        (let less =
            count-change_all (reacts_twice u e) q f (c.docs s)
              (λ m i j. tame-reacts_twice f t u e m j) in
          let lim = h.one_reaction u e in omega (arith, less, lim));
    one_receipt = λ u.
        (let less =
            count-change_all (reads_twice u) q f (c.docs s)
              (λ m i j. sym (tame-reads_twice f t u m) ∙ j) in
          let lim = h.one_receipt u in omega (arith, less, lim));
  }

  pub IsOnce-find_by_id_and_update :
      (id : String) (f : Message → Message) (s : S)
      → IsTame f
      → IsOnce (c.docs s)
      → IsOnce (c.docs (find_by_id_and_update c id f s).0)
  unfolding find_by_id_and_update
  IsOnce-find_by_id_and_update id f s t h = elim (Option-cases (c.find_one (has_id id) s)) [
    | inl e ↦ rw (e, find_by_id_and_update) h
    | inr (m, e) ↦ rw (e, find_by_id_and_update) (IsOnce-update_one (has_id id) f s t h)
  ]

  -- A reaction that the found message does not have.
  pub IsOnce-reacted :
      (now : ℕ) (id user emoji : String) (s : S) (m : Message)
      → IsOnce (c.docs s)
      → c.find_one (has_id id) s ≡ some m
      → any (is_reaction user emoji) m.reactions ≡ false
      → IsOnce (c.docs (c.update_one (has_id id) (reacted now user emoji) s))
  unfolding reacted
  IsOnce-reacted now id user emoji s m h e k =
      rw (c.update_one_law (has_id id) (reacted now user emoji) s) record {
        one_id = λ i.
            (let less =
                count-change_where (has_id i) (has_id id) (reacted now user emoji) (c.docs s)
                  (λ x a b. b) in
              let lim = h.one_id i in omega (arith, less, lim));
        one_reaction = λ u x.
            (let (i, see) = c.find_one_some (has_id id) s m e in
              let found =
                see
                  (λ y.
                    has_id id y
                    && (reacts_twice u x y || not (reacts_twice u x (reacted now user emoji y))))
                  (ground (arith, i, reacted_once now user emoji u x m k)) in
              let less =
                count-change_where_seen (reacts_twice u x) (has_id id) (reacted now user emoji)
                  (c.docs s) (h.one_id id) found in
              let lim = h.one_reaction u x in omega (arith, less, lim));
        one_receipt = λ u.
            (let less =
                count-change_where (reads_twice u) (has_id id) (reacted now user emoji) (c.docs s)
                  (λ x a b. b) in
              let lim = h.one_receipt u in omega (arith, less, lim));
      }

  pub IsOnce-read_by :
      (now : ℕ) (id user : String) (s : S) (m : Message)
      → IsOnce (c.docs s)
      → c.find_one (has_id id) s ≡ some m
      → any (is_receipt user) m.read_receipts ≡ false
      → IsOnce (c.docs (c.update_one (has_id id) (read_by now user) s))
  unfolding read_by
  IsOnce-read_by now id user s m h e k =
      rw (c.update_one_law (has_id id) (read_by now user) s) record {
        one_id = λ i.
            (let less =
                count-change_where (has_id i) (has_id id) (read_by now user) (c.docs s)
                  (λ x a b. b) in
              let lim = h.one_id i in omega (arith, less, lim));
        one_reaction = λ u x.
            (let less =
                count-change_where (reacts_twice u x) (has_id id) (read_by now user) (c.docs s)
                  (λ y a b. b) in
              let lim = h.one_reaction u x in omega (arith, less, lim));
        one_receipt = λ u.
            (let (i, see) = c.find_one_some (has_id id) s m e in
              let found =
                see
                  (λ y.
                    has_id id y && (reads_twice u y || not (reads_twice u (read_by now user y))))
                  (ground (arith, i, read_once now user u m k)) in
              let less =
                count-change_where_seen (reads_twice u) (has_id id) (read_by now user) (c.docs s)
                  (h.one_id id) found in
              let lim = h.one_receipt u in omega (arith, less, lim));
      }
