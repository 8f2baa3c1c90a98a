-- ===== src/Trie/Lookup.antt =====
-- What the tree of src/common/search/trie.service.ts finds after it was changed.
use backend_gateway.Base.{
  ℕ, Bool, true, false, Option, none, some, List, [], ◌∷◌, ◌≡◌, ◌≢◌, refl, sym, if◌then◌else◌, ◌&&◌,
  not, arith, ◌==◌, nat_eq, Option-cases, inl, inr,
}
use backend_gateway.Trie.Node.{
  Trie, node, Children, nobody, child, bump, children, is_end_of_word, is_empty, get_child,
  set_child, remove_child, get_child-set, get_child-remove,
}
use backend_gateway.Trie.Words.{
  insert_chars, find_chars, word_data, is_word, delete_helper, child_or_new,
}

-- Equality of two walks.
abbrev pub same : List ℕ → List ℕ → Bool
same [] [] = true
same [] (j ∷ js) = false
same (k ∷ ks) [] = false
same (k ∷ ks) (j ∷ js) = k == j && same ks js

pub same_refl : (ks : List ℕ) → same ks ks ≡ true
same_refl [] = refl
same_refl (k ∷ ks) = ground (arith, same_refl ks)

pub eq_of_same : (ks js : List ℕ) → same ks js ≡ true → ks ≡ js
eq_of_same [] [] h = refl
eq_of_same [] (j ∷ js) h = ground arith
eq_of_same (k ∷ ks) [] h = ground arith
eq_of_same (k ∷ ks) (j ∷ js) h = ground (arith, eq_of_same ks js)

pub same_of_eq : (ks js : List ℕ) → ks ≡ js → same ks js ≡ true
same_of_eq ks js h = rw (sym h) (same_refl ks)

pub same_of_ne : (ks js : List ℕ) → ks ≢ js → same ks js ≡ false
same_of_ne ks js h = ground (arith, eq_of_same ks js)

module _ {ℓ} {A : Type ℓ} where
  -- The datum of the word that a walk ends at, if one ends there.
  abbrev pub word_at : Option (Trie A) → Option (Option A)
  word_at none = none
  word_at (some (node c e d f)) = if e then some d else none

  pub search-word_at :
      (o : Option (Trie A)) → word_data o ≡ elim (word_at o) [ none ↦ none | some d ↦ d ]
  search-word_at none = refl
  search-word_at (some (node c true d f)) = refl
  search-word_at (some (node c false d f)) = refl

  pub is_word-word_at :
      (o : Option (Trie A)) → is_word o ≡ elim (word_at o) [ none ↦ false | some d ↦ true ]
  is_word-word_at none = refl
  is_word-word_at (some (node c true d f)) = refl
  is_word-word_at (some (node c false d f)) = refl

  abbrev pub walk : List ℕ → Option (Trie A) → Option (Trie A)
  walk js none = none
  walk js (some t) = find_chars js t

  -- A walk after its first step.
  pub find_chars-node :
      (c : Children A) (e : Bool) (d : Option A) (f j : ℕ) (js : List ℕ)
      → find_chars (j ∷ js) (node c e d f) ≡ walk js (get_child c j)
  unfolding find_chars
  find_chars-node c e d f j js = ground arith

  word_at-bump :
      (js : List ℕ) (o : Option (Trie A))
      → word_at (find_chars js (bump (child_or_new o))) ≡ word_at (walk js o)
  unfolding find_chars
  word_at-bump [] none = refl
  word_at-bump (j ∷ js) none = refl
  word_at-bump [] (some (node c e d f)) = refl
  word_at-bump (j ∷ js) (some (node c e d f)) = refl

  insert_chars-node :
      (k : ℕ) (ks : List ℕ) (x : Option A) (c : Children A) (e : Bool) (d : Option A) (f : ℕ)
      → insert_chars (k ∷ ks) x (node c e d f)
        ≡ node (set_child k (insert_chars ks x (bump (child_or_new (get_child c k)))) c) e d f
  unfolding insert_chars
  insert_chars-node k ks x c e d f = refl

  -- The word that was inserted has its datum, and any other word what it had.
  pub word_at-insert_chars :
      (ks js : List ℕ) (x : Option A) (t : Trie A)
      → word_at (find_chars js (insert_chars ks x t))
        ≡ (if same ks js then some x else word_at (find_chars js t))
  unfolding insert_chars find_chars
  word_at-insert_chars [] [] x (node c e d f) = refl
  word_at-insert_chars [] (j ∷ js) x (node c e d f) = refl
  word_at-insert_chars (k ∷ ks) [] x (node c e d f) = refl
  word_at-insert_chars (k ∷ ks) (j ∷ js) x (node c e d f) =
      step k ks j js x c e d f (word_at-insert_chars ks js x (bump (child_or_new (get_child c k))))
    where
      step :
          (k : ℕ) (ks : List ℕ) (j : ℕ) (js : List ℕ) (x : Option A) (c : Children A) (e : Bool)
          (d : Option A) (f : ℕ)
          → word_at (find_chars js (insert_chars ks x (bump (child_or_new (get_child c k))))) ≡ (
              if same ks js
              then some x
              else word_at (find_chars js (bump (child_or_new (get_child c k)))))
          → word_at (find_chars (j ∷ js) (insert_chars (k ∷ ks) x (node c e d f))) ≡ (
              if same (k ∷ ks) (j ∷ js)
              then some x
              else word_at (find_chars (j ∷ js) (node c e d f)))
      step k ks j js x c e d f h = ground (
        arith,
        h,
        insert_chars-node k ks x c e d f,
        find_chars-node (set_child k (insert_chars ks x (bump (child_or_new (get_child c k)))) c) e
            d f j js,
        find_chars-node c e d f j js,
        get_child-set k j (insert_chars ks x (bump (child_or_new (get_child c k)))) c,
        word_at-bump js (get_child c k),
      )

  delete_helper-node :
      (k : ℕ) (ks : List ℕ) (c : Children A) (e : Bool) (d : Option A) (f : ℕ) (t : Trie A)
      → get_child c k ≡ some t
      → delete_helper (k ∷ ks) (node c e d f) ≡ (
          if (delete_helper ks t).0
          then (is_empty (remove_child k c) && not e, node (remove_child k c) e d f)
          else (false, node (set_child k (delete_helper ks t).1 c) e d f))
  unfolding delete_helper
  delete_helper-node k ks c e d f t h = rw (h, delete_helper) refl

  delete_helper-unknown :
      (k : ℕ) (ks : List ℕ) (c : Children A) (e : Bool) (d : Option A) (f : ℕ)
      → get_child c k ≡ none
      → delete_helper (k ∷ ks) (node c e d f) ≡ (false, node c e d f)
  unfolding delete_helper
  delete_helper-unknown k ks c e d f h = rw (h, delete_helper) refl

  abbrev pub IsBare : Trie A → Type 0
  IsBare t = (is_empty (children t) ≡ true) × (is_end_of_word t ≡ false)

  pub word_at-bare : (js : List ℕ) (t : Trie A) → IsBare t → word_at (find_chars js t) ≡ none
  unfolding find_chars
  word_at-bare [] (node c e d f) h = ground arith
  word_at-bare (j ∷ js) (node nobody e d f) h = refl
  word_at-bare (j ∷ js) (node (child k t r) e d f) h = ground arith

  -- A node that is to be deleted has no words and no children.
  pub delete_helper-IsBare :
      (ks : List ℕ) (t : Trie A) → (delete_helper ks t).0 ≡ true → IsBare (delete_helper ks t).1
  unfolding delete_helper
  delete_helper-IsBare [] (node c true d f) h = (h, refl)
  delete_helper-IsBare [] (node c false d f) h = ground arith
  delete_helper-IsBare (k ∷ ks) (node c e d f) h = elim (Option-cases (get_child c k)) [
    | inl g ↦ ground (arith, delete_helper-unknown k ks c e d f g)
    | inr (t, g) ↦ ground (arith, delete_helper-node k ks c e d f t g)
  ]

  root_kept :
      (k : ℕ) (ks : List ℕ) (c : Children A) (e : Bool) (d : Option A) (f : ℕ)
      → word_at (some (delete_helper (k ∷ ks) (node c e d f)).1) ≡ word_at (some (node c e d f))
  root_kept k ks c e d f = elim (Option-cases (get_child c k)) [
    | inl g ↦ ground (arith, delete_helper-unknown k ks c e d f g)
    | inr (t, g) ↦ ground (arith, delete_helper-node k ks c e d f t g)
  ]

  -- The word that was deleted has no datum, and any other word what it had.
  pub word_at-delete_helper :
      (ks js : List ℕ) (t : Trie A)
      → word_at (find_chars js (delete_helper ks t).1)
        ≡ (if same ks js then none else word_at (find_chars js t))
  unfolding delete_helper find_chars
  word_at-delete_helper [] [] (node c true d f) = refl
  word_at-delete_helper [] [] (node c false d f) = refl
  word_at-delete_helper [] (j ∷ js) (node c true d f) = refl
  word_at-delete_helper [] (j ∷ js) (node c false d f) = refl
  word_at-delete_helper (k ∷ ks) [] (node c e d f) = root_kept k ks c e d f
  word_at-delete_helper (k ∷ ks) (j ∷ js) (node c e d f) = elim (Option-cases (get_child c k)) [
    | inl g ↦ unknown g
    | inr (t, g) ↦ known t g (word_at-delete_helper ks js t)
  ]
    where
      unknown :
          get_child c k ≡ none
          → word_at (find_chars (j ∷ js) (delete_helper (k ∷ ks) (node c e d f)).1) ≡ (
              if same (k ∷ ks) (j ∷ js) then none else word_at (find_chars (j ∷ js) (node c e d f)))
      unknown g = ground (arith, delete_helper-unknown k ks c e d f g, find_chars-node c e d f j js)

      known :
          (t : Trie A)
          → get_child c k ≡ some t
          → word_at (find_chars js (delete_helper ks t).1)
            ≡ (if same ks js then none else word_at (find_chars js t))
          → word_at (find_chars (j ∷ js) (delete_helper (k ∷ ks) (node c e d f)).1) ≡ (
              if same (k ∷ ks) (j ∷ js) then none else word_at (find_chars (j ∷ js) (node c e d f)))
      known t g h = ground (
        arith,
        h,
        delete_helper-node k ks c e d f t g,
        delete_helper-IsBare ks t,
        word_at-bare js (delete_helper ks t).1,
        find_chars-node (remove_child k c) e d f j js,
        find_chars-node (set_child k (delete_helper ks t).1 c) e d f j js,
        find_chars-node c e d f j js,
        get_child-remove k j c,
        get_child-set k j (delete_helper ks t).1 c,
      )
