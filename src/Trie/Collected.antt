-- ===== src/Trie/Collected.antt =====
-- What `collectWords` of src/common/search/trie.service.ts collects from a node.
use backend_gateway.Base.{
  ℕ, Bool, true, false, Option, none, some, List, [], ◌∷◌, ◌++◌, ◌≡◌, refl, sym, ap, subst, ◌∙◌,
  ◌==◌, nat_eq, arith, Option-cases, Bool-cases, inl, inr, All, All-append, ==_refl,
}
use backend_gateway.Trie.Node.{Trie, node, Children, nobody, child, get_child}
use backend_gateway.Trie.Words.{find_chars}
use backend_gateway.Trie.Prefix.{own_result, collect_words, collect_children}
use backend_gateway.Trie.Lookup.{walk, find_chars-node}
use backend_gateway.Trie.Proper.{IsProper, IsProperBelow, get_child-IsProper}
use backend_gateway.Trie.Ranking.{Among, Among-append_left, Among-append_right, All-mono}

module _ {ℓ} {A : Type ℓ} where
  abbrev entry : Bool → Option A → ℕ → Option (A × ℕ)
  entry true (some x) f = some (x, f)
  entry _ _ f = none

  -- The datum, if it is truthy, and the frequency of the word at the end of a walk.
  abbrev pub entry_at : Option (Trie A) → Option (A × ℕ)
  entry_at none = none
  entry_at (some (node c e d f)) = entry e d f

  -- The words whose letters go on from some that were walked.
  abbrev pub GoesOn : Option (Trie A) → A × ℕ → Type ℓ
  GoesOn o r = (ks : List ℕ) × (entry_at (walk ks o) ≡ some r)

  abbrev Below : Children A → A × ℕ → Type ℓ
  Below c r = (k : ℕ) × (ks : List ℕ) × (entry_at (walk ks (get_child c k)) ≡ some r)

  find_chars-end : (t : Trie A) → find_chars [] t ≡ some t
  unfolding find_chars
  find_chars-end t = refl

  entry_at-step :
      (c : Children A) (e : Bool) (d : Option A) (f k : ℕ) (ks : List ℕ)
      → entry_at (walk (k ∷ ks) (some (node c e d f))) ≡ entry_at (walk ks (get_child c k))
  entry_at-step c e d f k ks = ap entry_at (find_chars-node c e d f k ks)

  own_result_sound :
      (c : Children A) (e : Bool) (d : Option A) (f : ℕ)
      → All (GoesOn (some (node c e d f))) (own_result e d f)
  own_result_sound c true (some x) f =
      (([], ap entry_at (find_chars-end (node c true (some x) f))), tt)
  own_result_sound c true none f = tt
  own_result_sound c false d f = tt

  GoesOn-child :
      (k : ℕ) (t : Trie A) (c : Children A) (r : A × ℕ) → GoesOn (some t) r → Below (child k t c) r
  GoesOn-child k t c r (ks, m) = (k, ks, rw (==_refl k) m)

  Below-child :
      (k : ℕ) (t : Trie A) (c : Children A) (r : A × ℕ)
      → get_child c k ≡ none
      → Below c r
      → Below (child k t c) r
  Below-child k t c r new (j, ks, m) = (j, ks, ground (arith, new, m))

  GoesOn-node :
      (c : Children A) (e : Bool) (d : Option A) (f : ℕ) (r : A × ℕ)
      → Below c r
      → GoesOn (some (node c e d f)) r
  GoesOn-node c e d f r (k, ks, m) = (k ∷ ks, entry_at-step c e d f k ks ∙ m)

  -- What is collected from a node is the words that go on from it.
  mutual
    unfolding collect_words collect_children

    pub collect_words_sound : (t : Trie A) → IsProper t → All (GoesOn (some t)) (collect_words t)
    collect_words_sound (node c e d f) h =
        All-append (GoesOn (some (node c e d f))) (own_result e d f) (collect_children c)
          (own_result_sound c e d f)
          (All-mono (Below c) (GoesOn (some (node c e d f))) (GoesOn-node c e d f)
            (collect_children c) (collect_children_sound c h))

    collect_children_sound : (c : Children A) → IsProperBelow c → All (Below c) (collect_children c)
    collect_children_sound nobody h = tt
    collect_children_sound (child k t r) h =
        All-append (Below (child k t r)) (collect_words t) (collect_children r)
          (All-mono (GoesOn (some t)) (Below (child k t r)) (GoesOn-child k t r) (collect_words t)
            (collect_words_sound t h.1))
          (All-mono (Below r) (Below (child k t r)) (λ x. Below-child k t r x h.0)
            (collect_children r) (collect_children_sound r h.2))

  collect_children-get :
      (c : Children A) (k : ℕ) (t : Trie A) (r : A × ℕ)
      → get_child c k ≡ some t
      → Among r (collect_words t)
      → Among r (collect_children c)
  unfolding collect_children
  collect_children-get nobody k t r e m = ground arith
  collect_children-get (child j u c) k t r e m = elim (Bool-cases (j == k)) [
    | inl g ↦
        let same : u ≡ t = ground arith in
        Among-append_left r (collect_words u) (collect_children c)
          (subst (λ z. Among r (collect_words z)) (sym same) m)
    | inr g ↦
        Among-append_right r (collect_words u) (collect_children c)
          (collect_children-get c k t r (ground arith) m)
  ]

  own_result_complete :
      (e : Bool) (d : Option A) (f : ℕ) (r : A × ℕ)
      → entry e d f ≡ some r
      → Among r (own_result e d f)
  own_result_complete true (some x) f r h = inl (ground arith)
  own_result_complete true none f r h = ground arith
  own_result_complete false d f r h = ground arith

  pub collect_words_complete :
      (ks : List ℕ) (t : Trie A) (r : A × ℕ)
      → entry_at (walk ks (some t)) ≡ some r
      → Among r (collect_words t)
  unfolding collect_words
  collect_words_complete [] (node c e d f) r h =
      Among-append_left r (own_result e d f) (collect_children c)
        (own_result_complete e d f r (sym (ap entry_at (find_chars-end (node c e d f))) ∙ h))
  collect_words_complete (k ∷ ks) (node c e d f) r h = elim (Option-cases (get_child c k)) [
    | inl g ↦ absurd (ground (arith, entry_at-step c e d f k ks))
    | inr (t, g) ↦ Among-append_right r (own_result e d f) (collect_children c) (
        collect_children-get c k t r g
          (collect_words_complete ks t r (ground (arith, entry_at-step c e d f k ks))))
  ]

  pub walk-append : (ps ks : List ℕ) (o : Option (Trie A)) → walk (ps ++ ks) o ≡ walk ks (walk ps o)
  walk-append ps ks none = ground arith
  walk-append [] ks (some t) = sym (ap (walk ks) (find_chars-end t))
  walk-append (p ∷ ps) ks (some (node c e d f)) =
      find_chars-node c e d f p (ps ++ ks)
      ∙ walk-append ps ks (get_child c p)
      ∙ sym (ap (walk ks) (find_chars-node c e d f p ps))

  pub find_chars-IsProper :
      (ks : List ℕ) (t u : Trie A) → IsProper t → find_chars ks t ≡ some u → IsProper u
  find_chars-IsProper [] t u h e = ground (arith, find_chars-end t)
  find_chars-IsProper (k ∷ ks) (node c e d f) u h m = elim (Option-cases (get_child c k)) [
    | inl g ↦ absurd (ground (arith, find_chars-node c e d f k ks))
    | inr (t, g) ↦
        find_chars-IsProper ks t u (get_child-IsProper c k t h g)
          (ground (arith, find_chars-node c e d f k ks))
  ]
