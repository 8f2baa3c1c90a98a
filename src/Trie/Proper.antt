-- ===== src/Trie/Proper.antt =====
-- Search trees in which no node has two children of one character (the `Map` of `TrieNode` in
-- src/common/search/trie.service.ts).
use backend_gateway.Base.{
  ℕ, Bool, true, false, Option, none, some, List, [], ◌∷◌, ◌≡◌, refl, if◌then◌else◌, nat_eq, ◌&&◌,
  not, arith, Option-cases, inl, inr,
}
use backend_gateway.Trie.Node.{
  Trie, node, Children, nobody, child, bump, is_empty, get_child, set_child, remove_child,
  get_child-set, get_child-remove,
}
use backend_gateway.Trie.Words.{insert_chars, delete_helper, child_or_new}

module _ {ℓ} {A : Type ℓ} where
  abbrev mutual
    pub IsProper : Trie A → Type ℓ
    IsProper (node c e d f) = IsProperBelow c

    pub IsProperBelow : Children A → Type ℓ
    IsProperBelow nobody = Unit
    IsProperBelow (child k t r) = (get_child r k ≡ none) × IsProper t × IsProperBelow r

  pub get_child-IsProper :
      (c : Children A) (k : ℕ) (t : Trie A) → IsProperBelow c → get_child c k ≡ some t → IsProper t
  get_child-IsProper nobody k t h e = ground arith
  get_child-IsProper (child j u r) k t h e = ground (arith, get_child-IsProper r k t)

  set_child-IsProper :
      (k : ℕ) (x : Trie A) (c : Children A)
      → IsProper x
      → IsProperBelow c
      → IsProperBelow (set_child k x c)
  set_child-IsProper k x nobody p h = (refl, p, tt)
  set_child-IsProper k x (child j t r) p h =
      ground (arith, set_child-IsProper k x r p h.2, get_child-set k j x r)

  remove_child-IsProper :
      (k : ℕ) (c : Children A) → IsProperBelow c → IsProperBelow (remove_child k c)
  remove_child-IsProper k nobody h = tt
  remove_child-IsProper k (child j t r) h =
      ground (arith, remove_child-IsProper k r h.2, get_child-remove k j r)

  child_or_new-IsProper :
      (c : Children A) (k : ℕ) → IsProperBelow c → IsProper (bump (child_or_new (get_child c k)))
  child_or_new-IsProper c k h = elim (Option-cases (get_child c k)) [
    | inl e ↦ rw e tt
    | inr (t, e) ↦ rw e (bump-IsProper t (get_child-IsProper c k t h e))
  ]
    where
      bump-IsProper : (t : Trie A) → IsProper t → IsProper (bump t)
      bump-IsProper (node c e d f) h = h

  pub insert_chars-IsProper :
      (ks : List ℕ) (x : Option A) (t : Trie A) → IsProper t → IsProper (insert_chars ks x t)
  unfolding insert_chars
  insert_chars-IsProper [] x (node c e d f) h = h
  insert_chars-IsProper (k ∷ ks) x (node c e d f) h =
      set_child-IsProper k (insert_chars ks x (bump (child_or_new (get_child c k)))) c
        (insert_chars-IsProper ks x (bump (child_or_new (get_child c k)))
          (child_or_new-IsProper c k h))
        h

  pub delete_helper-IsProper :
      (ks : List ℕ) (t : Trie A) → IsProper t → IsProper (delete_helper ks t).1
  unfolding delete_helper
  delete_helper-IsProper [] (node c true d f) h = h
  delete_helper-IsProper [] (node c false d f) h = h
  delete_helper-IsProper (k ∷ ks) (node c e d f) h = elim (Option-cases (get_child c k)) [
    | inl g ↦ rw (g, delete_helper) h
    | inr (t, g) ↦
        rw (g, delete_helper)
          (below k (delete_helper ks t) c e d f h
            (delete_helper-IsProper ks t (get_child-IsProper c k t h g)))
  ]
    where
      below :
          (k : ℕ) (rest : Bool × Trie A) (c : Children A) (e : Bool) (d : Option A) (f : ℕ)
          → IsProperBelow c
          → IsProper rest.1
          → IsProper
              (if◌then◌else◌ {A = Bool × Trie A} rest.0
                (is_empty (remove_child k c) && not e, node (remove_child k c) e d f)
                (false, node (set_child k rest.1 c) e d f)).1
      below k (true, t) c e d f h p = remove_child-IsProper k c h
      below k (false, t) c e d f h p = set_child-IsProper k t c p h
