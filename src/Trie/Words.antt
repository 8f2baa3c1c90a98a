-- ===== src/Trie/Words.antt =====
-- The operations on words of src/common/search/trie.service.ts. What `toLowerCase` gives is an
-- argument.
use backend_gateway.Base.{
  ℕ, Bool, true, false, Option, none, some, List, [], ◌∷◌, if◌then◌else◌, ◌&&◌, not,
}
use backend_gateway.Trie.Node.{
  Text, Trie, node, chars, new_node, bump, is_end_of_word, is_empty, get_child, set_child,
  remove_child,
}

abbrev pub letters : (Text → Text) → Text → List ℕ
letters to_lower_case word = chars (to_lower_case word)

module _ {ℓ} {A : Type ℓ} where
  abbrev pub child_or_new : Option (Trie A) → Trie A
  child_or_new none = new_node
  child_or_new (some t) = t

  -- The loop of `insert`, from a node on.
  unfoldable pub insert_chars : List ℕ → Option A → Trie A → Trie A
  insert_chars [] x (node c e d f) = node c true x f
  insert_chars (k ∷ ks) x (node c e d f) =
      node (set_child k (insert_chars ks x (bump (child_or_new (get_child c k)))) c) e d f

  -- The loop of `findNode`.
  unfoldable pub find_chars : List ℕ → Trie A → Option (Trie A)
  find_chars [] t = some t
  find_chars (k ∷ ks) (node c e d f) = elim (get_child c k) [
    | none ↦ none
    | some t ↦ find_chars ks t
  ]

  -- `node && node.isEndOfWord ? node.data : null`
  abbrev pub word_data : Option (Trie A) → Option A
  word_data none = none
  word_data (some (node c e d f)) = if e then d else none

  abbrev pub is_word : Option (Trie A) → Bool
  is_word none = false
  is_word (some t) = is_end_of_word t

  -- Whether the node is to be deleted, and the tree that is left.
  unfoldable pub delete_helper : List ℕ → Trie A → Bool × Trie A
  delete_helper [] (node c e d f) =
      if e then (is_empty c, node c false none f) else (false, node c e d f)
  delete_helper (k ∷ ks) (node c e d f) = elim (get_child c k) [
    | none ↦ (false, node c e d f)
    | some t ↦
        let rest = delete_helper ks t in
        if rest.0
        then (is_empty (remove_child k c) && not e, node (remove_child k c) e d f)
        else (false, node (set_child k rest.1 c) e d f)
  ]

  abbrev pub clear : Trie A
  clear = new_node

  module _ (to_lower_case : Text → Text) where
    unfoldable pub insert : Text → Option A → Trie A → Trie A
    insert [] x root = root
    insert (u ∷ us) x root = insert_chars (letters to_lower_case (u ∷ us)) x root

    unfoldable pub find_node : Text → Trie A → Option (Trie A)
    find_node word root = find_chars (letters to_lower_case word) root

    unfoldable pub search : Text → Trie A → Option A
    unfolding find_node
    search word root = word_data (find_node word root)

    unfoldable pub contains : Text → Trie A → Bool
    unfolding find_node
    contains word root = is_word (find_node word root)

    -- The units of the word are walked one by one (`word[index]`).
    unfoldable pub delete : Text → Trie A → Bool × Trie A
    delete [] root = (false, root)
    delete (u ∷ us) root = delete_helper (to_lower_case (u ∷ us)) root
