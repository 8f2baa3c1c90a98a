-- ===== src/Trie/Prefix.antt =====
-- `searchByPrefix` and `getStats` of src/common/search/trie.service.ts.
use backend_gateway.Base.{
  take, ℕ, ◌+◌, Bool, true, Option, none, some, List, [], ◌∷◌, ◌++◌, if◌then◌else◌, map, ltb,
}
use backend_gateway.Trie.Node.{Text, Trie, node, Children, nobody, child}
use backend_gateway.Trie.Words.{find_node}

module _ {ℓ} {A : Type ℓ} where
  abbrev pub own_result : Bool → Option A → ℕ → List (A × ℕ)
  own_result true (some x) f = (x, f) ∷ []
  own_result _ _ f = []

  -- What `collectWords` pushes, in order.
  unfoldable mutual
    pub collect_words : Trie A → List (A × ℕ)
    collect_words (node c e d f) = own_result e d f ++ collect_children c

    pub collect_children : Children A → List (A × ℕ)
    collect_children nobody = []
    collect_children (child k t r) = collect_words t ++ collect_children r

  -- `results.sort((a, b) => b.frequency - a.frequency)` is stable: equally frequent entries
  -- keep their order.
  abbrev pub rank_one : A × ℕ → List (A × ℕ) → List (A × ℕ)
  rank_one x [] = x ∷ []
  rank_one x (y ∷ ys) = if ltb x.1 y.1 then y ∷ rank_one x ys else x ∷ y ∷ ys

  abbrev pub rank : List (A × ℕ) → List (A × ℕ)
  rank [] = []
  rank (x ∷ xs) = rank_one x (rank xs)

  unfoldable pub ranked_data : ℕ → Option (Trie A) → List A
  ranked_data limit none = []
  ranked_data limit (some t) = map (λ r. r.0) (take limit (rank (collect_words t)))

  unfoldable pub search_by_prefix : (Text → Text) → Text → ℕ → Trie A → List A
  search_by_prefix to_lower_case [] limit root = []
  search_by_prefix to_lower_case (u ∷ us) limit root =
      ranked_data limit (find_node to_lower_case (to_lower_case (u ∷ us)) root)

  -- `countNodes`
  unfoldable mutual
    pub count_nodes : Trie A → ℕ
    count_nodes (node c e d f) = 1 + count_nodes_below c

    pub count_nodes_below : Children A → ℕ
    count_nodes_below nobody = 0
    count_nodes_below (child k t r) = count_nodes t + count_nodes_below r

  unfoldable mutual
    pub count_words : Trie A → ℕ
    count_words (node c e d f) = (if e then 1 else 0) + count_words_below c

    pub count_words_below : Children A → ℕ
    count_words_below nobody = 0
    count_words_below (child k t r) = count_words t + count_words_below r

  abbrev pub get_stats : Trie A → ℕ × ℕ
  get_stats root = (count_nodes root, count_words root)
