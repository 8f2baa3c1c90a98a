-- ===== src/Trie/Fuzzy.antt =====
-- `fuzzySearch` and `levenshteinDistance` of src/common/search/trie.service.ts.
use Prim.Native.Nat.{min}
use backend_gateway.Base.{
  take, ℕ, suc, ◌+◌, ◌-◌, Bool, true, false, Option, some, List, [], ◌∷◌, ◌++◌, ◌==◌, nat_eq,
  if◌then◌else◌, map, ltb, leb, length,
}
use backend_gateway.Trie.Node.{Text, Trie, node, Children, nobody, child, units}

-- `dp[i][j]` of `dp[i - 1][j - 1]`, `dp[i - 1][j]` and `dp[i][j - 1]`.
abbrev pub cell : ℕ → ℕ → ℕ → ℕ → ℕ → ℕ
cell a b diagonal above left = if a == b then diagonal else 1 + min above (min left diagonal)

-- The row `dp[i]` from a column on: the row above is given from the column before, and the cell to
-- the left is known. Both rows are as long, so the clauses for a short row are never met.
unfoldable pub cells : ℕ → Text → List ℕ → ℕ → List ℕ
cells a [] above left = []
cells a (b ∷ bs) [] left = []
cells a (b ∷ bs) (d ∷ []) left = []
cells a (b ∷ bs) (d ∷ u ∷ above) left = let x = cell a b d u left in x ∷ cells a bs (u ∷ above) x

-- `dp[0]`
abbrev pub first_row : ℕ → Text → List ℕ
first_row j [] = j ∷ []
first_row j (b ∷ bs) = j ∷ first_row (suc j) bs

-- The rows from `dp[i]` on.
unfoldable pub rows : ℕ → Text → Text → List ℕ → List (List ℕ)
rows i [] str2 row = row ∷ []
rows i (a ∷ cs) str2 row = row ∷ rows (suc i) cs str2 (suc i ∷ cells a str2 row (suc i))

abbrev pub last_of {ℓ} : {B : Type ℓ} → B → List B → B
last_of x [] = x
last_of x (y ∷ ys) = last_of y ys

unfoldable pub levenshtein_distance : Text → Text → ℕ
levenshtein_distance str1 str2 = last_of 0 (last_of [] (rows 0 str1 str2 (first_row 0 str2)))

abbrev pub gap : ℕ → ℕ → ℕ
gap m n = (m - n) + (n - m)

module _ {ℓ} {A : Type ℓ} where
  -- A result is its datum, its distance and its frequency.
  abbrev pub close_result : Bool → Option A → ℕ → ℕ → ℕ → List (A × (ℕ × ℕ))
  close_result true (some x) f distance max_distance =
      if leb distance max_distance then (x, (distance, f)) ∷ [] else []
  close_result _ _ f distance max_distance = []

  -- What `fuzzySearchHelper` pushes, in order.
  unfoldable mutual
    pub fuzzy_search_helper : Trie A → Text → Text → ℕ → List (A × (ℕ × ℕ))
    fuzzy_search_helper (node c e d f) word query max_distance =
        close_result e d f (levenshtein_distance word query) max_distance
        ++ elim (ltb max_distance (gap (length word) (length query))) [
          | true ↦ []
          | false ↦ fuzzy_search_children c word query max_distance
        ]

    pub fuzzy_search_children : Children A → Text → Text → ℕ → List (A × (ℕ × ℕ))
    fuzzy_search_children nobody word query max_distance = []
    fuzzy_search_children (child k t r) word query max_distance =
        fuzzy_search_helper t (word ++ units k) query max_distance
        ++ fuzzy_search_children r word query max_distance

  -- Whether the comparison of the sort puts the second before the first.
  abbrev pub comes_after : A × (ℕ × ℕ) → A × (ℕ × ℕ) → Bool
  comes_after (x, (d, f)) (y, (e, g)) = if d == e then ltb f g else ltb e d

  abbrev pub order_one : A × (ℕ × ℕ) → List (A × (ℕ × ℕ)) → List (A × (ℕ × ℕ))
  order_one x [] = x ∷ []
  order_one x (y ∷ ys) = if comes_after x y then y ∷ order_one x ys else x ∷ y ∷ ys

  abbrev pub order : List (A × (ℕ × ℕ)) → List (A × (ℕ × ℕ))
  order [] = []
  order (x ∷ xs) = order_one x (order xs)

  unfoldable pub fuzzy_search : (Text → Text) → Text → ℕ → ℕ → Trie A → List A
  fuzzy_search to_lower_case [] max_distance limit root = []
  fuzzy_search to_lower_case (u ∷ us) max_distance limit root =
      map (λ r. r.0)
        (take limit (order (fuzzy_search_helper root [] (to_lower_case (u ∷ us)) max_distance)))
