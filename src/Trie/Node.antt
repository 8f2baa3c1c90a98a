-- ===== src/Trie/Node.antt =====
-- `TrieNode` of src/common/search/trie.service.ts, and the texts that are walked. A text is its
-- UTF-16 units; a key of `children` is a code point, which stands for the text of that one point.
use backend_gateway.Base.{
  ◌≡◌, refl, arith, ℕ, ◌+◌, ◌-◌, ◌*◌, ◌/◌, ◌%◌, Bool, true, false, Option, none, some, List, [],
  ◌∷◌, ◌==◌, nat_eq, if◌then◌else◌, ltb, leb, ◌&&◌,
}

abbrev pub Text : Type 0
Text = List ℕ

-- A datum that is null, or falsy, is `none`.
mutual
  pub data Trie {ℓ} (A : Type ℓ) : Type ℓ where
    node : Children A → Bool → Option A → ℕ → Trie A

  pub data Children {ℓ} (A : Type ℓ) : Type ℓ where
    nobody : Children A
    child : ℕ → Trie A → Children A → Children A

abbrev pub is_high : ℕ → Bool
is_high u = leb 55296 u && ltb u 56320

abbrev pub is_low : ℕ → Bool
is_low u = leb 56320 u && ltb u 57344

abbrev pub code_point : ℕ → ℕ → ℕ
code_point h l = 65536 + (1024 * (h - 55296) + (l - 56320))

-- `for (const char of word)`: a surrogate pair is one character.
unfoldable pub chars : Text → List ℕ
chars [] = []
chars (a ∷ []) = a ∷ []
chars (a ∷ b ∷ rest) = elim (is_high a && is_low b) [
  | true ↦ code_point a b ∷ chars rest
  | false ↦ a ∷ chars (b ∷ rest)
]

-- The text of one code point.
abbrev pub units : ℕ → Text
units c =
    if ltb c 65536 then c ∷ [] else (55296 + (c - 65536) / 1024) ∷ (56320 + (c - 65536) % 1024) ∷ []

module _ {ℓ} {A : Type ℓ} where
  abbrev pub new_node : Trie A
  new_node = node nobody false none 0

  -- `node.frequency++`
  abbrev pub bump : Trie A → Trie A
  bump (node c e d f) = node c e d (f + 1)

  abbrev pub children : Trie A → Children A
  children (node c e d f) = c

  abbrev pub is_end_of_word : Trie A → Bool
  is_end_of_word (node c e d f) = e

  -- `children.size === 0`
  abbrev pub is_empty : Children A → Bool
  is_empty nobody = true
  is_empty (child k t r) = false

  -- `children.get(char)`
  abbrev pub get_child : Children A → ℕ → Option (Trie A)
  get_child nobody k = none
  get_child (child j t r) k = if j == k then some t else get_child r k

  -- `children.set(char, node)`: in place, or at the end.
  abbrev pub set_child : ℕ → Trie A → Children A → Children A
  set_child k x nobody = child k x nobody
  set_child k x (child j t r) = if j == k then child j x r else child j t (set_child k x r)

  -- `children.delete(char)`
  abbrev pub remove_child : ℕ → Children A → Children A
  remove_child k nobody = nobody
  remove_child k (child j t r) = if j == k then remove_child k r else child j t (remove_child k r)

  pub get_child-set :
      (k j : ℕ) (x : Trie A) (c : Children A)
      → get_child (set_child k x c) j ≡ (if k == j then some x else get_child c j)
  get_child-set k j x nobody = refl
  get_child-set k j x (child i t r) = ground (arith, get_child-set k j x r)

  pub get_child-remove :
      (k j : ℕ) (c : Children A)
      → get_child (remove_child k c) j ≡ (if k == j then none else get_child c j)
  get_child-remove k j nobody = ground arith
  get_child-remove k j (child i t r) = ground (arith, get_child-remove k j r)
