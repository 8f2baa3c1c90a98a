-- ===== src/Trie/Changes.antt =====
-- The answers of the search tree of src/common/search/trie.service.ts after a change of it.
use backend_gateway.Base.{
  ℕ, ◌<◌, true, false, Option, none, some, List, [], ◌∷◌, ◌++◌, ◌≡◌, ◌≢◌, refl, sym, ap, ◌∙◌,
  if◌then◌else◌, ◌&&◌, arith, Bool-cases, inl, inr, All,
}
use backend_gateway.Trie.Node.{Text, Trie, chars, units, is_high, is_low, code_point}
use backend_gateway.Trie.Words.{
  letters, find_chars, delete_helper, insert, search, contains, delete,
}
use backend_gateway.Trie.Lookup.{
  same, same_of_eq, same_of_ne, word_at, search-word_at, is_word-word_at, word_at-insert_chars,
  delete_helper-IsBare, word_at-bare, word_at-delete_helper,
}

module _ {ℓ} {A : Type ℓ} (to_lower_case : Text → Text) where
  abbrev word : Text → Trie A → Option (Option A)
  word v t = word_at (find_chars (letters to_lower_case v) t)

  search-word :
      (v : Text) (t : Trie A)
      → search to_lower_case v t ≡ elim (word v t) [ none ↦ none | some d ↦ d ]
  unfolding search
  search-word v t = search-word_at (find_chars (letters to_lower_case v) t)

  contains-word :
      (v : Text) (t : Trie A)
      → contains to_lower_case v t ≡ elim (word v t) [ none ↦ false | some d ↦ true ]
  unfolding contains
  contains-word v t = is_word-word_at (find_chars (letters to_lower_case v) t)

  known :
      (v : Text) (t : Trie A) (x : Option A)
      → word v t ≡ some x
      → (search to_lower_case v t ≡ x) × (contains to_lower_case v t ≡ true)
  known v t x h = (ground (arith, search-word v t), ground (arith, contains-word v t))

  unknown :
      (v : Text) (t : Trie A)
      → word v t ≡ none
      → (search to_lower_case v t ≡ none) × (contains to_lower_case v t ≡ false)
  unknown v t h = (ground (arith, search-word v t), ground (arith, contains-word v t))

  unchanged :
      (v : Text) (t u : Trie A)
      → word v u ≡ word v t
      → (search to_lower_case v u ≡ search to_lower_case v t)
        × (contains to_lower_case v u ≡ contains to_lower_case v t)
  unchanged v t u h = (
    rw (search-word v u, search-word v t, h) refl,
    rw (contains-word v u, contains-word v t, h) refl,
  )

  word-insert :
      (w v : Text) (x : Option A) (t : Trie A)
      → w ≢ []
      → word v (insert to_lower_case w x t)
        ≡ (if same (letters to_lower_case w) (letters to_lower_case v) then some x else word v t)
  unfolding insert
  word-insert [] v x t h = absurd (h refl)
  word-insert (u ∷ us) v x t h =
      word_at-insert_chars (letters to_lower_case (u ∷ us)) (letters to_lower_case v) x t

  word-delete :
      (w v : Text) (t : Trie A)
      → w ≢ []
      → word v (delete to_lower_case w t).1
        ≡ (if same (to_lower_case w) (letters to_lower_case v) then none else word v t)
  unfolding delete
  word-delete [] v t h = absurd (h refl)
  word-delete (u ∷ us) v t h =
      word_at-delete_helper (to_lower_case (u ∷ us)) (letters to_lower_case v) t

  -- After a non-empty word is inserted with a datum, each text of the same letters is found with that
  -- datum, and any other text is answered as before.
  pub search-insert :
      (w v : Text) (x : Option A) (t : Trie A)
      → w ≢ []
      → (letters to_lower_case w ≡ letters to_lower_case v
          → (search to_lower_case v (insert to_lower_case w x t) ≡ x)
            × (contains to_lower_case v (insert to_lower_case w x t) ≡ true))
        × (letters to_lower_case w ≢ letters to_lower_case v
            → (search to_lower_case v (insert to_lower_case w x t) ≡ search to_lower_case v t)
              × (contains to_lower_case v (insert to_lower_case w x t)
                  ≡ contains to_lower_case v t))
  search-insert w v x t h =
      let e = word-insert w v x t h in
      let new = insert to_lower_case w x t in
      let a = letters to_lower_case w in
      let b = letters to_lower_case v in
      (
        λ k. known v new x (e ∙ rw (same_of_eq a b k) refl),
        λ k. unchanged v t new (e ∙ rw (same_of_ne a b k) refl),
      )

  -- After a non-empty word is deleted, the texts whose letters are the units of the lowered word are
  -- not found, and any other text is answered as before.
  pub search-delete :
      (w v : Text) (t : Trie A)
      → w ≢ []
      → (to_lower_case w ≡ letters to_lower_case v
          → (search to_lower_case v (delete to_lower_case w t).1 ≡ none)
            × (contains to_lower_case v (delete to_lower_case w t).1 ≡ false))
        × (to_lower_case w ≢ letters to_lower_case v
            → (search to_lower_case v (delete to_lower_case w t).1 ≡ search to_lower_case v t)
              × (contains to_lower_case v (delete to_lower_case w t).1
                  ≡ contains to_lower_case v t))
  search-delete w v t h =
      let e = word-delete w v t h in
      let new = (delete to_lower_case w t).1 in
      let a = to_lower_case w in
      let b = letters to_lower_case v in
      (
        λ k. unknown v new (e ∙ rw (same_of_eq a b k) refl),
        λ k. unchanged v t new (e ∙ rw (same_of_ne a b k) refl),
      )

  -- A deletion answers true only if it leaves no word at all.
  pub delete-true :
      (w v : Text) (t : Trie A)
      → (delete to_lower_case w t).0 ≡ true
      → contains to_lower_case v (delete to_lower_case w t).1 ≡ false
  unfolding delete
  delete-true [] v t h = ground arith
  delete-true (u ∷ us) v t h =
      (unknown v (delete_helper (to_lower_case (u ∷ us)) t).1 (
        word_at-bare (letters to_lower_case v) (delete_helper (to_lower_case (u ∷ us)) t).1
          (delete_helper-IsBare (to_lower_case (u ∷ us)) t h))).1

abbrev IsUnits : Text → Type 0
IsUnits w = All (λ u. u < 65536) w

abbrev text_of : List ℕ → Text
text_of [] = []
text_of (c ∷ cs) = units c ++ text_of cs

units-code_point : (a b : ℕ) → (is_high a && is_low b) ≡ true → units (code_point a b) ≡ a ∷ b ∷ []
units-code_point a b h = ground arith

chars-pair :
    (a b : ℕ) (rest : Text)
    → (is_high a && is_low b) ≡ true
    → chars (a ∷ b ∷ rest) ≡ code_point a b ∷ chars rest
unfolding chars
chars-pair a b rest h = rw (h, chars) refl

chars-single :
    (a b : ℕ) (rest : Text)
    → (is_high a && is_low b) ≡ false
    → chars (a ∷ b ∷ rest) ≡ a ∷ chars (b ∷ rest)
unfolding chars
chars-single a b rest h = rw (h, chars) refl

units-small : (a : ℕ) → a < 65536 → units a ≡ a ∷ []
units-small a h = ground arith

text_of-chars : (w : Text) → IsUnits w → text_of (chars w) ≡ w
unfolding chars
text_of-chars [] h = refl
text_of-chars (a ∷ []) h = ground (arith, h.0)
text_of-chars (a ∷ b ∷ rest) h = elim (Bool-cases (is_high a && is_low b)) [
  | inl k ↦
      rw (chars-pair a b rest k, units-code_point a b k)
        (ap (λ w. a ∷ b ∷ w) (text_of-chars rest h.1.1))
  | inr k ↦
      rw (chars-single a b rest k, units-small a h.0) (ap (◌∷◌ a) (text_of-chars (b ∷ rest) h.1))
]

-- Texts of 16-bit units with the same characters are the same text.
pub chars-injective : (w v : Text) → IsUnits w → IsUnits v → chars w ≡ chars v → w ≡ v
chars-injective w v h k e = sym (text_of-chars w h) ∙ ap text_of e ∙ text_of-chars v k
