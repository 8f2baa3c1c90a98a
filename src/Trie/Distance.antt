-- ===== src/Trie/Distance.antt =====
-- The edit distance of src/common/search/trie.service.ts.
use backend_gateway.Base.{
  ℕ, suc, List, [], ◌∷◌, ◌++◌, ◌≡◌, ◌↔◌, refl, sym, ap, subst, ◌∙◌, nat_eq, length, leb, ◌==◌,
  if◌then◌else◌, arith,
}
use backend_gateway.Trie.Node.{Text}
use backend_gateway.Trie.Fuzzy.{cell, cells, first_row, rows, last_of, levenshtein_distance}

abbrev pub least : ℕ → ℕ → ℕ
least a b = if leb a b then a else b

-- The edit distance of two texts from their ends: equal last characters are kept; otherwise one
-- is replaced, deleted or inserted, whichever is best, at the price of 1.
unfoldable pub edits : List ℕ → List ℕ → ℕ
edits [] ys = length ys
edits (x ∷ xs) [] = suc (length xs)
edits (x ∷ xs) (y ∷ ys) =
    let replaced = edits xs ys in
    let deleted = edits xs (y ∷ ys) in
    let inserted = edits (x ∷ xs) ys in
    if x == y then replaced else suc (least replaced (least deleted inserted))

cell-least : (x y d a l : ℕ) → cell x y d a l ≡ (if x == y then d else suc (least d (least a l)))
cell-least x y d a l = ground arith

abbrev pub reverse_onto : List ℕ → List ℕ → List ℕ
reverse_onto acc [] = acc
reverse_onto acc (x ∷ xs) = reverse_onto (x ∷ acc) xs

-- The distances of `q` from what was read of the second text, and each longer part of it.
abbrev row_after : List ℕ → List ℕ → Text → List ℕ
row_after q acc [] = []
row_after q acc (b ∷ bs) = edits q (b ∷ acc) ∷ row_after q (b ∷ acc) bs

first_row-edits :
    (acc : List ℕ) (bs : Text) → first_row (length acc) bs ≡ edits [] acc ∷ row_after [] acc bs
unfolding edits
first_row-edits acc [] = refl
first_row-edits acc (b ∷ bs) = ap (◌∷◌ (length acc)) (first_row-edits (b ∷ acc) bs)

cells-edits :
    (a : ℕ) (p acc : List ℕ) (bs : Text)
    → cells a bs (edits p acc ∷ row_after p acc bs) (edits (a ∷ p) acc) ≡ row_after (a ∷ p) acc bs
unfolding edits cells
cells-edits a p acc [] = refl
cells-edits a p acc (b ∷ bs) =
    rw (cell-least a b (edits p acc) (edits p (b ∷ acc)) (edits (a ∷ p) acc))
      (ap (◌∷◌ (edits (a ∷ p) (b ∷ acc))) (cells-edits a p (b ∷ acc) bs))

last-row_after :
    (q acc : List ℕ) (bs : Text)
    → last_of (edits q acc) (row_after q acc bs) ≡ edits q (reverse_onto acc bs)
last-row_after q acc [] = refl
last-row_after q acc (b ∷ bs) = last-row_after q (b ∷ acc) bs

edits-nil : (a : ℕ) (p : List ℕ) → edits (a ∷ p) [] ≡ suc (length p)
unfolding edits
edits-nil a p = refl

rows-edits :
    (p : List ℕ) (cs bs : Text) (r : List ℕ)
    → last_of r (rows (length p) cs bs (edits p [] ∷ row_after p [] bs))
      ≡ edits (reverse_onto p cs) [] ∷ row_after (reverse_onto p cs) [] bs
unfolding rows edits
rows-edits p [] bs r = refl
rows-edits p (a ∷ cs) bs r =
    next
      (subst (λ x. cells a bs (edits p [] ∷ row_after p [] bs) x ≡ row_after (a ∷ p) [] bs)
        (edits-nil a p) (cells-edits a p [] bs))
      (rows-edits (a ∷ p) cs bs (edits p [] ∷ row_after p [] bs))
  where
    next :
        cells a bs (edits p [] ∷ row_after p [] bs) (suc (length p)) ≡ row_after (a ∷ p) [] bs
        → last_of
            (edits p [] ∷ row_after p [] bs)
            (rows (suc (length p)) cs bs (edits (a ∷ p) [] ∷ row_after (a ∷ p) [] bs))
          ≡ edits (reverse_onto (a ∷ p) cs) [] ∷ row_after (reverse_onto (a ∷ p) cs) [] bs
        → last_of r (rows (length p) (a ∷ cs) bs (edits p [] ∷ row_after p [] bs))
          ≡ edits (reverse_onto (a ∷ p) cs) [] ∷ row_after (reverse_onto (a ∷ p) cs) [] bs
    next row rest = rw (row, sym (edits-nil a p)) rest

-- The table holds the edit distance of the two texts, as defined by recursion from their ends,
-- where a character is replaced, deleted or inserted at the price of 1.
pub levenshtein_distance-edits :
    (str1 str2 : Text)
    → levenshtein_distance str1 str2 ≡ edits (reverse_onto [] str1) (reverse_onto [] str2)
unfolding levenshtein_distance
levenshtein_distance-edits str1 str2 =
    ap (λ r. last_of 0 (last_of [] (rows 0 str1 str2 r))) (first_row-edits [] str2)
    ∙ ap (last_of 0) (rows-edits [] str1 str2 [])
    ∙ last-row_after (reverse_onto [] str1) [] str2

edits_refl : (p : List ℕ) → edits p p ≡ 0
unfolding edits
edits_refl [] = refl
edits_refl (x ∷ p) = ground (arith, edits_refl p)

eq_of_edits : (p q : List ℕ) → edits p q ≡ 0 → p ≡ q
unfolding edits
eq_of_edits [] [] h = refl
eq_of_edits [] (y ∷ q) h = ground arith
eq_of_edits (x ∷ p) [] h = ground arith
eq_of_edits (x ∷ p) (y ∷ q) h = ground (arith, eq_of_edits p q)

reverse-reverse :
    (ys acc xs : List ℕ) → reverse_onto ys (reverse_onto acc xs) ≡ reverse_onto (xs ++ ys) acc
reverse-reverse ys acc [] = refl
reverse-reverse ys acc (x ∷ xs) = reverse-reverse ys (x ∷ acc) xs

append-nil : (xs : List ℕ) → xs ++ [] ≡ xs
append-nil [] = refl
append-nil (x ∷ xs) = ap (◌∷◌ x) (append-nil xs)

reverse_twice : (xs : List ℕ) → reverse_onto [] (reverse_onto [] xs) ≡ xs
reverse_twice xs = reverse-reverse [] [] xs ∙ append-nil xs

-- The distance is 0 exactly for a text and itself.
pub levenshtein_distance_zero :
    (str1 str2 : Text) → (levenshtein_distance str1 str2 ≡ 0) ↔ (str1 ≡ str2)
levenshtein_distance_zero str1 str2 = (
  λ h.
      sym (reverse_twice str1)
      ∙ ap (reverse_onto []) (
          eq_of_edits (reverse_onto [] str1) (reverse_onto [] str2)
            (sym (levenshtein_distance-edits str1 str2) ∙ h))
      ∙ reverse_twice str2,
  λ h. rw h (levenshtein_distance-edits str2 str2 ∙ edits_refl (reverse_onto [] str2)),
)
