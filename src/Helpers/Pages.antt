-- ===== src/Helpers/Pages.antt =====
-- `paginate` and `parallelLimit` of src/common/utils/helpers.ts cover an array.
use mathlib.Core.List.{append-nil, append_assoc}
use backend_gateway.Base.{
  ℕ, zero, suc, ◌+◌, ◌*◌, ◌≤◌, ◌<◌, List, [], ◌∷◌, ◌++◌, ◌≡◌, refl, sym, ap, ◌∙◌, arith, length,
  take, drop, length-append,
}
use backend_gateway.Helpers.Arrays.{
  ceil_div, page_data, paginate, map_from, run_chunks, parallel_limit,
}

zero-mul : (n : ℕ) → 0 * n ≡ 0
zero-mul n = omega arith

suc_add : (a b : ℕ) → suc a + b ≡ suc (a + b)
suc_add a b = omega arith

suc_mul : (p n : ℕ) → suc p * n ≡ p * n + n
suc_mul p n = grind arith

ceil_div-covers : (n d : ℕ) → 0 < d → n ≤ ceil_div n d * d
ceil_div-covers n d h = grind arith

module _ {ℓ} {A : Type ℓ} where
  take_nil : (n : ℕ) → take {A = A} n [] ≡ []
  take_nil zero = refl
  take_nil (suc n) = refl

  take_add : (a b : ℕ) (xs : List A) → take (a + b) xs ≡ take a xs ++ take b (drop a xs)
  take_add zero b xs = ground arith
  take_add (suc a) b [] = take_nil (suc a + b) ∙ sym (take_nil b)
  take_add (suc a) b (x ∷ xs) =
      ap (λ n. take n (x ∷ xs)) (suc_add a b) ∙ ap (λ ys. x ∷ ys) (take_add a b xs)

  take_all : (n : ℕ) (xs : List A) → length xs ≤ n → take n xs ≡ xs
  take_all zero [] h = refl
  take_all zero (x ∷ xs) h = ground arith
  take_all (suc n) [] h = refl
  take_all (suc n) (x ∷ xs) h = ap (λ ys. x ∷ ys) (take_all n xs (omega (arith, h)))

  abbrev pub concat : List (List A) → List A
  concat [] = []
  concat (c ∷ cs) = c ++ concat cs

  -- The data of the first pages, one after the other.
  abbrev pub first_pages : List A → ℕ → ℕ → List A
  first_pages array page_size zero = []
  first_pages array page_size (suc p) =
      first_pages array page_size p ++ (paginate array (suc p) page_size).data_of

  first_pages-take :
      (array : List A) (page_size p : ℕ)
      → first_pages array page_size p ≡ take (p * page_size) array
  unfolding paginate page_data
  first_pages-take array page_size zero = rw (zero-mul page_size) refl
  first_pages-take array page_size (suc p) = rw (first_pages-take array page_size p) (
      sym (ap (λ n. take n array) (suc_mul p page_size) ∙ take_add (p * page_size) page_size array))

  -- All the pages, one after the other, have the items of the array in their order. The
  -- size of a page is not 0.
  pub first_pages-total_pages :
      (array : List A) (page_size : ℕ)
      → 0 < page_size
      → first_pages array page_size (paginate array 1 page_size).total_pages ≡ array
  unfolding paginate
  first_pages-total_pages array page_size h =
      first_pages-take array page_size (ceil_div (length array) page_size)
      ∙ take_all (ceil_div (length array) page_size * page_size) array
          (ceil_div-covers (length array) page_size h)

  map_from-append {κ} :
      {B : Type κ} (f : A → ℕ → B) (i : ℕ) (xs ys : List A)
      → map_from f i (xs ++ ys) ≡ map_from f i xs ++ map_from f (i + length xs) ys
  map_from-append f i [] ys = ground arith
  map_from-append f i (x ∷ xs) ys = ground (arith, map_from-append f (suc i) xs ys)

  length-map_from {κ} :
      {B : Type κ} (f : A → ℕ → B) (i : ℕ) (xs : List A) → length (map_from f i xs) ≡ length xs
  length-map_from f i [] = refl
  length-map_from f i (x ∷ xs) = ap suc (length-map_from f (suc i) xs)

  -- The chunks, with results that are as many as the items before them.
  run_chunks-append {κ} :
      {B : Type κ} (f : A → ℕ → B) (cs : List (List A)) (results : List B)
      → run_chunks f results cs ≡ results ++ map_from f (length results) (concat cs)
  unfolding run_chunks
  run_chunks-append f [] results = sym (append-nil results)
  run_chunks-append f (c ∷ cs) results =
      let done = map_from f (length results) c in
      run_chunks-append f cs (results ++ done)
      ∙ append_assoc results done (map_from f (length (results ++ done)) (concat cs))
      ∙ ap (λ ys. results ++ ys)
          (ap (λ n. done ++ map_from f n (concat cs))
              (length-append results done
                ∙ ap (λ n. length results + n) (length-map_from f (length results) c))
            ∙ sym (map_from-append f (length results) c (concat cs)))

  -- Where the chunks have the items in their order, the results are those of the function at each
  -- item and its index, in the order of the items.
  pub parallel_limit-map_from {κ} :
      {B : Type κ} (chunk : List A → ℕ → List (List A)) (items : List A) (limit : ℕ) (f : A → ℕ → B)
      → concat (chunk items limit) ≡ items
      → parallel_limit chunk items limit f ≡ map_from f 0 items
  unfolding parallel_limit
  parallel_limit-map_from chunk items limit f h =
      run_chunks-append f (chunk items limit) [] ∙ ap (map_from f 0) h
