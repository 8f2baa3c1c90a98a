-- ===== src/Helpers/Hashes.antt =====
-- The range of `simpleHash` and what it computes, and what `maskString` hides
-- (src/common/utils/helpers.ts).
use mathlib.Core.List.{append_assoc}
use backend_gateway.Base.{
  ℕ, ◌+◌, ◌-◌, ◌*◌, ◌%◌, ◌≤◌, ◌<◌, max, List, [], ◌∷◌, ◌++◌, ◌≡◌, refl, sym, ap, ◌∙◌, arith, length,
  take, drop, length-append,
}
use backend_gateway.Helpers.Numbers.{
  two_32, two_31, hash_step, hash_from, abs_32, simple_hash, repeat, mask_string,
}

-- The polynomial in 31 that the loop computes, without a bound.
abbrev pub polynomial : ℕ → List ℕ → ℕ
polynomial acc [] = acc
polynomial acc (c ∷ cs) = polynomial (acc * 31 + c) cs

hash_step-mod : (acc c : ℕ) → hash_step (acc % two_32) c ≡ (acc * 31 + c) % two_32
unfolding hash_step
hash_step-mod acc c = omega arith

hash_from-polynomial :
    (cs : List ℕ) (acc : ℕ) → hash_from (acc % two_32) cs ≡ polynomial acc cs % two_32
unfolding hash_from
hash_from-polynomial [] acc = refl
hash_from-polynomial (c ∷ cs) acc =
    rw (hash_step-mod acc c) (hash_from-polynomial cs (acc * 31 + c))

abs_32-le : (n : ℕ) → abs_32 (n % two_32) ≤ two_31
abs_32-le n = ground arith

-- The hash is the absolute value of the polynomial in 31 of the code units, as a signed number of 32
-- bits, and is at most 2^31.
pub simple_hash-polynomial :
    (str : List ℕ)
    → (simple_hash str ≡ abs_32 (polynomial 0 str % two_32)) × (simple_hash str ≤ two_31)
unfolding simple_hash
simple_hash-polynomial str =
    let same = hash_from-polynomial str 0 in
    (ap abs_32 same, rw same (abs_32-le (polynomial 0 str)))

module _ {ℓ} {A : Type ℓ} where
  take-append : (xs ys : List A) → take (length xs) (xs ++ ys) ≡ xs
  take-append [] ys = refl
  take-append (x ∷ xs) ys = ap (λ zs. x ∷ zs) (take-append xs ys)

  drop-append : (xs ys : List A) → drop (length xs) (xs ++ ys) ≡ ys
  drop-append [] ys = refl
  drop-append (x ∷ xs) ys = drop-append xs ys

module _ (front middle back : List ℕ) where
  whole : length (front ++ (middle ++ back)) ≡ length front + length middle + length back
  whole = omega (arith, length-append front (middle ++ back), length-append middle back)

  hidden_length : length (front ++ (middle ++ back)) - length front - length back ≡ length middle
  hidden_length = omega (arith, whole)

  visible_length : length (front ++ (middle ++ back)) - length back ≡ length (front ++ middle)
  visible_length = omega (arith, whole, length-append front middle)

  drop_back :
      drop (length (front ++ (middle ++ back)) - length back) (front ++ (middle ++ back)) ≡ back
  drop_back =
      ap (λ n. drop n (front ++ (middle ++ back))) visible_length
      ∙ ap (drop (length (front ++ middle))) (sym (append_assoc front middle back))
      ∙ drop-append (front ++ middle) back

mask_string_long :
    (star visible_start visible_end : ℕ) (str : List ℕ)
    → visible_start + visible_end < length str
    → mask_string star visible_start visible_end str
      ≡ take visible_start str
        ++ (repeat star (max (length str - visible_start - visible_end) 3)
            ++ drop (length str - visible_end) str)
unfolding mask_string
mask_string_long star visible_start visible_end str h = ground arith

-- What stands between the visible ends is hidden, if it is not empty: of the middle only the length
-- shows, where it is more than three.
pub mask_string-middle :
    (star : ℕ) (front middle back : List ℕ)
    → 0 < length middle
    → mask_string star (length front) (length back) (front ++ (middle ++ back))
      ≡ front ++ (repeat star (max (length middle) 3) ++ back)
mask_string-middle star front middle back h =
    let str = front ++ (middle ++ back) in
    mask_string_long star (length front) (length back) str (omega (arith, whole front middle back))
    ∙ ap
        (λ xs.
          xs
          ++ (repeat star (max (length str - length front - length back) 3)
              ++ drop (length str - length back) str))
        (take-append front (middle ++ back))
    ∙ ap (λ n. front ++ (repeat star (max n 3) ++ drop (length str - length back) str))
        (hidden_length front middle back)
    ∙ ap (λ xs. front ++ (repeat star (max (length middle) 3) ++ xs)) (drop_back front middle back)
