-- ===== src/Trie/Ranking.antt =====
-- Ranking and cutting of results, as `searchByPrefix` of src/common/search/trie.service.ts does.
use backend_gateway.Base.{
  take, ℕ, zero, suc, ◌≤◌, List, [], ◌∷◌, ◌++◌, ◌≡◌, refl, subst, ltb, arith, Bool-cases, inl, inr,
  ◌⊎◌, All, length,
}
use backend_gateway.Trie.Prefix.{rank_one, rank}

pub data Nowhere {ℓ} : Type ℓ where

module _ {ℓ} {A : Type ℓ} where
  abbrev pub Among : A → List A → Type ℓ
  Among a [] = Nowhere
  Among a (x ∷ xs) = (x ≡ a) ⊎ Among a xs

  pub Among-append_left : (a : A) (xs ys : List A) → Among a xs → Among a (xs ++ ys)
  Among-append_left a [] ys m = elim m [ ]
  Among-append_left a (x ∷ xs) ys (inl e) = inl e
  Among-append_left a (x ∷ xs) ys (inr m) = inr (Among-append_left a xs ys m)

  pub Among-append_right : (a : A) (xs ys : List A) → Among a ys → Among a (xs ++ ys)
  Among-append_right a [] ys m = m
  Among-append_right a (x ∷ xs) ys m = inr (Among-append_right a xs ys m)

  pub All-among {κ} : (P : A → Type κ) (a : A) (xs : List A) → All P xs → Among a xs → P a
  All-among P a [] h m = elim m [ ]
  All-among P a (x ∷ xs) h (inl e) = subst P e h.0
  All-among P a (x ∷ xs) h (inr m) = All-among P a xs h.1 m

  pub All-mono {κ μ} :
      (P : A → Type κ) (Q : A → Type μ)
      → ((a : A) → P a → Q a)
      → (xs : List A) → All P xs
      → All Q xs
  All-mono P Q f [] h = tt
  All-mono P Q f (x ∷ xs) h = (f x h.0, All-mono P Q f xs h.1)

module _ {ℓ} {A : Type ℓ} where
  abbrev pub IsDescending : List (A × ℕ) → Type 0
  IsDescending [] = Unit
  IsDescending (x ∷ xs) = All (λ y. y.1 ≤ x.1) xs × IsDescending xs

  All-rank_one {κ} :
      (P : A × ℕ → Type κ) (x : A × ℕ) (xs : List (A × ℕ)) → P x → All P xs → All P (rank_one x xs)
  All-rank_one P x [] p h = (p, tt)
  All-rank_one P x (y ∷ ys) p h = elim (Bool-cases (ltb x.1 y.1)) [
    | inl e ↦ rw e (h.0, All-rank_one P x ys p h.1)
    | inr e ↦ rw e (p, h)
  ]

  pub All-rank {κ} : (P : A × ℕ → Type κ) (xs : List (A × ℕ)) → All P xs → All P (rank xs)
  All-rank P [] h = tt
  All-rank P (x ∷ xs) h = All-rank_one P x (rank xs) h.0 (All-rank P xs h.1)

  rank_one-IsDescending :
      (x : A × ℕ) (xs : List (A × ℕ)) → IsDescending xs → IsDescending (rank_one x xs)
  rank_one-IsDescending x [] h = (tt, tt)
  rank_one-IsDescending x (y ∷ ys) h = elim (Bool-cases (ltb x.1 y.1)) [
    | inl e ↦
        rw e (All-rank_one (λ z. z.1 ≤ y.1) x ys (ground arith) h.0, rank_one-IsDescending x ys h.1)
    | inr e ↦
        rw e (
          (ground arith, All-mono (λ z. z.1 ≤ y.1) (λ z. z.1 ≤ x.1) (λ z p. ground arith) ys h.0),
          h,
        )
  ]

  pub rank-IsDescending : (xs : List (A × ℕ)) → IsDescending (rank xs)
  rank-IsDescending [] = tt
  rank-IsDescending (x ∷ xs) = rank_one-IsDescending x (rank xs) (rank-IsDescending xs)

  Among-rank_one_here : (x : A × ℕ) (xs : List (A × ℕ)) → Among x (rank_one x xs)
  Among-rank_one_here x [] = inl refl
  Among-rank_one_here x (y ∷ ys) = elim (Bool-cases (ltb x.1 y.1)) [
    | inl e ↦ rw e (inr (Among-rank_one_here x ys))
    | inr e ↦ rw e (inl refl)
  ]

  Among-rank_one : (r x : A × ℕ) (xs : List (A × ℕ)) → Among r xs → Among r (rank_one x xs)
  Among-rank_one r x [] m = elim m [ ]
  Among-rank_one r x (y ∷ ys) m = elim (Bool-cases (ltb x.1 y.1)) [
    | inl e ↦ rw e (later (λ k. Among-rank_one r x ys k) m)
    | inr e ↦ rw e (inr m)
  ]
    where
      later :
          (Among r ys → Among r (rank_one x ys)) → Among r (y ∷ ys) → Among r (y ∷ rank_one x ys)
      later f (inl e) = inl e
      later f (inr m) = inr (f m)

  pub Among-rank : (r : A × ℕ) (xs : List (A × ℕ)) → Among r xs → Among r (rank xs)
  Among-rank r [] m = elim m [ ]
  Among-rank r (x ∷ xs) (inl e) =
      subst (λ z. Among z (rank_one x (rank xs))) e (Among-rank_one_here x (rank xs))
  Among-rank r (x ∷ xs) (inr m) = Among-rank_one r x (rank xs) (Among-rank r xs m)

  pub All-take {κ} : (P : A × ℕ → Type κ) (n : ℕ) (xs : List (A × ℕ)) → All P xs → All P (take n xs)
  All-take P zero xs h = tt
  All-take P (suc n) [] h = tt
  All-take P (suc n) (x ∷ xs) h = (h.0, All-take P n xs h.1)

  pub take-IsDescending : (n : ℕ) (xs : List (A × ℕ)) → IsDescending xs → IsDescending (take n xs)
  take-IsDescending zero xs h = tt
  take-IsDescending (suc n) [] h = tt
  take-IsDescending (suc n) (x ∷ xs) h =
      (All-take (λ y. y.1 ≤ x.1) n xs h.0, take-IsDescending n xs h.1)

  pub length-take : (n : ℕ) (xs : List (A × ℕ)) → length (take n xs) ≤ n
  length-take zero xs = omega arith
  length-take (suc n) [] = omega arith
  length-take (suc n) (x ∷ xs) = omega (arith, length-take n xs)

  -- An entry that a cut of a descending list drops is at most as frequent as each that is kept.
  pub take-best :
      (r : A × ℕ) (n : ℕ) (xs : List (A × ℕ))
      → IsDescending xs
      → Among r xs
      → Among r (take n xs) ⊎ ((length (take n xs) ≡ n) × All (λ s. r.1 ≤ s.1) (take n xs))
  take-best r zero xs h m = inr (refl, tt)
  take-best r (suc n) [] h m = elim m [ ]
  take-best r (suc n) (x ∷ xs) h (inl e) = inl (inl e)
  take-best r (suc n) (x ∷ xs) h (inr m) = elim (take-best r n xs h.1 m) [
    | inl k ↦ inl (inr k)
    | inr (l, k) ↦ inr (omega (arith, l), (All-among (λ y. y.1 ≤ x.1) r xs h.0 m, k))
  ]
