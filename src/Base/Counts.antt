-- ===== src/Base/Counts.antt =====
-- How the number of documents that pass a test changes with a change of some.
use Prim.Native.Nat.{suc, ◌+◌, ◌≤◌, ◌<◌}
use mathlib.Core.Path.{◌≡◌, refl}
use mathlib.Core.Bool.{Bool, true, false, not, ◌&&◌, ◌||◌}
use mathlib.Core.List.{List, [], ◌∷◌}
use native.Mathlib.Omega.{arith}
use backend_gateway.Base.Lists.{filter}
use backend_gateway.Base.Collections.{change_where, change_all, count_where}

module _ {ℓ} {D : Type ℓ} where
  pub count-change_where :
      (p q : D → Bool) (f : D → D) (ds : List D)
      → ((d : D) → q d ≡ true → p (f d) ≡ true → p d ≡ true)
      → count_where p (change_where q f ds) ≤ count_where p ds
  count-change_where p q f [] h = omega arith
  count-change_where p q f (d ∷ ds) h = ground (arith, h d, count-change_where p q f ds h)

  pub count-change_all :
      (p q : D → Bool) (f : D → D) (ds : List D)
      → ((d : D) → q d ≡ true → p (f d) ≡ true → p d ≡ true)
      → count_where p (change_all q f ds) ≤ count_where p ds
  count-change_all p q f [] h = omega arith
  count-change_all p q f (d ∷ ds) h = ground (arith, h d, count-change_all p q f ds h)

  pub count-filter : (p q : D → Bool) (ds : List D) → count_where p (filter q ds) ≤ count_where p ds
  count-filter p q [] = omega arith
  count-filter p q (d ∷ ds) = ground (arith, count-filter p q ds)

  pub count_imp :
      (p q : D → Bool) (ds : List D)
      → ((d : D) → p d ≡ true → q d ≡ true)
      → count_where p ds ≤ count_where q ds
  count_imp p q [] h = omega arith
  count_imp p q (d ∷ ds) h = ground (arith, h d, count_imp p q ds h)

  -- The only document that passes no longer does after a change that reaches it.
  pub count-change_where_last :
      (p q : D → Bool) (f : D → D) (ds : List D)
      → ((d : D) → q d ≡ true → (p d ≡ true) × (p (f d) ≡ false))
      → count_where p ds ≤ 1
      → 0 < count_where q ds
      → count_where p (change_where q f ds) ≡ 0
  count-change_where_last p q f [] h k m = ground arith
  count-change_where_last p q f (d ∷ ds) h k m =
      ground (arith, h d, count_imp q p ds (λ e i. (h e i).0), count-change_where_last p q f ds h)

  -- A change after which nothing passes leaves what it does not reach.
  pub count-change_all_out :
      (p q : D → Bool) (f : D → D) (ds : List D)
      → ((d : D) → q d ≡ true → p (f d) ≡ false)
      → count_where p (change_all q f ds) ≡ count_where (λ d. p d && not (q d)) ds
  count-change_all_out p q f [] h = refl
  count-change_all_out p q f (d ∷ ds) h = ground (arith, h d, count-change_all_out p q f ds h)

  -- Where one document at most is reached, one that the test reaches tells what the change does.
  pub count-change_where_seen :
      (p q : D → Bool) (f : D → D) (ds : List D)
      → count_where q ds ≤ 1
      → 0 < count_where (λ d. q d && (p d || not (p (f d)))) ds
      → count_where p (change_where q f ds) ≤ count_where p ds
  count-change_where_seen p q f [] h k = omega arith
  count-change_where_seen p q f (d ∷ ds) h k = ground (
    arith,
    count_imp (λ e. q e && (p e || not (p (f e)))) q ds (λ e i. ground arith),
    count-change_where_seen p q f ds,
  )

  pub count-change_where_more :
      (p q : D → Bool) (f : D → D) (ds : List D)
      → count_where p (change_where q f ds) ≤ suc (count_where p ds)
  count-change_where_more p q f [] = omega arith
  count-change_where_more p q f (d ∷ ds) = ground (arith, count-change_where_more p q f ds)

  pub count_split :
      (p q : D → Bool) (ds : List D)
      → count_where p ds ≡ count_where (λ d. p d && q d) ds + count_where (λ d. p d && not (q d)) ds
  count_split p q [] = refl
  count_split p q (d ∷ ds) = ground (arith, count_split p q ds)

  -- What passes is all reached, and does not pass after the change.
  pub count-change_where_cover :
      (p q : D → Bool) (f : D → D) (ds : List D)
      → count_where q ds ≤ 1
      → ((d : D) → q d ≡ true → p (f d) ≡ false)
      → count_where (λ d. p d && not (q d)) ds ≡ 0
      → count_where p (change_where q f ds) ≡ 0
  count-change_where_cover p q f [] h k m = refl
  count-change_where_cover p q f (d ∷ ds) h k m = ground (
    arith,
    k d,
    count-change_where_cover p q f ds,
    count_split p q ds,
    count_imp (λ e. p e && q e) q ds (λ e i. ground arith),
  )

  pub count-change_where_pos :
      (p q : D → Bool) (f : D → D) (ds : List D)
      → count_where q ds ≤ 1
      → 0 < count_where (λ d. q d && p (f d)) ds
      → 0 < count_where p (change_where q f ds)
  count-change_where_pos p q f [] h k = ground arith
  count-change_where_pos p q f (d ∷ ds) h k = ground (
    arith,
    count_imp (λ e. q e && p (f e)) q ds (λ e i. ground arith),
    count-change_where_pos p q f ds,
  )

  pub count_none : (p : D → Bool) (ds : List D) → ((d : D) → p d ≡ false) → count_where p ds ≡ 0
  count_none p [] h = refl
  count_none p (d ∷ ds) h = ground (arith, h d, count_none p ds h)

  -- A change of all that pass after which none of them does.
  pub filter-change_all_out :
      (p : D → Bool) (f : D → D) (ds : List D)
      → ((d : D) → p d ≡ true → p (f d) ≡ false)
      → filter p (change_all p f ds) ≡ []
  filter-change_all_out p f [] h = refl
  filter-change_all_out p f (d ∷ ds) h = ground (arith, h d, filter-change_all_out p f ds h)

  pub count-change_all_same :
      (p q : D → Bool) (f : D → D) (ds : List D)
      → ((d : D) → q d ≡ true → p (f d) ≡ p d)
      → count_where p (change_all q f ds) ≡ count_where p ds
  count-change_all_same p q f [] h = refl
  count-change_all_same p q f (d ∷ ds) h = ground (arith, h d, count-change_all_same p q f ds h)
