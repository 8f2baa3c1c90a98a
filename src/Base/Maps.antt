-- ===== src/Base/Maps.antt =====
-- JavaScript's `Map`: entries in the order of their first insertion.
use mathlib.Core.Path.{◌≡◌, refl}
use mathlib.Core.Bool.{Bool, true, false}
use mathlib.Core.Option.{Option, none, some}
use mathlib.Core.List.{List, [], ◌∷◌, map}
use native.Mathlib.Omega.{arith}
use backend_gateway.Base.Tests.{Eq, ◌==◌, if◌then◌else◌}
use backend_gateway.Base.Lists.{All, includes, IsDistinct}

abbrev pub Dict {ℓ} : Type ℓ → Type ℓ → Type ℓ
Dict K V = List (K × V)

module _ {ℓ} {K V : Type ℓ} where
  abbrev pub keys : Dict K V → List K
  keys m = map (λ e. e.0) m

module _ {ℓ} {K V : Type ℓ} ⦃e : Eq K⦄ where
  unfoldable pub get : K → Dict K V → Option V
  get k [] = none
  get k ((j, v) ∷ m) = if j == k then some v else get k m

  unfoldable pub has : K → Dict K V → Bool
  has k [] = false
  has k ((j, v) ∷ m) = if j == k then true else has k m

  unfoldable pub put : K → V → Dict K V → Dict K V
  put k v [] = (k, v) ∷ []
  put k v ((j, w) ∷ m) = if j == k then (j, v) ∷ m else (j, w) ∷ put k v m

  unfoldable pub delete : K → Dict K V → Dict K V
  delete k [] = []
  delete k ((j, v) ∷ m) = if j == k then delete k m else (j, v) ∷ delete k m

  pub get-put :
      (k j : K) (v : V) (m : Dict K V) → get j (put k v m) ≡ (if k == j then some v else get j m)
  unfolding get put
  get-put k j v [] = refl
  get-put k j v ((i, w) ∷ m) = ground (arith, get-put k j v m)

  pub get-delete :
      (k j : K) (m : Dict K V) → get j (delete k m) ≡ (if k == j then none else get j m)
  unfolding get delete
  get-delete k j [] = ground arith
  get-delete k j ((i, w) ∷ m) = ground (arith, get-delete k j m)

  pub includes-keys-put :
      (k j : K) (v : V) (m : Dict K V)
      → includes (keys (put k v m)) j ≡ (if k == j then true else includes (keys m) j)
  unfolding put
  includes-keys-put k j v [] = ground arith
  includes-keys-put k j v ((i, w) ∷ m) = ground (arith, includes-keys-put k j v m)

  pub IsDistinct-keys-put :
      (k : K) (v : V) (m : Dict K V) → IsDistinct (keys m) → IsDistinct (keys (put k v m))
  unfolding put
  IsDistinct-keys-put k v [] h = (refl, tt)
  IsDistinct-keys-put k v ((i, w) ∷ m) h =
      ground (arith, IsDistinct-keys-put k v m, includes-keys-put k i v m)

  pub includes-keys-delete :
      (k j : K) (m : Dict K V)
      → includes (keys (delete k m)) j ≡ (if k == j then false else includes (keys m) j)
  unfolding delete
  includes-keys-delete k j [] = ground arith
  includes-keys-delete k j ((i, w) ∷ m) = ground (arith, includes-keys-delete k j m)

  pub IsDistinct-keys-delete :
      (k : K) (m : Dict K V) → IsDistinct (keys m) → IsDistinct (keys (delete k m))
  unfolding delete
  IsDistinct-keys-delete k [] h = tt
  IsDistinct-keys-delete k ((i, w) ∷ m) h =
      ground (arith, IsDistinct-keys-delete k m, includes-keys-delete k i m)

  module _ (P : K × V → Type 0) where
    pub All-put : (k : K) (v : V) (m : Dict K V) → All P m → P (k, v) → All P (put k v m)
    unfolding put
    All-put k v [] h p = (p, tt)
    All-put k v ((j, w) ∷ m) h p = ground (arith, All-put k v m)

    pub All-delete : (k : K) (m : Dict K V) → All P m → All P (delete k m)
    unfolding delete
    All-delete k [] h = tt
    All-delete k ((j, w) ∷ m) h = ground (arith, All-delete k m)

    pub All-get : (k : K) (v : V) (m : Dict K V) → All P m → get k m ≡ some v → P (k, v)
    unfolding get
    All-get k v [] h found = cc
    All-get k v ((j, w) ∷ m) h found = ground (arith, All-get k v m)

  pub includes-keys_of_get :
      (k : K) (v : V) (m : Dict K V) → get k m ≡ some v → includes (keys m) k ≡ true
  unfolding get
  includes-keys_of_get k v [] h = cc
  includes-keys_of_get k v ((j, w) ∷ m) h = ground (arith, includes-keys_of_get k v m)
