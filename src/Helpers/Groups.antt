-- ===== src/Helpers/Groups.antt =====
-- What stands under a key after `groupByMultiple` and `toLookup` of src/common/utils/helpers.ts.
use mathlib.Core.List.{append-nil, append_assoc}
use backend_gateway.Base.{
  String, Option, some, List, [], ◌∷◌, ◌++◌, ◌≡◌, refl, sym, ap, ◌∙◌, string_eq, ◌==◌,
  if◌then◌else◌, filter, Dict, get, put, get-put, arith, Bool-cases, inl, inr,
}
use backend_gateway.Helpers.Arrays.{
  group_key, list_or_empty, add_to_group, group_from, group_by_multiple, lookup_from,
}

module _ {A : Type 0} where
  get-add_to_group :
      (key k : String) (x : A) (acc : Dict String (List A))
      → list_or_empty (get k (add_to_group key x acc))
        ≡ (if key == k then list_or_empty (get k acc) ++ x ∷ [] else list_or_empty (get k acc))
  unfolding add_to_group
  get-add_to_group key k x acc = rw get-put (ground arith)

  get-group_from :
      (keys : List (A → String)) (k : String) (xs : List A) (acc : Dict String (List A))
      → list_or_empty (get k (group_from keys acc xs))
        ≡ list_or_empty (get k acc) ++ filter (λ x. group_key keys x == k) xs
  unfolding group_from
  get-group_from keys k [] acc = sym (append-nil (list_or_empty (get k acc)))
  get-group_from keys k (x ∷ xs) acc =
      get-group_from keys k xs (add_to_group (group_key keys x) x acc)
      ∙ elim (Bool-cases (group_key keys x == k)) [
        | inl e ↦
            rw (get-add_to_group (group_key keys x) k x acc, e)
              (append_assoc (list_or_empty (get k acc)) (x ∷ [])
                (filter (λ y. group_key keys y == k) xs))
        | inr e ↦ rw (get-add_to_group (group_key keys x) k x acc, e) refl
      ]

  -- The group of a key has the items with that key, in their order in the array.
  pub get-group_by_multiple :
      (array : List A) (keys : List (A → String)) (k : String)
      → list_or_empty (get k (group_by_multiple array keys))
        ≡ filter (λ x. group_key keys x == k) array
  unfolding group_by_multiple get
  get-group_by_multiple array keys k = get-group_from keys k array []

  -- The last item of a key, or else what was there.
  abbrev last_or : (A → String) → String → Option A → List A → Option A
  last_or key k before [] = before
  last_or key k before (x ∷ xs) = last_or key k (if key x == k then some x else before) xs

  get-lookup_from :
      (key : A → String) (k : String) (xs : List A) (acc : Dict String A)
      → get k (lookup_from key acc xs) ≡ last_or key k (get k acc) xs
  unfolding lookup_from
  get-lookup_from key k [] acc = refl
  get-lookup_from key k (x ∷ xs) acc =
      get-lookup_from key k xs (put (key x) x acc)
      ∙ ap (λ b. last_or key k b xs) (get-put (key x) k x acc)
