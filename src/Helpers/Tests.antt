-- ===== src/Helpers/Tests.antt =====
-- The helpers at concrete inputs, and the theorems applied there.
use native.Mathlib.Decide.{ℕ_discrete}
use backend_gateway.Base.{
  ℕ, ◌+◌, ◌%◌, ◌≤◌, String, String_discrete, List, [], ◌∷◌, ◌≡◌, refl, ◌⊎◌, inl, inr, arith, All,
  length, ltb, if◌then◌else◌, string_eq, get, put, take,
}
use backend_gateway.RateLimit.Redis.{join_parts}
use backend_gateway.Helpers.Arrays.{
  page_data, paginate, group_key, add_to_group, group_from, group_by_multiple, list_or_empty,
}
use backend_gateway.Helpers.Numbers.{
  hash_step, hash_from, simple_hash, abs_32, two_31, two_32, mask_string,
}
use backend_gateway.Helpers.Retry.{retry_defaults, retry_from, retry}
use backend_gateway.Helpers.Pages.{first_pages, first_pages-total_pages}
use backend_gateway.Helpers.Attempts.{recorded, untried, retry-first_success}
use backend_gateway.Helpers.Hashes.{polynomial, simple_hash-polynomial}

program : Unit {0}
unfolding String_discrete ℕ_discrete page_data paginate join_parts group_key add_to_group group_from
    group_by_multiple hash_step hash_from simple_hash mask_string retry_from retry get put
program = tt

abbrev numbers : List ℕ
numbers = 1 ∷ 2 ∷ 3 ∷ 4 ∷ 5 ∷ []

last_page : (paginate numbers 3 2).data_of ≡ 5 ∷ []
unfolding program
last_page = refl

first_pages-total_pages_example : first_pages numbers 2 (paginate numbers 1 2).total_pages ≡ numbers
first_pages-total_pages_example = first_pages-total_pages numbers 2 (ground arith)

-- Two failures, then a success.
abbrev outcome : ℕ → String ⊎ ℕ
outcome n = if ltb n 2 then inl "down" else inr 7

retried : (retry (recorded outcome) retry_defaults untried).0.pauses ≡ 2000 ∷ 1000 ∷ []
unfolding program
retried = refl

retry-first_success_example :
    ((retry (recorded outcome) retry_defaults untried).1 ≡ inr 7)
    × ((retry (recorded outcome) retry_defaults untried).0.made ≤ 3 + 1)
    × (length (retry (recorded outcome) retry_defaults untried).0.pauses + 1
        ≡ (retry (recorded outcome) retry_defaults untried).0.made)
    × All (λ ms. ms ≤ 30000) (retry (recorded outcome) retry_defaults untried).0.pauses
retry-first_success_example = retry-first_success outcome retry_defaults

hash_test : simple_hash (104 ∷ 101 ∷ 108 ∷ 108 ∷ 111 ∷ []) ≡ 99162322
unfolding program
hash_test = refl

simple_hash-polynomial_example :
    (simple_hash (104 ∷ 101 ∷ 108 ∷ []) ≡ abs_32 (polynomial 0 (104 ∷ 101 ∷ 108 ∷ []) % two_32))
    × (simple_hash (104 ∷ 101 ∷ 108 ∷ []) ≤ two_31)
simple_hash-polynomial_example = simple_hash-polynomial (104 ∷ 101 ∷ 108 ∷ [])

abbrev pairs : List (String × String)
pairs = ("a:b", "c") ∷ ("a", "b:c") ∷ ("d", "e") ∷ []

abbrev both : List (String × String → String)
both = (λ p. p.0) ∷ (λ p. p.1) ∷ []

-- Two items with different values under one key.
group_test : list_or_empty (get "a:b:c" (group_by_multiple pairs both)) ≡ take 2 pairs
unfolding program
group_test = refl
