-- ===== src/Helpers/Arrays.antt =====
-- src/common/utils/helpers.ts: the helpers on arrays.
use backend_gateway.Base.{
  ℕ, zero, suc, ◌+◌, ◌-◌, ◌*◌, ◌/◌, String, Bool, Option, none, some, List, [], ◌∷◌, ◌++◌, map,
  string_eq, ltb, length, Dict, get, put, take, drop,
}
use backend_gateway.RateLimit.Redis.{join_parts}

-- What `paginate` gives.
pub record Page {ℓ} (A : Type ℓ) : Type ℓ where
  pub data_of : List A
  pub page : ℕ
  pub page_size : ℕ
  pub total : ℕ
  pub total_pages : ℕ
  pub has_next : Bool
  pub has_prev : Bool

-- `Math.ceil(total / pageSize)`, for a size that is not 0.
abbrev pub ceil_div : ℕ → ℕ → ℕ
ceil_div n d = (n + (d - 1)) / d

-- `array.slice((page - 1) * pageSize, (page - 1) * pageSize + pageSize)`: for page 0 the end is 0,
-- which leaves nothing.
unfoldable pub page_data {ℓ} : {A : Type ℓ} → List A → ℕ → ℕ → List A
page_data array zero page_size = []
page_data array (suc p) page_size = take page_size (drop (p * page_size) array)

unfoldable pub paginate {ℓ} : {A : Type ℓ} → List A → ℕ → ℕ → Page A
unfolding page_data
paginate array page page_size = record {
  data_of = page_data array page page_size;
  page = page;
  page_size = page_size;
  total = length array;
  total_pages = ceil_div (length array) page_size;
  has_next = ltb page (ceil_div (length array) page_size);
  has_prev = ltb 1 page;
}

-- `array.map(f)`, with the index that counts from a start.
abbrev pub map_from {ℓ κ} : {A : Type ℓ} {B : Type κ} → (A → ℕ → B) → ℕ → List A → List B
map_from f i [] = []
map_from f i (x ∷ xs) = f x i ∷ map_from f (suc i) xs

-- The loop over the chunks, with the results so far.
unfoldable pub run_chunks {ℓ κ} :
    {A : Type ℓ} {B : Type κ} → (A → ℕ → B) → List B → List (List A) → List B
run_chunks f results [] = results
run_chunks f results (c ∷ cs) = run_chunks f (results ++ map_from f (length results) c) cs

-- `parallelLimit`, of `chunk` of lodash. The promises of a chunk are settled before the next one, and
-- their results stand in the order of the items.
unfoldable pub parallel_limit {ℓ κ} :
    {A : Type ℓ} {B : Type κ} → (List A → ℕ → List (List A)) → List A → ℕ → (A → ℕ → B) → List B
unfolding run_chunks
parallel_limit chunk items limit f = run_chunks f [] (chunk items limit)

-- `String(item[k])` for each key, joined.
unfoldable pub group_key : {A : Type 0} → List (A → String) → A → String
group_key keys item = join_parts (map (λ k. k item) keys)

abbrev pub list_or_empty {ℓ} : {A : Type ℓ} → Option (List A) → List A
list_or_empty none = []
list_or_empty (some xs) = xs

unfoldable pub add_to_group :
    {A : Type 0} → String → A → Dict String (List A) → Dict String (List A)
add_to_group key item acc = put key (list_or_empty (get key acc) ++ item ∷ []) acc

-- The reduction of `groupByMultiple`, from the groups so far.
unfoldable pub group_from :
    {A : Type 0} → List (A → String) → Dict String (List A) → List A → Dict String (List A)
unfolding add_to_group
group_from keys acc [] = acc
group_from keys acc (x ∷ xs) = group_from keys (add_to_group (group_key keys x) x acc) xs

unfoldable pub group_by_multiple : {A : Type 0} → List A → List (A → String) → Dict String (List A)
unfolding group_from
group_by_multiple array keys = group_from keys [] array

-- `new Map(array.map((item) => [item[key], item]))`
unfoldable pub lookup_from : {A : Type 0} → (A → String) → Dict String A → List A → Dict String A
lookup_from key acc [] = acc
lookup_from key acc (x ∷ xs) = lookup_from key (put (key x) x acc) xs

unfoldable pub to_lookup : {A : Type 0} → List A → (A → String) → Dict String A
unfolding lookup_from
to_lookup array key = lookup_from key [] array
