-- ===== src/Base/Collections.antt =====
-- A collection of documents in MongoDB, and the laws that the services rely on. The code of a query
-- is a test, and the code of an update a function on documents. `find_one` may find any document
-- that passes; what `update_one` changes is the newest, which only matters where several pass.
use Prim.Native.Nat.{ℕ, ◌<◌}
use mathlib.Core.Path.{◌≡◌, refl}
use mathlib.Core.Logic.{inl, inr}
use mathlib.Core.Bool.{Bool, true, false, not}
use mathlib.Core.Option.{Option, none, some}
use mathlib.Core.List.{List, [], ◌∷◌}
use native.Mathlib.Omega.{arith}
use backend_gateway.Base.Tests.{if◌then◌else◌, Bool-cases, leb}
use backend_gateway.Base.Lists.{filter, find, length}

-- The first that passes the test, changed in place.
abbrev pub change_where {ℓ} : {D : Type ℓ} → (D → Bool) → (D → D) → List D → List D
change_where p f [] = []
change_where p f (d ∷ ds) = if p d then f d ∷ ds else d ∷ change_where p f ds

-- Without the first that passes the test.
abbrev pub remove_where {ℓ} : {D : Type ℓ} → (D → Bool) → List D → List D
remove_where p [] = []
remove_where p (d ∷ ds) = if p d then ds else d ∷ remove_where p ds

abbrev pub change_all {ℓ} : {D : Type ℓ} → (D → Bool) → (D → D) → List D → List D
change_all p f [] = []
change_all p f (d ∷ ds) = (if p d then f d else d) ∷ change_all p f ds

abbrev pub count_where {ℓ} : {D : Type ℓ} → (D → Bool) → List D → ℕ
count_where p ds = length (filter p ds)

-- In front of the first that is no larger.
abbrev insert_by {ℓ} : {D : Type ℓ} → (D → ℕ) → D → List D → List D
insert_by key d [] = d ∷ []
insert_by key d (e ∷ es) = if leb (key e) (key d) then d ∷ e ∷ es else e ∷ insert_by key d es

-- The largest first.
abbrev sort_by {ℓ} : {D : Type ℓ} → (D → ℕ) → List D → List D
sort_by key [] = []
sort_by key (d ∷ ds) = insert_by key d (sort_by key ds)

count-insert_by {ℓ} :
    {D : Type ℓ} (q : D → Bool) (key : D → ℕ) (d : D) (ds : List D)
    → count_where q (insert_by key d ds) ≡ count_where q (d ∷ ds)
count-insert_by q key d [] = refl
count-insert_by q key d (e ∷ es) = ground (arith, count-insert_by q key d es)

pub count-sort_by {ℓ} :
    {D : Type ℓ} (q : D → Bool) (key : D → ℕ) (ds : List D)
    → count_where q (sort_by key ds) ≡ count_where q ds
count-sort_by q key [] = refl
count-sort_by q key (d ∷ ds) =
    rw (count-insert_by q key d (sort_by key ds)) (ground (arith, count-sort_by q key ds))

pub find-none {ℓ} :
    {D : Type ℓ} (p : D → Bool) (ds : List D) → find p ds ≡ none → count_where p ds ≡ 0
find-none p [] h = refl
find-none p (d ∷ ds) h = ground (arith, find-none p ds)

pub find-some {ℓ} :
    {D : Type ℓ} (p : D → Bool) (ds : List D) (d : D)
    → find p ds ≡ some d
    → (p d ≡ true) × ((q : D → Bool) → q d ≡ true → 0 < count_where q ds)
find-some p [] d h = ground arith
find-some p (e ∷ ds) d h = elim (Bool-cases (p e)) [
  | inl k ↦ (ground arith, λ q m. ground arith)
  | inr k ↦
      let rest = find-some p ds d (ground arith) in
      (rest.0, λ q m. let more = rest.1 q m in ground arith)
]

-- `docs` are the documents, the one that was created last first.
pub record Collection (D S : Type 0) : Type 0 where
  pub docs : S → List D
  pub insert : D → S → S
  pub find_newest : (D → Bool) → S → Option D
  pub find_one : (D → Bool) → S → Option D
  pub find_sorted : (D → Bool) → (D → ℕ) → S → List D
  pub count : (D → Bool) → S → ℕ
  pub update_one : (D → Bool) → (D → D) → S → S
  pub update_many : (D → Bool) → (D → D) → S → S
  pub delete_one : (D → Bool) → S → S
  pub delete_many : (D → Bool) → S → S
  pub insert_law : (d : D) (s : S) → docs (insert d s) ≡ d ∷ docs s
  pub find_newest_law : (p : D → Bool) (s : S) → find_newest p s ≡ find p (docs s)
  pub find_one_none : (p : D → Bool) (s : S) → find_one p s ≡ none → count_where p (docs s) ≡ 0
  pub find_one_some :
      (p : D → Bool) (s : S) (d : D)
      → find_one p s ≡ some d
      → (p d ≡ true) × ((q : D → Bool) → q d ≡ true → 0 < count_where q (docs s))
  pub find_sorted_law :
      (p q : D → Bool) (key : D → ℕ) (s : S)
      → count_where q (find_sorted p key s) ≡ count_where q (filter p (docs s))
  pub count_law : (p : D → Bool) (s : S) → count p s ≡ count_where p (docs s)
  pub update_one_law :
      (p : D → Bool) (f : D → D) (s : S) → docs (update_one p f s) ≡ change_where p f (docs s)
  pub update_many_law :
      (p : D → Bool) (f : D → D) (s : S) → docs (update_many p f s) ≡ change_all p f (docs s)
  pub delete_one_law : (p : D → Bool) (s : S) → docs (delete_one p s) ≡ remove_where p (docs s)
  pub delete_many_law :
      (p : D → Bool) (s : S) → docs (delete_many p s) ≡ filter (λ d. not (p d)) (docs s)

-- A list of documents serves.
abbrev pub listed : (D : Type 0) → Collection D (List D)
listed D = record {
  docs = λ s. s;
  insert = λ d s. d ∷ s;
  find_newest = find;
  find_one = find;
  find_sorted = λ p key s. sort_by key (filter p s);
  count = count_where;
  update_one = change_where;
  update_many = change_all;
  delete_one = remove_where;
  delete_many = λ p s. filter (λ d. not (p d)) s;
  insert_law = λ d s. refl;
  find_newest_law = λ p s. refl;
  find_one_none = find-none;
  find_one_some = find-some;
  find_sorted_law = λ p q key s. count-sort_by q key (filter p s);
  count_law = λ p s. refl;
  update_one_law = λ p f s. refl;
  update_many_law = λ p f s. refl;
  delete_one_law = λ p s. refl;
  delete_many_law = λ p s. refl;
}

module _ {ℓ} {D : Type ℓ} where
  -- A narrower test finds in the rest of a wider one what it finds in all.
  pub find-filter :
      (p q : D → Bool) (ds : List D)
      → ((d : D) → q d ≡ true → p d ≡ true)
      → find q (filter p ds) ≡ find q ds
  find-filter p q [] h = refl
  find-filter p q (d ∷ ds) h = ground (arith, h d, find-filter p q ds h)

  pub filter-change_where :
      (p q : D → Bool) (f : D → D) (ds : List D)
      → ((d : D) → q d ≡ true → (p d ≡ true) × (p (f d) ≡ true))
      → filter p (change_where q f ds) ≡ change_where q f (filter p ds)
  filter-change_where p q f [] h = refl
  filter-change_where p q f (d ∷ ds) h = ground (arith, h d, filter-change_where p q f ds h)

  -- A change after which a document no longer passes the wider test takes it out of that view.
  pub filter-change_where_out :
      (p q : D → Bool) (f : D → D) (ds : List D)
      → ((d : D) → q d ≡ true → (p d ≡ true) × (p (f d) ≡ false))
      → filter p (change_where q f ds) ≡ remove_where q (filter p ds)
  filter-change_where_out p q f [] h = refl
  filter-change_where_out p q f (d ∷ ds) h = ground (arith, h d, filter-change_where_out p q f ds h)

  pub filter-remove_where :
      (p q : D → Bool) (ds : List D)
      → ((d : D) → q d ≡ true → p d ≡ true)
      → filter p (remove_where q ds) ≡ remove_where q (filter p ds)
  filter-remove_where p q [] h = refl
  filter-remove_where p q (d ∷ ds) h = ground (arith, h d, filter-remove_where p q ds h)
