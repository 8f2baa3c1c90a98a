-- ===== src/Trie/Results.antt =====
-- What `searchByPrefix` of src/common/search/trie.service.ts returns, and in what order.
use backend_gateway.Base.{
  take, ℕ, ◌≤◌, Option, none, some, List, [], ◌∷◌, ◌++◌, ◌≡◌, ◌≢◌, refl, sym, ap, ◌∙◌, nat_eq,
  arith, ◌⊎◌, All, length, map,
}
use backend_gateway.Trie.Node.{Text, Trie}
use backend_gateway.Trie.Words.{letters, find_chars, find_node}
use backend_gateway.Trie.Prefix.{collect_words, rank, search_by_prefix, ranked_data}
use backend_gateway.Trie.Proper.{IsProper}
use backend_gateway.Trie.Ranking.{
  Among, All-mono, IsDescending, All-rank, rank-IsDescending, Among-rank, All-take,
  take-IsDescending, length-take, take-best,
}
use backend_gateway.Trie.Collected.{
  GoesOn, entry_at, walk-append, find_chars-IsProper, collect_words_sound, collect_words_complete,
}

module _ {ℓ} {A : Type ℓ} where
  -- `rs` are at most `limit` of the words with `P`, the most frequent ones first.
  pub record IsRanking {κ} (limit : ℕ) (P : A × ℕ → Type κ) (rs : List (A × ℕ)) : Type (ℓ ⊔ κ) where
    pub sound : All P rs
    pub descending : IsDescending rs
    pub short : length rs ≤ limit
    pub best : (r : A × ℕ) → P r → Among r rs ⊎ ((length rs ≡ limit) × All (λ s. r.1 ≤ s.1) rs)

  rank-IsRanking {κ} :
      (limit : ℕ) (P : A × ℕ → Type κ) (xs : List (A × ℕ))
      → All P xs
      → ((r : A × ℕ) → P r → Among r xs)
      → IsRanking limit P (take limit (rank xs))
  rank-IsRanking limit P xs h complete = record {
    sound = All-take P limit (rank xs) (All-rank P xs h);
    descending = take-IsDescending limit (rank xs) (rank-IsDescending xs);
    short = length-take limit (rank xs);
    best =
        λ r p. take-best r limit (rank xs) (rank-IsDescending xs) (Among-rank r xs (complete r p));
  }

  collect_words-IsRanking :
      (limit : ℕ) (o : Option (Trie A))
      → ((t : Trie A) → o ≡ some t → IsProper t)
      → (rs : List (A × ℕ)) × (ranked_data limit o ≡ map (λ r. r.0) rs)
        × IsRanking limit (GoesOn o) rs
  unfolding ranked_data
  collect_words-IsRanking limit none h = (
    [],
    refl,
    record { sound = tt; descending = tt; short = omega arith; best = λ r (ks, m). ground arith },
  )
  collect_words-IsRanking limit (some t) h = (
    take limit (rank (collect_words t)),
    refl,
    rank-IsRanking limit (GoesOn (some t)) (collect_words t) (collect_words_sound t (h t refl))
        (λ r (ks, m). collect_words_complete ks t r m),
  )

  -- A word of the tree that starts with given letters: its datum and its frequency.
  abbrev pub StartsWith : List ℕ → Trie A → A × ℕ → Type ℓ
  StartsWith ps t r = (ks : List ℕ) × (entry_at (find_chars (ps ++ ks) t) ≡ some r)

  StartsWith-iff :
      (ps : List ℕ) (t : Trie A) (r : A × ℕ)
      → (StartsWith ps t r → GoesOn (find_chars ps t) r)
        × (GoesOn (find_chars ps t) r → StartsWith ps t r)
  StartsWith-iff ps t r = (
    λ (ks, m). (ks, ap entry_at (sym (walk-append ps ks (some t))) ∙ m),
    λ (ks, m). (ks, ap entry_at (walk-append ps ks (some t)) ∙ m),
  )

  -- In a proper tree a search by a non-empty prefix returns the data of words that start with the letters of
  -- the prefix: at most as many as the limit, the most frequent first, and none is left out unless
  -- the limit is reached by words that are as frequent. (Lowering a text twice is lowering it once.)
  pub search_by_prefix-IsRanking :
      (to_lower_case : Text → Text) (p : Text) (limit : ℕ) (t : Trie A)
      → p ≢ []
      → to_lower_case (to_lower_case p) ≡ to_lower_case p
      → IsProper t
      → (rs : List (A × ℕ)) × (search_by_prefix to_lower_case p limit t ≡ map (λ r. r.0) rs)
        × IsRanking limit (StartsWith (letters to_lower_case p) t) rs
  unfolding search_by_prefix find_node
  search_by_prefix-IsRanking to_lower_case [] limit t h e k = absurd (h refl)
  search_by_prefix-IsRanking to_lower_case (u ∷ us) limit t h e k =
      let ps = letters to_lower_case (u ∷ us) in
      let (rs, same, ranked) =
        collect_words-IsRanking limit (find_chars ps t) (λ n. find_chars-IsProper ps t n k) in
      (
        rs,
        rw e same,
        record {
          sound =
              All-mono (GoesOn (find_chars ps t)) (StartsWith ps t) (λ r. (StartsWith-iff ps t r).1)
                rs ranked.sound;
          descending = ranked.descending;
          short = ranked.short;
          best = λ r m. ranked.best r ((StartsWith-iff ps t r).0 m);
        },
      )
