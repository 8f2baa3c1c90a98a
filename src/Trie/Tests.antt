-- ===== src/Trie/Tests.antt =====
-- The search tree at concrete inputs, and the theorems applied there.
use native.Mathlib.Decide.{ℕ_discrete}
use backend_gateway.Base.{
  ℕ, ◌+◌, true, false, none, some, List, [], ◌∷◌, ◌≡◌, ◌≢◌, refl, if◌then◌else◌, ◌&&◌, leb, map,
  arith,
}
use backend_gateway.Trie.Node.{Text, Trie, chars}
use backend_gateway.Trie.Words.{
  letters, insert_chars, find_chars, delete_helper, insert, find_node, search, contains, delete,
  clear,
}
use backend_gateway.Trie.Prefix.{
  collect_words, collect_children, ranked_data, search_by_prefix, count_nodes, count_nodes_below,
  count_words, count_words_below, get_stats,
}
use backend_gateway.Trie.Fuzzy.{
  cells, rows, levenshtein_distance, fuzzy_search_helper, fuzzy_search_children, fuzzy_search,
}
use backend_gateway.Trie.Changes.{search-insert, search-delete}
use backend_gateway.Trie.Proper.{IsProper}
use backend_gateway.Trie.Results.{IsRanking, StartsWith, search_by_prefix-IsRanking}
use backend_gateway.Trie.Distance.{edits, reverse_onto, levenshtein_distance-edits}

program : Unit {0}
unfolding chars insert_chars find_chars delete_helper insert find_node search contains delete
    collect_words collect_children ranked_data search_by_prefix count_nodes count_nodes_below
    count_words count_words_below cells rows levenshtein_distance fuzzy_search_helper
    fuzzy_search_children fuzzy_search edits ℕ_discrete
program = tt

-- Lowering of the letters A to Z.
abbrev lower : Text → Text
lower w = map (λ u. if leb 65 u && leb u 90 then u + 32 else u) w

abbrev abc : Text
abc = 65 ∷ 98 ∷ 99 ∷ []

abbrev ab : Text
ab = 97 ∷ 98 ∷ []

abbrev xyz : Text
xyz = 120 ∷ 121 ∷ 122 ∷ []

abbrev smile : Text
smile = 55357 ∷ 56832 ∷ []

abbrev two_words : Trie ℕ
two_words = insert lower ab (some 2) (insert lower abc (some 3) clear)

lookups : (search lower abc two_words ≡ some 3) × (contains lower (97 ∷ []) two_words ≡ false)
unfolding program
lookups = (refl, refl)

stats : get_stats two_words ≡ (4, 2)
unfolding program
stats = refl

completions : search_by_prefix lower ab 10 two_words ≡ 2 ∷ 3 ∷ []
unfolding program
completions = refl

-- The word is deleted, and the answer is false.
deletion :
    ((delete lower ab two_words).0 ≡ false)
    × (contains lower ab (delete lower ab two_words).1 ≡ false)
unfolding program
deletion = (refl, refl)

distances : (levenshtein_distance abc xyz ≡ 3) × (levenshtein_distance ab abc ≡ 2)
unfolding program
distances = (refl, refl)

-- A word of three letters is not close to itself.
missed_word : fuzzy_search lower abc 2 10 two_words ≡ []
unfolding program
missed_word = refl

abbrev no_words : Trie ℕ
no_words = clear

abbrev one_word : Trie ℕ
one_word = insert lower ab (some 2) no_words

ab-IsFilled : ab ≢ []
ab-IsFilled e = ground arith

smile-IsFilled : smile ≢ []
smile-IsFilled e = ground arith

search-insert_example :
    (letters lower ab ≡ letters lower ab
      → (search lower ab one_word ≡ some 2) × (contains lower ab one_word ≡ true))
    × (letters lower ab ≢ letters lower ab
        → (search lower ab one_word ≡ search lower ab no_words)
          × (contains lower ab one_word ≡ contains lower ab no_words))
search-insert_example = search-insert lower ab ab (some 2) no_words ab-IsFilled

abbrev smiling : Trie ℕ
smiling = insert lower smile (some 1) clear

-- A word with a surrogate pair stays after its deletion.
search-delete_example :
    (lower smile ≡ letters lower smile
      → (search lower smile (delete lower smile smiling).1 ≡ none)
        × (contains lower smile (delete lower smile smiling).1 ≡ false))
    × (lower smile ≢ letters lower smile
        → (search lower smile (delete lower smile smiling).1 ≡ search lower smile smiling)
          × (contains lower smile (delete lower smile smiling).1 ≡ contains lower smile smiling))
search-delete_example = search-delete lower smile smile smiling smile-IsFilled

two_words-IsProper : IsProper two_words
unfolding program
two_words-IsProper = ground arith

search_by_prefix-IsRanking_example :
    (rs : List (ℕ × ℕ)) × (search_by_prefix lower ab 1 two_words ≡ map (λ r. r.0) rs)
    × IsRanking 1 (StartsWith (letters lower ab) two_words) rs
search_by_prefix-IsRanking_example =
    search_by_prefix-IsRanking lower ab 1 two_words ab-IsFilled refl two_words-IsProper

levenshtein_distance-edits_example :
    levenshtein_distance abc xyz ≡ edits (reverse_onto [] abc) (reverse_onto [] xyz)
levenshtein_distance-edits_example = levenshtein_distance-edits abc xyz
