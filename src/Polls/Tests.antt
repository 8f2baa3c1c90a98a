-- ===== src/Polls/Tests.antt =====
-- A poll at concrete inputs, and the theorems applied there.
use Prim.Native.Char.{Char}
use backend_gateway.Base.{
  includes, All, ◌≢◌, ℕ, zero, suc, ap, String, true, false, none, some, List, [], ◌∷◌, ◌≡◌, refl,
  String_discrete, string_eq, arith, reply,
}
use backend_gateway.Polls.Poll.{Poll, remove_votes, add_votes, sum_counts}
use backend_gateway.Polls.Service.{
  Saved, saved, make_options, expiry, PollConversation, PollSettings, PollResults, create_poll,
  vote, remove_vote, close_poll, get_poll_results, votes_of, check_options,
}
use backend_gateway.Polls.Tally.{ballots}
use backend_gateway.Polls.Votes.{IsValid, vote-IsValid}
use backend_gateway.Polls.Lost.{
  Request, voting, taking_back, closing, handle, run, get_poll_results-run,
}

-- Ids that differ: texts of different lengths.
uuid : ℕ → String
uuid zero = ""
uuid (suc n) = String.◌∷◌ (let c : Char = "x" in c) (uuid n)

program : Unit {0}
unfolding String_discrete create_poll vote remove_vote close_poll get_poll_results check_options
    remove_votes add_votes sum_counts votes_of saved make_options expiry handle uuid
program = tt

abbrev tea : Poll
tea = record {
  conversation_id = "c";
  creator_id = "ann";
  message_id = some "m";
  question = "Tea?";
  options =
      (record { id = "y"; text = "Yes"; voters = "bob" ∷ []; vote_count = 1 })
      ∷ (record { id = "n"; text = "No"; voters = []; vote_count = 0 })
      ∷ [];
  allow_multiple_answers = false;
  is_anonymous = true;
  expires_at = none;
  is_closed = false;
  closed_at = none;
  closed_by = none;
  total_votes = 1;
}

-- Bob changes his mind.
abbrev tea' : Poll
tea' = record tea {
  options =
      (record { id = "y"; text = "Yes"; voters = []; vote_count = 0 })
      ∷ (record { id = "n"; text = "No"; voters = "bob" ∷ []; vote_count = 1 })
      ∷ [];
}

-- What the driver stores of it without tracking.
abbrev bob_changes : Saved
bob_changes = record { stored = tea; answered = tea' }

changed : vote false 0 (some tea) "bob" ("n" ∷ []) ≡ reply bob_changes
unfolding program
changed = refl

tea-IsValid : IsValid tea
unfolding program
tea-IsValid = record {
  ids_distinct = (refl, (refl, tt));
  counted = (((refl, tt), refl), ((tt, refl), tt));
  single = λ one user. ground arith;
}

vote-IsValid_example :
    IsValid tea
    × IsValid tea'
    × (tea'.total_votes ≡ ballots tea'.options)
    × ((id : String) → includes (votes_of "bob" tea'.options) id ≡ includes ("n" ∷ []) id)
    × ((w : String) → "bob" ≢ w → votes_of w tea'.options ≡ votes_of w tea.options)
vote-IsValid_example = vote-IsValid false 0 tea bob_changes "bob" ("n" ∷ []) tea-IsValid changed

abbrev percent : ℕ → ℕ → ℕ
percent count total = 0

abbrev closed_tea : Poll
closed_tea = record tea { is_closed = true; closed_at = some 7; closed_by = some "ann" }

abbrev group : PollConversation
group = record { participants = "ann" ∷ "bob" ∷ []; is_group = true }

abbrev settings : PollSettings
settings = record { allow_multiple_answers = none; is_anonymous = none; expires_in_hours = none }

uuid_injective : (a b : ℕ) → uuid a ≡ uuid b → a ≡ b
unfolding uuid
uuid_injective zero zero h = refl
uuid_injective zero (suc b) h = cc
uuid_injective (suc a) zero h = cc
uuid_injective (suc a) (suc b) h = ap suc (uuid_injective a b (cc))

abbrev fresh_tea : Poll
unfolding uuid
fresh_tea = record tea {
  options =
      (record { id = uuid 0; text = "Yes"; voters = []; vote_count = 0 })
      ∷ (record { id = uuid 1; text = "No"; voters = []; vote_count = 0 })
      ∷ [];
  total_votes = 0;
}

abbrev texts : List String
texts = "Yes" ∷ "No" ∷ []

abbrev results : PollResults
results = record {
  user_votes = "y" ∷ [];
  results =
      (record { option_id = "y"; text = "Yes"; vote_count = 1; percentage = 0; voters = none })
      ∷ (record { option_id = "n"; text = "No"; vote_count = 0; percentage = 0; voters = none })
      ∷ [];
}

results_test : get_poll_results percent (some tea) "bob" ≡ reply results
unfolding program
results_test = refl

-- Ann creates the poll, and bob votes.
abbrev votes : List Request
votes = voting 1 "bob" (uuid 0 ∷ []) ∷ taking_back "cid" ∷ closing 2 "ann" ∷ []

fresh_tea_test :
    create_poll 0 uuid (reply group) (reply "m") "ann" "c" "Tea?" texts settings ≡ reply fresh_tea
unfolding program
fresh_tea_test = refl

get_poll_results-run_example :
    (r : PollResults) × (get_poll_results percent
        (some (run (λ p. p.creator_id) votes fresh_tea))
        "bob"
      ≡ reply r)
    × (r.user_votes ≡ [])
    × All (λ o. o.vote_count ≡ 0) r.results
get_poll_results-run_example =
    get_poll_results-run percent (λ p. p.creator_id) 0 uuid group (reply "m") "ann" "c" "Tea?" texts
      settings fresh_tea votes "bob" fresh_tea_test

-- The total counts the vote that is lost.
lost_total : (run (λ p. p.creator_id) (voting 1 "bob" (uuid 0 ∷ []) ∷ []) fresh_tea).total_votes ≡ 1
unfolding program
lost_total = refl
