-- ===== src/Polls/Poll.antt =====
-- src/modules/polls/schemas/poll.schema.ts, and the steps of src/modules/polls/polls.service.ts on
-- the options of a poll.
use backend_gateway.Base.{
  ℕ, ◌+◌, ◌-◌, String, Bool, Option, List, [], ◌∷◌, ◌++◌, ◌==◌, string_eq, if◌then◌else◌, includes,
  any,
}

pub record PollOption : Type 0 where
  pub id : String
  pub text : String
  pub voters : List String
  pub vote_count : ℕ

pub record Poll : Type 0 where
  pub conversation_id : String
  pub creator_id : String
  pub message_id : Option String
  pub question : String
  pub options : List PollOption
  pub allow_multiple_answers : Bool
  pub is_anonymous : Bool
  pub expires_at : Option ℕ
  pub is_closed : Bool
  pub closed_at : Option ℕ
  pub closed_by : Option String
  pub total_votes : ℕ

-- `voters.splice(voters.indexOf(user), 1)`, where the user is found.
unfoldable pub splice_voter : String → List String → List String
splice_voter user [] = []
splice_voter user (v ∷ vs) = if v == user then vs else v ∷ splice_voter user vs

-- `Math.max(0, voteCount - 1)` is the subtraction that stops at 0.
unfoldable pub remove_voter : String → PollOption → PollOption
unfolding splice_voter
remove_voter user o =
    if includes o.voters user
    then record o { voters = splice_voter user o.voters; vote_count = o.vote_count - 1 }
    else o

unfoldable pub remove_votes : String → List PollOption → List PollOption
unfolding remove_voter
remove_votes user [] = []
remove_votes user (o ∷ os) = remove_voter user o ∷ remove_votes user os

unfoldable pub add_voter : String → PollOption → PollOption
add_voter user o =
    if includes o.voters user
    then o
    else record o { voters = o.voters ++ user ∷ []; vote_count = o.vote_count + 1 }

-- The vote for the first option with the id.
unfoldable pub add_vote : String → String → List PollOption → List PollOption
unfolding add_voter
add_vote user id [] = []
add_vote user id (o ∷ os) = if o.id == id then add_voter user o ∷ os else o ∷ add_vote user id os

unfoldable pub add_votes : String → List String → List PollOption → List PollOption
unfolding add_vote
add_votes user [] os = os
add_votes user (id ∷ ids) os = add_votes user ids (add_vote user id os)

-- `poll.options.reduce((sum, o) => sum + o.voteCount, 0)`
unfoldable pub sum_counts : ℕ → List PollOption → ℕ
sum_counts sum [] = sum
sum_counts sum (o ∷ os) = sum_counts (sum + o.vote_count) os

abbrev pub has_option : List PollOption → String → Bool
has_option os id = any (λ o. o.id == id) os
