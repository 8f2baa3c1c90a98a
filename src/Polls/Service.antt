-- ===== src/Polls/Service.antt =====
-- src/modules/polls/polls.service.ts. A method takes the document that the driver finds, or `none`,
-- and gives the document that is stored, with the one that is answered where they differ, or the
-- exception that it throws.
use Prim.Native.String.{◌++◌ as ◌<>◌}
use backend_gateway.Base.{
  ℕ, suc, ◌+◌, ◌*◌, String, Bool, true, false, Option, none, some, List, [], ◌∷◌, ◌==◌, string_eq,
  nat_eq, if◌then◌else◌, includes, length, ltb, not, ◌||◌, Reply, reply, refuse, not_found,
  forbidden, bad_request, require, existing, ◌>>=◌, ◌>>◌, map,
}
use backend_gateway.Polls.Poll.{PollOption, Poll, remove_votes, add_votes, sum_counts, has_option}

-- `poll.expiresAt && new Date() > poll.expiresAt`
abbrev pub is_expired : ℕ → Option ℕ → Bool
is_expired now none = false
is_expired now (some t) = ltb t now

-- The check of the option ids: the first unknown one is refused.
unfoldable pub check_options : List PollOption → List String → Reply (Unit {0})
check_options os [] = reply tt
check_options os (id ∷ ids) =
    let rest = check_options os ids in
    if has_option os id then rest else refuse (bad_request ("Invalid option ID: " <> id))

unfoldable pub find_poll : Option Poll → Reply Poll
find_poll found = existing found (not_found "Poll not found")

-- The document that is stored by `save`, and the one in memory, which is answered.
pub record Saved : Type 0 where
  pub stored : Poll
  pub answered : Poll

-- `totalVotes` is counted anew and saved. `tracks_mixed` says whether the driver saves what changes
-- inside `options`, which the schema leaves without a type: without `markModified` Mongoose does not.
unfoldable pub saved : Bool → Poll → List PollOption → Saved
saved tracks_mixed poll options = record {
  stored = record poll {
    options = if tracks_mixed then options else poll.options;
    total_votes = sum_counts 0 options;
  };
  answered = record poll { options = options; total_votes = sum_counts 0 options };
}

unfoldable pub vote : Bool → ℕ → Option Poll → String → List String → Reply Saved
unfolding find_poll saved
vote tracks_mixed now found user ids = do
  poll ← find_poll found
  require (not poll.is_closed) (forbidden "This poll is closed")
  require (not (is_expired now poll.expires_at)) (forbidden "This poll has expired")
  require (poll.allow_multiple_answers || not (ltb 1 (length ids)))
      (bad_request "This poll only allows one answer")
  check_options poll.options ids
  let options = add_votes user ids (remove_votes user poll.options)
  reply (saved tracks_mixed poll options)

unfoldable pub remove_vote : Bool → Option Poll → String → Reply Saved
unfolding find_poll saved
remove_vote tracks_mixed found user = do
  poll ← find_poll found
  require (not poll.is_closed) (forbidden "This poll is closed")
  let options = remove_votes user poll.options
  reply (saved tracks_mixed poll options)

-- `creator` is the text of `poll.creatorId`, which `findById` has populated.
unfoldable pub close_poll : ℕ → (Poll → String) → Option Poll → String → Reply Poll
unfolding find_poll
close_poll now creator found user = do
  poll ← find_poll found
  require (creator poll == user) (forbidden "Only the poll creator can close the poll")
  require (not poll.is_closed) (bad_request "Poll is already closed")
  reply (record poll { is_closed = true; closed_at = some now; closed_by = some user })

-- The id of the message to delete with the poll, if it has one.
unfoldable pub delete_poll : (Poll → String) → Option Poll → String → Reply (Option String)
unfolding find_poll
delete_poll creator found user = do
  poll ← find_poll found
  require (creator poll == user) (forbidden "Only the poll creator can delete the poll")
  reply poll.message_id

-- What the service reads of a conversation.
pub record PollConversation : Type 0 where
  pub participants : List String
  pub is_group : Bool

pub record PollSettings : Type 0 where
  pub allow_multiple_answers : Option Bool
  pub is_anonymous : Option Bool
  pub expires_in_hours : Option ℕ

abbrev or_else : Option Bool → Bool → Bool
or_else none b = b
or_else (some a) b = a

-- An absent time and 0 hours both leave the poll without an end.
unfoldable pub expiry : ℕ → Option ℕ → Option ℕ
expiry now none = none
expiry now (some hours) = if hours == 0 then none else some (now + hours * 60 * 60 * 1000)

-- `uuid i` is the id that the `i`th call of `uuidv4` gives.
unfoldable pub make_options : (ℕ → String) → ℕ → List String → List PollOption
make_options uuid i [] = []
make_options uuid i (text ∷ texts) =
    (record { id = uuid i; text = text; voters = []; vote_count = 0 })
    ∷ make_options uuid (suc i) texts

-- The poll as it is first saved, and then with the id of the message that announces it; `message`
-- is what `MessagesService.createMessage` gives.
unfoldable pub create_poll :
    ℕ
    → (ℕ → String)
    → Reply PollConversation
    → Reply String
    → String
    → String
    → String
    → List String
    → PollSettings
    → Reply Poll
unfolding expiry make_options
create_poll now uuid found message creator conversation_id question texts settings = do
  conversation ← found
  require (includes conversation.participants creator)
      (forbidden "You are not a participant of this conversation")
  require conversation.is_group (forbidden "Polls can only be created in group conversations")
  require (not (ltb (length texts) 2)) (bad_request "Poll must have at least 2 options")
  require (not (ltb 10 (length texts))) (bad_request "Poll can have maximum 10 options")
  message_id ← message
  reply (record {
    conversation_id = conversation_id;
    creator_id = creator;
    message_id = some message_id;
    question = question;
    options = make_options uuid 0 texts;
    allow_multiple_answers = or_else settings.allow_multiple_answers false;
    is_anonymous = or_else settings.is_anonymous true;
    expires_at = expiry now settings.expires_in_hours;
    is_closed = false;
    closed_at = none;
    closed_by = none;
    total_votes = 0;
  })

-- `polls` is what the driver finds for the conversation.
unfoldable pub get_conversation_polls :
    Reply PollConversation → List Poll → String → Reply (List Poll)
get_conversation_polls found polls user = do
  conversation ← found
  require (includes conversation.participants user)
      (forbidden "You are not a participant of this conversation")
  reply polls

-- One entry of `results`; `percent` rounds a share as JavaScript's numbers do.
pub record OptionResult : Type 0 where
  pub option_id : String
  pub text : String
  pub vote_count : ℕ
  pub percentage : ℕ
  pub voters : Option (List String)

pub record PollResults : Type 0 where
  pub user_votes : List String
  pub results : List OptionResult

unfoldable pub votes_of : String → List PollOption → List String
votes_of user [] = []
votes_of user (o ∷ os) =
    if includes o.voters user then o.id ∷ votes_of user os else votes_of user os

unfoldable pub option_result : (ℕ → ℕ → ℕ) → Poll → PollOption → OptionResult
option_result percent poll o = record {
  option_id = o.id;
  text = o.text;
  vote_count = o.vote_count;
  percentage = if ltb 0 poll.total_votes then percent o.vote_count poll.total_votes else 0;
  voters = if poll.is_anonymous then none else some o.voters;
}

unfoldable pub get_poll_results : (ℕ → ℕ → ℕ) → Option Poll → String → Reply PollResults
unfolding find_poll votes_of option_result
get_poll_results percent found user = do
  poll ← find_poll found
  reply (record {
    user_votes = votes_of user poll.options;
    results = map (option_result percent poll) poll.options;
  })
