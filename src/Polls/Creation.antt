-- ===== src/Polls/Creation.antt =====
-- What `createPoll` and `getPollResults` give (src/modules/polls/polls.service.ts).
use backend_gateway.Base.{
  ℕ, ◌≤◌, suc, String, true, false, none, some, List, [], ◌∷◌, ◌≡◌, refl, sym, subst, string_eq,
  includes, length, All, IsDistinct, arith, map, Reply, reply, ◌<◌,
}
use backend_gateway.Polls.Poll.{PollOption, Poll}
use backend_gateway.Polls.Service.{
  create_poll, make_options, PollConversation, PollSettings, get_poll_results, PollResults,
  option_result, votes_of,
}
use backend_gateway.Polls.Tally.{IsCounted, ids}
use backend_gateway.Polls.Votes.{IsValid}

module _ (uuid : ℕ → String) where
  not-includes-make_options :
      (k i : ℕ) (texts : List String)
      → ((a b : ℕ) → uuid a ≡ uuid b → a ≡ b)
      → k < i
      → includes (ids (make_options uuid i texts)) (uuid k) ≡ false
  unfolding make_options
  not-includes-make_options k i [] fresh h = refl
  not-includes-make_options k i (t ∷ ts) fresh h =
      ground (arith, fresh i k, not-includes-make_options k (suc i) ts fresh)

  IsDistinct-make_options :
      (i : ℕ) (texts : List String)
      → ((a b : ℕ) → uuid a ≡ uuid b → a ≡ b)
      → IsDistinct (ids (make_options uuid i texts))
  unfolding make_options
  IsDistinct-make_options i [] fresh = tt
  IsDistinct-make_options i (t ∷ ts) fresh = (
    not-includes-make_options i (suc i) ts fresh (omega arith),
    IsDistinct-make_options (suc i) ts fresh,
  )

  make_options-IsCounted : (i : ℕ) (texts : List String) → All IsCounted (make_options uuid i texts)
  unfolding make_options
  make_options-IsCounted i [] = tt
  make_options-IsCounted i (t ∷ ts) = ((tt, refl), make_options-IsCounted (suc i) ts)

  pub votes_of-make_options :
      (user : String) (i : ℕ) (texts : List String) → votes_of user (make_options uuid i texts) ≡ []
  unfolding make_options votes_of
  votes_of-make_options user i [] = refl
  votes_of-make_options user i (t ∷ ts) = votes_of-make_options user (suc i) ts

  map-make_options :
      (i : ℕ) (texts : List String) → map (λ o. o.text) (make_options uuid i texts) ≡ texts
  unfolding make_options
  map-make_options i [] = refl
  map-make_options i (t ∷ ts) = rw (map-make_options (suc i) ts)

pub created :
    (now : ℕ) (uuid : ℕ → String) (c : PollConversation) (message : Reply String)
    (creator conversation_id question : String) (texts : List String) (settings : PollSettings)
    (p : Poll)
    → create_poll now uuid (reply c) message creator conversation_id question texts settings
      ≡ reply p
    → (p.options ≡ make_options uuid 0 texts)
      × (p.total_votes ≡ 0)
      × (p.is_closed ≡ false)
      × (includes c.participants creator ≡ true)
      × (c.is_group ≡ true)
      × (2 ≤ length texts)
      × (length texts ≤ 10)
unfolding create_poll
created now uuid c message creator conversation_id question texts settings p h = ground arith

pub results_lem :
    (percent : ℕ → ℕ → ℕ) (p : Poll) (user : String) (r : PollResults)
    → get_poll_results percent (some p) user ≡ reply r
    → r.results ≡ map (option_result percent p) p.options
unfolding get_poll_results
results_lem percent p user r h = ground arith

hidden :
    (percent : ℕ → ℕ → ℕ) (p : Poll) (os : List PollOption)
    → p.is_anonymous ≡ true
    → All (λ o. o.voters ≡ none) (map (option_result percent p) os)
unfolding option_result
hidden percent p [] anonymous = tt
hidden percent p (o ∷ os) anonymous = (ground arith, hidden percent p os anonymous)

-- Where the drawn ids differ, a poll is created only by a participant, in a group conversation, and
-- with 2 to 10 options, which have the given texts in order. It is then valid, open, and without
-- votes.
pub create_poll-IsValid :
    (now : ℕ) (uuid : ℕ → String) (c : PollConversation) (message : Reply String)
    (creator conversation_id question : String) (texts : List String) (settings : PollSettings)
    (p : Poll)
    → ((a b : ℕ) → uuid a ≡ uuid b → a ≡ b)
    → create_poll now uuid (reply c) message creator conversation_id question texts settings
      ≡ reply p
    → IsValid p
      × (includes c.participants creator ≡ true)
      × (c.is_group ≡ true)
      × (2 ≤ length texts)
      × (length texts ≤ 10)
      × (map (λ o. o.text) p.options ≡ texts)
      × (p.is_closed ≡ false)
      × (p.total_votes ≡ 0)
create_poll-IsValid now uuid c message creator conversation_id question texts settings p fresh h =
    let (options, total, is_open, member, group, least, most) =
      created now uuid c message creator conversation_id question texts settings p h in
    (
      record {
        ids_distinct =
            subst (λ os. IsDistinct (ids os)) (sym options)
              (IsDistinct-make_options uuid 0 texts fresh);
        counted = subst (All IsCounted) (sym options) (make_options-IsCounted uuid 0 texts);
        single = λ one user. ground (arith, votes_of-make_options uuid user 0 texts);
      },
      member,
      group,
      least,
      most,
      rw options (map-make_options uuid 0 texts),
      is_open,
      total,
    )

-- The voters of an anonymous poll are in no result, whoever asks.
pub get_poll_results_anonymous :
    (percent : ℕ → ℕ → ℕ) (p : Poll) (user : String) (r : PollResults)
    → p.is_anonymous ≡ true
    → get_poll_results percent (some p) user ≡ reply r
    → All (λ o. o.voters ≡ none) r.results
get_poll_results_anonymous percent p user r anonymous h =
    subst (All (λ o. o.voters ≡ none)) (sym (results_lem percent p user r h))
      (hidden percent p p.options anonymous)
