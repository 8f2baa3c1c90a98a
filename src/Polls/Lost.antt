-- ===== src/Polls/Lost.antt =====
-- What becomes of votes where the driver does not save changes inside the options
-- (src/modules/polls/polls.service.ts).
use backend_gateway.Base.{
  ℕ, suc, String, false, some, List, [], ◌∷◌, ◌≡◌, refl, string_eq, ap, ◌∙◌, All, arith, map, Reply,
  reply, refuse, subst, sym,
}
use backend_gateway.Polls.Poll.{Poll}
use backend_gateway.Polls.Service.{
  Saved, saved, vote, remove_vote, close_poll, create_poll, make_options, PollConversation,
  PollSettings, get_poll_results, PollResults, option_result, votes_of,
}
use backend_gateway.Polls.Votes.{vote_sound}
use backend_gateway.Polls.Creation.{created, votes_of-make_options}

pub data Request : Type 0 where
  voting : (now : ℕ) (user : String) → List String → Request
  taking_back : (user : String) → Request
  closing : (now : ℕ) (user : String) → Request

abbrev stored_or : Poll → Reply Saved → Poll
stored_or p (reply r) = r.stored
stored_or p (refuse e) = p

abbrev poll_or : Poll → Reply Poll → Poll
poll_or p (reply q) = q
poll_or p (refuse e) = p

module _ (creator : Poll → String) where
  -- The stored poll after a request, where the driver does not track.
  unfoldable pub handle : Request → Poll → Poll
  handle (voting now user selected) p = stored_or p (vote false now (some p) user selected)
  handle (taking_back user) p = stored_or p (remove_vote false (some p) user)
  handle (closing now user) p = poll_or p (close_poll now creator (some p) user)

  abbrev pub run : List Request → Poll → Poll
  run [] p = p
  run (r ∷ rs) p = run rs (handle r p)

  options-stored_or :
      (p : Poll) (r : Reply Saved)
      → ((s : Saved) → r ≡ reply s → s.stored.options ≡ p.options)
      → (stored_or p r).options ≡ p.options
  options-stored_or p (reply s) h = h s refl
  options-stored_or p (refuse e) h = refl

  options-poll_or :
      (p : Poll) (r : Reply Poll)
      → ((q : Poll) → r ≡ reply q → q.options ≡ p.options)
      → (poll_or p r).options ≡ p.options
  options-poll_or p (reply q) h = h q refl
  options-poll_or p (refuse e) h = refl

  options-handle : (r : Request) (p : Poll) → (handle r p).options ≡ p.options
  unfolding handle remove_vote saved close_poll
  options-handle (voting now user selected) p =
      options-stored_or p (vote false now (some p) user selected)
        (λ s h. ap (λ x. x.stored.options) ((vote_sound false now p s user selected h).1))
  options-handle (taking_back user) p =
      options-stored_or p (remove_vote false (some p) user) (λ s h. ground arith)
  options-handle (closing now user) p =
      options-poll_or p (close_poll now creator (some p) user) (λ q h. ground arith)

  options-run : (rs : List Request) (p : Poll) → (run rs p).options ≡ p.options
  options-run [] p = refl
  options-run (r ∷ rs) p = options-run rs (handle r p) ∙ options-handle r p

no_counts :
    (percent : ℕ → ℕ → ℕ) (p : Poll) (uuid : ℕ → String) (i : ℕ) (texts : List String)
    → All (λ o. o.vote_count ≡ 0) (map (option_result percent p) (make_options uuid i texts))
unfolding make_options option_result
no_counts percent p uuid i [] = tt
no_counts percent p uuid i (t ∷ ts) = (refl, no_counts percent p uuid (suc i) ts)

results_of :
    (percent : ℕ → ℕ → ℕ) (p : Poll) (user : String)
    → get_poll_results percent (some p) user
      ≡ reply (record {
        user_votes = votes_of user p.options;
        results = map (option_result percent p) p.options;
      })
unfolding get_poll_results
results_of percent p user = refl

-- Where the driver does not save changes inside the options, the results of a poll that was created
-- show no vote at all, neither of the user who asks nor in any count, whatever votes are given and
-- taken back after and whether the poll is closed.
pub get_poll_results-run :
    (percent : ℕ → ℕ → ℕ) (creator : Poll → String) (now : ℕ) (uuid : ℕ → String)
    (c : PollConversation) (message : Reply String) (by conversation_id question : String)
    (texts : List String) (settings : PollSettings) (p : Poll) (rs : List Request) (user : String)
    → create_poll now uuid (reply c) message by conversation_id question texts settings ≡ reply p
    → (r : PollResults) × (get_poll_results percent (some (run creator rs p)) user ≡ reply r)
      × (r.user_votes ≡ [])
      × All (λ o. o.vote_count ≡ 0) r.results
get_poll_results-run percent creator now uuid c message by conversation_id question texts settings p
      rs user h =
    let q = run creator rs p in
    let made : q.options ≡ make_options uuid 0 texts =
      options-run creator rs p
      ∙ (created now uuid c message by conversation_id question texts settings p h).0 in
    (
      record {
        user_votes = votes_of user q.options;
        results = map (option_result percent q) q.options;
      },
      results_of percent q user,
      ap (votes_of user) made ∙ votes_of-make_options uuid user 0 texts,
      subst (λ os. All (λ o. o.vote_count ≡ 0) (map (option_result percent q) os)) (sym made)
          (no_counts percent q uuid 0 texts),
    )
