-- ===== src/Polls/Closing.antt =====
-- Who closes a poll, and what is refused after (src/modules/polls/polls.service.ts).
use backend_gateway.Base.{
  ℕ, String, Bool, Option, some, List, ◌≡◌, ◌≢◌, string_eq, arith, reply, refuse, forbidden,
}
use backend_gateway.Polls.Poll.{Poll}
use backend_gateway.Polls.Service.{vote, remove_vote, close_poll, delete_poll}

-- Once a poll is closed nobody can vote, take a vote back or close it again.
pub close_poll_final :
    (tracks_mixed : Bool) (now later : ℕ) (creator : Poll → String) (p p' : Poll) (user w : String)
    (selected : List String)
    → close_poll now creator (some p) user ≡ reply p'
    → (vote tracks_mixed later (some p') w selected ≡ refuse (forbidden "This poll is closed"))
      × (remove_vote tracks_mixed (some p') w ≡ refuse (forbidden "This poll is closed"))
      × ((q : Poll) → close_poll later creator (some p') w ≢ reply q)
unfolding close_poll vote remove_vote
close_poll_final tracks_mixed now later creator p p' user w selected h =
    (ground arith, ground arith, λ q. ground arith)

-- Only the user whose id is the text of the poll's creator can close or delete it.
pub creator_only :
    (now : ℕ) (creator : Poll → String) (p : Poll) (user : String)
    → ((q : Poll) → close_poll now creator (some p) user ≡ reply q → creator p ≡ user)
      × ((m : Option String) → delete_poll creator (some p) user ≡ reply m → creator p ≡ user)
unfolding close_poll delete_poll
creator_only now creator p user = (λ q h. ground arith, λ m h. ground arith)
