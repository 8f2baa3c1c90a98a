-- ===== src/Polls/Votes.antt =====
-- What voting does (src/modules/polls/polls.service.ts).
use backend_gateway.Base.{
  ℕ, ◌≤◌, Bool, if◌then◌else◌, String, true, false, some, List, [], ◌∷◌, ◌≡◌, ◌≢◌, ◌⊎◌, refl, sym,
  inl, inr, ◌==◌, string_eq, includes, length, All, IsDistinct, arith, reply, ◌&&◌, Bool-cases,
  Option-cases, subst, ==_refl, ◌∙◌,
}
use backend_gateway.Polls.Poll.{PollOption, Poll, remove_votes, add_votes, sum_counts}
use backend_gateway.Polls.Service.{Saved, saved, vote, votes_of, check_options}
use backend_gateway.Polls.Tally.{
  IsCounted, ids, ballots, remove_votes-IsCounted, add_votes-IsCounted, sum_counts-ballots,
  ids-remove_votes, ids-add_votes, votes_of-remove_votes, votes_of-add_votes_ne,
  length-votes_of-add_votes, has_option-includes, includes-votes_of-add_votes,
}

-- Option ids differ, counts are numbers of voters, and where only one answer is allowed nobody has
-- voted for two options.
pub record IsValid (p : Poll) : Type 0 where
  pub ids_distinct : IsDistinct (ids p.options)
  pub counted : All IsCounted p.options
  pub single :
      p.allow_multiple_answers ≡ false → (user : String) → length (votes_of user p.options) ≤ 1

-- What a vote requires.
pub record IsAllowed (now : ℕ) (p : Poll) (selected : List String) : Type 0 where
  pub is_open : p.is_closed ≡ false
  pub in_time : (t : ℕ) → p.expires_at ≡ some t → now ≤ t
  pub not_too_many : (p.allow_multiple_answers ≡ true) ⊎ (length selected ≤ 1)
  pub known : (id : String) → includes selected id ≡ true → includes (ids p.options) id ≡ true

-- The poll after a vote that goes through.
abbrev pub voted : Poll → String → List String → Poll
voted p user selected = record p {
  options = add_votes user selected (remove_votes user p.options);
  total_votes = sum_counts 0 (add_votes user selected (remove_votes user p.options));
}

check_options-known :
    (os : List PollOption) (selected : List String) (id : String)
    → check_options os selected ≡ reply tt
    → includes selected id ≡ true
    → includes (ids os) id ≡ true
unfolding check_options
check_options-known os [] id h m = cc
check_options-known os (i ∷ is) id h m =
    ground (arith, has_option-includes os i, check_options-known os is id)

known-check_options :
    (os : List PollOption) (selected : List String)
    → ((id : String) → includes selected id ≡ true → includes (ids os) id ≡ true)
    → check_options os selected ≡ reply tt
unfolding check_options
known-check_options os [] h = refl
known-check_options os (i ∷ is) h =
    let rest = known-check_options os is (λ id m. h id (ground arith)) in
    ground (arith, has_option-includes os i, h i (ground (arith, ==_refl i)), rest)

-- What a vote that goes through stores and answers: without tracking, the stored options stay.
abbrev pub outcome : Bool → Poll → String → List String → Saved
outcome tracks_mixed p user selected = record {
  stored = record p {
    options = if tracks_mixed then (voted p user selected).options else p.options;
    total_votes = (voted p user selected).total_votes;
  };
  answered = voted p user selected;
}

pub vote_sound :
    (tracks_mixed : Bool) (now : ℕ) (p : Poll) (r : Saved) (user : String) (selected : List String)
    → vote tracks_mixed now (some p) user selected ≡ reply r
    → IsAllowed now p selected × (r ≡ outcome tracks_mixed p user selected)
unfolding vote saved
vote_sound tracks_mixed now p r user selected h = (
  record {
    is_open = ground arith;
    in_time = λ t e. ground arith;
    not_too_many = ground arith;
    known = λ id m. check_options-known p.options selected id (ground arith) m;
  },
  ground arith,
)

pub vote_complete :
    (tracks_mixed : Bool) (now : ℕ) (p : Poll) (user : String) (selected : List String)
    → IsAllowed now p selected
    → vote tracks_mixed now (some p) user selected ≡ reply (outcome tracks_mixed p user selected)
unfolding vote saved
vote_complete tracks_mixed now p user selected a =
    let checked = known-check_options p.options selected a.known in
    elim (Option-cases p.expires_at) [
      | inl never ↦ ground (arith, checked)
      | inr (t, until) ↦ ground (arith, checked, a.in_time t until)
    ]

votes_of-voted_ne :
    (p : Poll) (user w : String) (selected : List String)
    → All IsCounted p.options
    → user ≢ w
    → votes_of w (voted p user selected).options ≡ votes_of w p.options
votes_of-voted_ne p user w selected counted other =
    votes_of-add_votes_ne user w selected (remove_votes user p.options) other
    ∙ ground (arith, votes_of-remove_votes user w p.options counted)

votes_of-voted :
    (p : Poll) (user id : String) (selected : List String)
    → All IsCounted p.options
    → includes (votes_of user (voted p user selected).options) id
      ≡ (includes selected id && includes (ids p.options) id)
votes_of-voted p user id selected counted = ground (
  arith,
  includes-votes_of-add_votes user id selected (remove_votes user p.options),
  votes_of-remove_votes user user p.options counted,
  ids-remove_votes user p.options,
  ==_refl user,
)

votes_of-voted_single :
    (p : Poll) (user w : String) (selected : List String)
    → IsValid p
    → length selected ≤ 1
    → p.allow_multiple_answers ≡ false
    → length (votes_of w (voted p user selected).options) ≤ 1
votes_of-voted_single p user w selected v few one = elim (Bool-cases (user == w)) [
  | inl same ↦ ground (
    arith,
    length-votes_of-add_votes user selected (remove_votes user p.options),
    votes_of-remove_votes user user p.options v.counted,
    ==_refl user,
  )
  | inr other ↦ ground (arith, v.single one w, votes_of-voted_ne p user w selected v.counted)
]

pub voted-IsValid :
    (p : Poll) (user : String) (selected : List String)
    → (p.allow_multiple_answers ≡ true) ⊎ (length selected ≤ 1)
    → IsValid p
    → IsValid (voted p user selected)
voted-IsValid p user selected few v =
    let removed = remove_votes user p.options in
    let counted =
      add_votes-IsCounted user selected removed (remove_votes-IsCounted user p.options v.counted) in
    record {
      ids_distinct =
          subst IsDistinct
            (sym (ids-add_votes user selected removed ∙ ids-remove_votes user p.options))
            v.ids_distinct;
      counted = counted;
      single = λ one w. votes_of-voted_single p user w selected v (ground arith) one;
    }

voted_total :
    (p : Poll) (user : String) (selected : List String)
    → IsValid p
    → (voted p user selected).total_votes ≡ ballots (voted p user selected).options
voted_total p user selected v =
    let removed = remove_votes user p.options in
    let counted =
      add_votes-IsCounted user selected removed (remove_votes-IsCounted user p.options v.counted) in
    sum_counts-ballots 0 (add_votes user selected removed) counted ∙ omega arith

stored-IsValid :
    (tracks_mixed : Bool) (p : Poll) (user : String) (selected : List String)
    → IsValid p
    → IsValid (voted p user selected)
    → IsValid (outcome tracks_mixed p user selected).stored
stored-IsValid true p user selected v w = record {
  ids_distinct = w.ids_distinct;
  counted = w.counted;
  single = w.single;
}
stored-IsValid false p user selected v w = record {
  ids_distinct = v.ids_distinct;
  counted = v.counted;
  single = v.single;
}

-- After a vote on a valid poll the poll that is stored and the one that is answered are valid. The
-- one that is answered has as total the number of its votes, gives as the user's votes exactly the
-- selected options, and as any other user's votes what the poll gave before.
pub vote-IsValid :
    (tracks_mixed : Bool) (now : ℕ) (p : Poll) (r : Saved) (user : String) (selected : List String)
    → IsValid p
    → vote tracks_mixed now (some p) user selected ≡ reply r
    → IsValid r.stored
      × IsValid r.answered
      × (r.answered.total_votes ≡ ballots r.answered.options)
      × ((id : String) → includes (votes_of user r.answered.options) id ≡ includes selected id)
      × ((w : String) → user ≢ w → votes_of w r.answered.options ≡ votes_of w p.options)
vote-IsValid tracks_mixed now p r user selected v h =
    let (allowed, e) = vote_sound tracks_mixed now p r user selected h in
    let valid = voted-IsValid p user selected allowed.not_too_many v in
    (
      rw e (stored-IsValid tracks_mixed p user selected v valid),
      rw e valid,
      rw e (voted_total p user selected v),
      λ id. rw e (ground (arith, votes_of-voted p user id selected v.counted, allowed.known id)),
      λ w other. rw e (votes_of-voted_ne p user w selected v.counted other),
    )
