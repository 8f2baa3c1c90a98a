-- ===== src/Polls/Tally.antt =====
-- The steps of src/modules/polls/polls.service.ts keep the tally of the options: whose votes an
-- option holds, and that its count is their number.
use backend_gateway.Base.{
  ℕ, ◌+◌, ◌≤◌, String, true, false, List, [], ◌∷◌, ◌≡◌, ◌≢◌, refl, ap, ◌∙◌, ◌==◌, string_eq,
  if◌then◌else◌, includes, includes-append, length, length-append, All, IsDistinct,
  IsDistinct-append_one, arith, map, ◌||◌, ◌&&◌,
}
use backend_gateway.Polls.Poll.{
  PollOption, splice_voter, remove_voter, remove_votes, add_voter, add_vote, add_votes, sum_counts,
  has_option,
}
use backend_gateway.Polls.Service.{votes_of}

-- No voter stands twice, and the count is the number of voters.
abbrev pub IsCounted : PollOption → Type 0
IsCounted o = IsDistinct o.voters × (o.vote_count ≡ length o.voters)

abbrev pub ids : List PollOption → List String
ids os = map (λ o. o.id) os

-- The votes cast for all options together.
abbrev pub ballots : List PollOption → ℕ
ballots [] = 0
ballots (o ∷ os) = length o.voters + ballots os

includes-splice_voter :
    (user w : String) (vs : List String)
    → IsDistinct vs
    → includes (splice_voter user vs) w ≡ (if user == w then false else includes vs w)
unfolding splice_voter
includes-splice_voter user w [] d = ground arith
includes-splice_voter user w (v ∷ vs) d = ground (arith, includes-splice_voter user w vs)

IsDistinct-splice_voter :
    (user : String) (vs : List String) → IsDistinct vs → IsDistinct (splice_voter user vs)
unfolding splice_voter
IsDistinct-splice_voter user [] d = tt
IsDistinct-splice_voter user (v ∷ vs) d =
    ground (arith, IsDistinct-splice_voter user vs, includes-splice_voter user v vs)

length-splice_voter :
    (user : String) (vs : List String)
    → includes vs user ≡ true
    → length (splice_voter user vs) + 1 ≡ length vs
unfolding splice_voter
length-splice_voter user [] h = cc
length-splice_voter user (v ∷ vs) h = ground (arith, length-splice_voter user vs)

remove_voter-IsCounted :
    (user : String) (o : PollOption) → IsCounted o → IsCounted (remove_voter user o)
unfolding remove_voter
remove_voter-IsCounted user o h =
    ground (arith, IsDistinct-splice_voter user o.voters, length-splice_voter user o.voters)

includes-remove_voter :
    (user w : String) (o : PollOption)
    → IsCounted o
    → includes (remove_voter user o).voters w ≡ (if user == w then false else includes o.voters w)
unfolding remove_voter
includes-remove_voter user w o h = ground (arith, includes-splice_voter user w o.voters)

add_voter-IsCounted : (user : String) (o : PollOption) → IsCounted o → IsCounted (add_voter user o)
unfolding add_voter
add_voter-IsCounted user o h =
    ground (arith, IsDistinct-append_one o.voters user, length-append o.voters (user ∷ []))

includes-add_voter :
    (user w : String) (o : PollOption)
    → includes (add_voter user o).voters w ≡ (if user == w then true else includes o.voters w)
unfolding add_voter
includes-add_voter user w o = ground (arith, includes-append o.voters (user ∷ []) w)

pub remove_votes-IsCounted :
    (user : String) (os : List PollOption) → All IsCounted os → All IsCounted (remove_votes user os)
unfolding remove_votes
remove_votes-IsCounted user [] h = tt
remove_votes-IsCounted user (o ∷ os) h =
    (remove_voter-IsCounted user o h.0, remove_votes-IsCounted user os h.1)

add_vote-IsCounted :
    (user id : String) (os : List PollOption)
    → All IsCounted os
    → All IsCounted (add_vote user id os)
unfolding add_vote
add_vote-IsCounted user id [] h = tt
add_vote-IsCounted user id (o ∷ os) h =
    ground (arith, add_voter-IsCounted user o h.0, add_vote-IsCounted user id os)

pub add_votes-IsCounted :
    (user : String) (is : List String) (os : List PollOption)
    → All IsCounted os
    → All IsCounted (add_votes user is os)
unfolding add_votes
add_votes-IsCounted user [] os h = h
add_votes-IsCounted user (id ∷ is) os h =
    add_votes-IsCounted user is (add_vote user id os) (add_vote-IsCounted user id os h)

pub sum_counts-ballots :
    (sum : ℕ) (os : List PollOption) → All IsCounted os → sum_counts sum os ≡ sum + ballots os
unfolding sum_counts
sum_counts-ballots sum [] h = omega arith
sum_counts-ballots sum (o ∷ os) h =
    omega (arith, sum_counts-ballots (sum + o.vote_count) os h.1, h.0.1)

id-remove_voter : (user : String) (o : PollOption) → (remove_voter user o).id ≡ o.id
unfolding remove_voter
id-remove_voter user o = ground arith

id-add_voter : (user : String) (o : PollOption) → (add_voter user o).id ≡ o.id
unfolding add_voter
id-add_voter user o = ground arith

pub ids-remove_votes : (user : String) (os : List PollOption) → ids (remove_votes user os) ≡ ids os
unfolding remove_votes
ids-remove_votes user [] = refl
ids-remove_votes user (o ∷ os) = cc (id-remove_voter user o, ids-remove_votes user os)

ids-add_vote : (user id : String) (os : List PollOption) → ids (add_vote user id os) ≡ ids os
unfolding add_vote
ids-add_vote user id [] = refl
ids-add_vote user id (o ∷ os) = ground (arith, id-add_voter user o, ids-add_vote user id os)

pub ids-add_votes :
    (user : String) (is : List String) (os : List PollOption) → ids (add_votes user is os) ≡ ids os
unfolding add_votes
ids-add_votes user [] os = refl
ids-add_votes user (id ∷ is) os =
    ids-add_votes user is (add_vote user id os) ∙ ids-add_vote user id os

-- Taking a user's votes away leaves it none, and every other user its own.
pub votes_of-remove_votes :
    (user w : String) (os : List PollOption)
    → All IsCounted os
    → votes_of w (remove_votes user os) ≡ (if user == w then [] else votes_of w os)
unfolding remove_votes votes_of
votes_of-remove_votes user w [] h = ground arith
votes_of-remove_votes user w (o ∷ os) h = ground (
  arith,
  includes-remove_voter user w o h.0,
  id-remove_voter user o,
  votes_of-remove_votes user w os h.1,
)

-- A vote of one user is no other user's.
votes_of-add_vote_ne :
    (user w id : String) (os : List PollOption)
    → user ≢ w
    → votes_of w (add_vote user id os) ≡ votes_of w os
unfolding add_vote votes_of
votes_of-add_vote_ne user w id [] h = refl
votes_of-add_vote_ne user w id (o ∷ os) h =
    ground
      (arith, includes-add_voter user w o, id-add_voter user o, votes_of-add_vote_ne user w id os)

pub votes_of-add_votes_ne :
    (user w : String) (is : List String) (os : List PollOption)
    → user ≢ w
    → votes_of w (add_votes user is os) ≡ votes_of w os
unfolding add_votes
votes_of-add_votes_ne user w [] os h = refl
votes_of-add_votes_ne user w (id ∷ is) os h =
    votes_of-add_votes_ne user w is (add_vote user id os) h ∙ votes_of-add_vote_ne user w id os h

includes-votes_of-add_vote :
    (user id j : String) (os : List PollOption)
    → includes (votes_of user (add_vote user id os)) j
      ≡ (includes (votes_of user os) j || (id == j && has_option os id))
unfolding add_vote votes_of
includes-votes_of-add_vote user id j [] = ground arith
includes-votes_of-add_vote user id j (o ∷ os) = ground (
  arith,
  includes-add_voter user user o,
  id-add_voter user o,
  includes-votes_of-add_vote user id j os,
)

length-votes_of-add_vote :
    (user id : String) (os : List PollOption)
    → length (votes_of user (add_vote user id os)) ≤ length (votes_of user os) + 1
unfolding add_vote votes_of
length-votes_of-add_vote user id [] = omega arith
length-votes_of-add_vote user id (o ∷ os) = ground (
  arith,
  includes-add_voter user user o,
  id-add_voter user o,
  length-votes_of-add_vote user id os,
)

pub length-votes_of-add_votes :
    (user : String) (is : List String) (os : List PollOption)
    → length (votes_of user (add_votes user is os)) ≤ length (votes_of user os) + length is
unfolding add_votes
length-votes_of-add_votes user [] os = omega arith
length-votes_of-add_votes user (id ∷ is) os = omega (
  arith,
  length-votes_of-add_vote user id os,
  length-votes_of-add_votes user is (add_vote user id os),
)

pub has_option-includes :
    (os : List PollOption) (id : String) → has_option os id ≡ includes (ids os) id
has_option-includes [] id = refl
has_option-includes (o ∷ os) id = ap (λ b. o.id == id || b) (has_option-includes os id)

pub includes-votes_of-add_votes :
    (user j : String) (is : List String) (os : List PollOption)
    → includes (votes_of user (add_votes user is os)) j
      ≡ (includes (votes_of user os) j || (includes is j && includes (ids os) j))
unfolding add_votes
includes-votes_of-add_votes user j [] os = ground arith
includes-votes_of-add_votes user j (id ∷ is) os = ground (
  arith,
  includes-votes_of-add_votes user j is (add_vote user id os),
  includes-votes_of-add_vote user id j os,
  ids-add_vote user id os,
  has_option-includes os id,
)
