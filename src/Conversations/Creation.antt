-- ===== src/Conversations/Creation.antt =====
-- New conversations (src/modules/conversations/conversations.service.ts).
use backend_gateway.Base.{
  String, Bool, false, Option, List, [], ◌∷◌, ◌≡◌, refl, sym, ap, ◌∙◌, subst, ◌==◌, string_eq,
  includes, IsDistinct, filter, map, not, ◌||◌, ◌&&◌, arith, ==_refl,
}
use backend_gateway.Conversations.Document.{ConversationParticipant}
use backend_gateway.Conversations.Service.{
  unique, new_participant, create_group_conversation, lacks_admin,
}

abbrev pub members : List ConversationParticipant → List String
members ps = map (λ p. p.user_id) ps

members-new_participant : (us : List String) → members (map new_participant us) ≡ us
members-new_participant [] = refl
members-new_participant (u ∷ us) = rw (members-new_participant us) refl

includes-filter_others :
    (v u : String) (us : List String)
    → includes (filter (λ w. not (w == v)) us) u ≡ (includes us u && not (v == u))
includes-filter_others v u [] = refl
includes-filter_others v u (w ∷ us) = ground (arith, includes-filter_others v u us)

includes-filter_none :
    (p : String → Bool) (u : String) (us : List String)
    → includes us u ≡ false
    → includes (filter p us) u ≡ false
includes-filter_none p u [] h = refl
includes-filter_none p u (v ∷ us) h = ground (arith, includes-filter_none p u us)

filter-IsDistinct :
    (p : String → Bool) (us : List String) → IsDistinct us → IsDistinct (filter p us)
filter-IsDistinct p [] h = tt
filter-IsDistinct p (u ∷ us) h = ground (arith, filter-IsDistinct p us, includes-filter_none p u us)

includes-unique : (us : List String) (u : String) → includes (unique us) u ≡ includes us u
unfolding unique
includes-unique [] u = refl
includes-unique (v ∷ us) u =
    ground (arith, includes-filter_others v u (unique us), includes-unique us u)

unique-IsDistinct : (us : List String) → IsDistinct (unique us)
unfolding unique
unique-IsDistinct [] = tt
unique-IsDistinct (u ∷ us) = (
  ground (arith, includes-filter_others u u (unique us), ==_refl u),
  filter-IsDistinct (λ v. not (v == u)) (unique us) (unique-IsDistinct us),
)

members-group :
    (creator name : String) (ids : List String) (description : Option String)
    → members (create_group_conversation creator name ids description).participants
      ≡ unique (creator ∷ ids)
unfolding create_group_conversation
members-group creator name ids description = members-new_participant (unique (creator ∷ ids))

-- The participants of a new group are the creator and the given users, nobody twice, and its creator
-- is the one user who does not lack the rights of an admin.
pub create_group_conversation_lem :
    (creator name u : String) (ids : List String) (description : Option String)
    → IsDistinct (members (create_group_conversation creator name ids description).participants)
      × (includes (members (create_group_conversation creator name ids description).participants) u
          ≡ (creator == u || includes ids u))
      × (lacks_admin u (create_group_conversation creator name ids description)
          ≡ not (creator == u))
unfolding create_group_conversation
create_group_conversation_lem creator name u ids description = (
  subst IsDistinct (sym (members-group creator name ids description))
      (unique-IsDistinct (creator ∷ ids)),
  ap (λ us. includes us u) (members-group creator name ids description)
      ∙ includes-unique (creator ∷ ids) u,
  ground arith,
)
