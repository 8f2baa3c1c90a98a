-- ===== src/Conversations/Tests.antt =====
-- Conversations at concrete inputs, and the theorems applied there.
use native.Mathlib.Decide.{ℕ_discrete}
use backend_gateway.Base.{
  String, String_discrete, string_eq, nat_eq, false, none, List, [], ◌∷◌, ◌≡◌, refl, get, put,
  delete, reply, refuse, forbidden, arith, inr,
}
use backend_gateway.Conversations.Document.{single, Conversation, Updates, add_to_participants}
use backend_gateway.Conversations.Service.{
  create_group_conversation, unique, find_by_id, commit, is_participant, new_participant,
  add_participants, remove_participant, update_conversation, delete_conversation, member_allowed,
  pin_unless_pinned, pin_message, unpin_message, get_pinned_messages,
  set_disappearing_messages_timer,
}
use backend_gateway.Conversations.Memory.{Store, in_memory}
use backend_gateway.Conversations.Members.{
  IsRefused, strangers-IsRefused, add_participants-remove_participant,
}
use backend_gateway.Conversations.Pins.{pin, run, AllBounded, run-AllBounded}
use backend_gateway.Conversations.Creation.{members}

program : Unit {0}
unfolding String_discrete ℕ_discrete get put delete unique create_group_conversation find_by_id
    commit add_participants remove_participant update_conversation delete_conversation
    member_allowed pin_unless_pinned pin_message unpin_message get_pinned_messages
    set_disappearing_messages_timer
program = tt

abbrev ann : String
ann = "ann"

abbrev ids : List String
ids = "bob" ∷ "ann" ∷ "cid" ∷ "bob" ∷ []

abbrev team : Conversation
team = create_group_conversation "ann" "Team" ids none

abbrev pair : Conversation
pair = record team { kind = single; admins = []; name = none }

abbrev store : Store
store = ("t", team) ∷ ("p", pair) ∷ []

abbrev pinned : Conversation
pinned = record team { pinned_messages = "m" ∷ [] }

team_members : members team.participants ≡ "ann" ∷ "bob" ∷ "cid" ∷ []
unfolding program
team_members = refl

pinned_test : (pin_message in_memory "t" "ann" "m" store).1 ≡ reply pinned
unfolding program
pinned_test = refl

bob_may_not_pin :
    pin_message in_memory "t" "bob" "m" store
    ≡ (store, refuse (forbidden "Only admins can pin messages in group conversations"))
unfolding program
bob_may_not_pin = refl

abbrev pinned_store : Store
pinned_store = ("t", pinned) ∷ []

unpinned_test : (unpin_message in_memory "t" "ann" "m" pinned_store).1 ≡ reply team
unfolding program
unpinned_test = refl

strangers-IsRefused_example :
    IsRefused in_memory store (pin_message in_memory "t" "bob" "m" store)
    × IsRefused in_memory store (unpin_message in_memory "t" "bob" "m" store)
    × IsRefused in_memory store (set_disappearing_messages_timer in_memory "t" "bob" 0 store)
unfolding program
strangers-IsRefused_example = strangers-IsRefused in_memory "t" "bob" "m" 0 store (inr refl)

team-AllBounded : AllBounded in_memory (("t", team) ∷ [])
unfolding program
team-AllBounded id c h = ground arith

run-AllBounded_example : AllBounded in_memory (run in_memory (pin "t" "ann" "m") (("t", team) ∷ []))
run-AllBounded_example =
    run-AllBounded in_memory (pin "t" "ann" "m") (("t", team) ∷ []) tt team-AllBounded

abbrev two_admins : Conversation
two_admins = record team { admins = "ann" ∷ "bob" ∷ [] }

abbrev removed : Conversation
removed = record two_admins { participants = new_participant "ann" ∷ new_participant "cid" ∷ [] }

abbrev dan : List String
dan = "dan" ∷ []

abbrev admin_store : Store
admin_store = ("t", two_admins) ∷ []

add_participants-remove_participant_example :
    (is_participant "bob" removed ≡ false)
    × ((add_participants in_memory "t" "bob" dan
          (remove_participant in_memory "t" "ann" "bob" admin_store).0).0
        ≡ in_memory.update "t"
            (add_to_participants dan)
            (remove_participant in_memory "t" "ann" "bob" admin_store).0)
unfolding program
add_participants-remove_participant_example =
    add_participants-remove_participant in_memory "t" "ann" "bob" dan admin_store two_admins removed
      refl refl refl

abbrev nothing : Updates
nothing = record {
  kind = none;
  name = none;
  avatar = none;
  created_by = none;
  last_message = none;
  is_locked = none;
  description = none;
  participants = none;
  admins = none;
  is_archived = none;
  pinned_messages = none;
  disappearing_messages_timer = none;
}
