-- ===== src/Calls/Updates.antt =====
-- Updates of a stored call, and the history (src/modules/calls/calls.service.ts).
use backend_gateway.Base.{
  ℕ, String, Bool, true, false, Option, none, some, List, [], ◌∷◌, ◌≡◌, ◌⊎◌, refl, string_eq, arith,
  reply, refuse, not_found, filter, filter_comm, not,
}
use backend_gateway.Calls.Document.{ongoing, Call, UpdateCall, Updated}
use backend_gateway.Calls.Service.{
  update, join_call, leave_call, find_all, delete_call_history, involves,
}

-- The duration that is stored: the one that is asked for, else the elapsed one.
abbrev asked_or : Option ℕ → ℕ → ℕ
asked_or none d = d
asked_or (some a) d = a

-- An update of a known call that does not end it neither ends it nor announces anything.
pub update_open :
    (is_object_id : String → Bool) (print : ℕ → String) (now : ℕ) (id : String) (c : Call)
    (dto : UpdateCall) (u : Updated)
    → (dto.status ≡ none) ⊎ (dto.status ≡ some ongoing)
    → update is_object_id print now id (some c) dto ≡ reply (some u)
    → (u.message ≡ none)
      × (u.call.ended_at ≡ c.ended_at)
      × (u.call.duration ≡ asked_or dto.duration c.duration)
unfolding update
update_open is_object_id print now id c dto u same h = ground arith

-- An id that is no ObjectId, such as a call id of the gateway, is passed over by every change, found
-- or not: nothing is saved, and nothing is thrown. With an ObjectId of no call each change is refused.
pub changes_skip :
    (is_object_id : String → Bool) (print : ℕ → String) (now : ℕ) (id user : String)
    (found : Option Call) (dto : UpdateCall)
    → (is_object_id id ≡ false
        → (update is_object_id print now id found dto ≡ reply none)
          × (join_call is_object_id now id found user ≡ reply none)
          × (leave_call is_object_id now id found user ≡ reply none))
      × (is_object_id id ≡ true
          → (update is_object_id print now id none dto ≡ refuse (not_found "Call not found"))
            × (join_call is_object_id now id none user ≡ refuse (not_found "Call not found"))
            × (leave_call is_object_id now id none user ≡ refuse (not_found "Call not found")))
unfolding update join_call leave_call
changes_skip is_object_id print now id user found dto = (
  λ h. (ground arith, ground arith, ground arith),
  λ h. (ground arith, ground arith, ground arith),
)

-- After a user's history is deleted it finds no call, and another user finds the calls that it
-- found before, without those of the first.
pub find_all-delete_call_history :
    (user v : String) (calls : List Call)
    → (find_all user (delete_call_history user calls) ≡ [])
      × (find_all v (delete_call_history user calls)
          ≡ filter (λ c. not (involves user c)) (find_all v calls))
unfolding find_all delete_call_history
find_all-delete_call_history user v calls =
    (gone calls, filter_comm (involves v) (λ c. not (involves user c)) calls)
  where
    gone :
        (calls : List Call)
        → filter (involves user) (filter (λ c. not (involves user c)) calls) ≡ []
    gone [] = refl
    gone (c ∷ cs) = ground (arith, gone cs)
