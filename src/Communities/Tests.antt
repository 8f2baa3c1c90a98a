-- ===== src/Communities/Tests.antt =====
-- Communities at concrete inputs, and the theorems applied there.
use backend_gateway.Base.{
  String_discrete, ne_of_test, reply, true, none, some, List, [], ◌∷◌, ◌≡◌, refl, string_eq, arith,
}
use backend_gateway.Communities.Service.{
  Community, admin, is_admin, managed, create_community, add_members, remove_member, add_group,
  remove_group, delete_community, update_community,
}
use backend_gateway.Communities.Admins.{
  Request, Demand, fields, other, deletion, run_all, entries, group, is_admin-run,
  run-remove_member,
}

program : Unit {0}
unfolding String_discrete managed create_community add_members remove_member add_group remove_group
    delete_community update_community
program = tt

abbrev start : Community
start = record {
  name = "club";
  description = none;
  avatar = none;
  created_by = "ann";
  members = (record { user_id = "ann"; role = admin; joined_at = 0 }) ∷ [];
  groups = [];
  announcement_group_id = none;
  is_active = true;
  created_at = 0;
}

created : create_community 0 "ann" "club" none none ≡ start
unfolding program
created = refl

abbrev requests : List Request
requests = entries 1 "ann" ("bob" ∷ []) ∷ group "ann" "g1" ∷ []

is_admin-run_example : is_admin "ann" start ≡ true
unfolding program
is_admin-run_example = is_admin-run requests start "ann" refl

abbrev left_alone : Community
left_alone = record start { members = [] }

-- Bob tries to update and to delete it, ann to add a group.
abbrev demands : List Demand
demands =
    fields "bob" (λ c. record c { name = "new" })
    ∷ other (deletion "bob")
    ∷ other (group "ann" "g1")
    ∷ []

run-remove_member_example :
    (remove_member "ann" "ann" (some start) ≡ reply left_alone)
    × (run_all demands left_alone ≡ left_alone)
unfolding program
run-remove_member_example =
    run-remove_member start "ann" demands refl (λ v h. ground arith)
      ((λ e. e), (ne_of_test "bob" "ann" refl, ((λ e. e), tt)))
