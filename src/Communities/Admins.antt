-- ===== src/Communities/Admins.antt =====
-- Who can manage a community (src/modules/communities/communities.service.ts).
use backend_gateway.Base.{
  ℕ, String, Bool, true, false, some, List, [], ◌∷◌, ◌++◌, map, ◌≡◌, refl, ◌==◌, string_eq, not,
  ◌&&◌, ◌||◌, any, filter, All, arith, Bool-cases, inl, inr, Reply, reply, refuse,
}
use backend_gateway.Communities.Service.{
  member, CommunityMember, Community, is_admin_role, is_admin, is_member, managed, new_members,
  update_community, delete_community, add_members, remove_member, add_group, remove_group,
}

-- A request by a user, but for `updateCommunity`, which may assign any field.
pub data Request : Type 0 where
  deletion : (user : String) → Request
  entries : (now : ℕ) (user : String) → List String → Request
  removal : (user gone : String) → Request
  group : (user id : String) → Request
  group_removal : (user id : String) → Request

abbrev pub answer : Request → Community → Reply Community
answer (deletion user) c = delete_community user (some c)
answer (entries now user ids) c = add_members now user ids (some c)
answer (removal user gone) c = remove_member user gone (some c)
answer (group user id) c = add_group user id (some c)
answer (group_removal user id) c = remove_group user id (some c)

abbrev stored : Community → Reply Community → Community
stored c (reply c') = c'
stored c (refuse e) = c

abbrev pub run : List Request → Community → Community
run [] c = c
run (r ∷ rs) c = run rs (stored c (answer r c))

abbrev has_role : String → CommunityMember → Bool
has_role user m = m.user_id == user && is_admin_role m.role

any-append :
    (p : CommunityMember → Bool) (ms ns : List CommunityMember)
    → any p (ms ++ ns) ≡ (any p ms || any p ns)
any-append p [] ns = refl
any-append p (m ∷ ms) ns = ground (arith, any-append p ms ns)

any-filter :
    (p q : CommunityMember → Bool) (ms : List CommunityMember)
    → any p (filter q ms) ≡ true
    → any p ms ≡ true
any-filter p q [] h = h
any-filter p q (m ∷ ms) h = ground (arith, any-filter p q ms)

any-map_member :
    (now : ℕ) (user : String) (ids : List String)
    → any (has_role user) (map (λ i. record { user_id = i; role = member; joined_at = now }) ids)
      ≡ false
any-map_member now user [] = refl
any-map_member now user (i ∷ ids) = ground (arith, any-map_member now user ids)

is_admin-answer :
    (r : Request) (c : Community) (user : String)
    → is_admin user (stored c (answer r c)) ≡ true
    → is_admin user c ≡ true
unfolding delete_community add_members remove_member add_group remove_group managed
is_admin-answer (deletion u) c user h = ground arith
is_admin-answer (entries now u ids) c user h = ground (
  arith,
  any-append (has_role user) c.members (new_members now ids c),
  any-map_member now user (filter (λ i. not (is_member i c)) ids),
)
is_admin-answer (removal u gone) c user h =
    ground (arith, any-filter (has_role user) (λ m. not (m.user_id == gone)) c.members)
is_admin-answer (group u id) c user h = ground arith
is_admin-answer (group_removal u id) c user h = ground arith

-- No requests but updates of fields make anybody an admin.
pub is_admin-run :
    (rs : List Request) (c : Community) (user : String)
    → is_admin user (run rs c) ≡ true
    → is_admin user c ≡ true
is_admin-run [] c user h = h
is_admin-run (r ∷ rs) c user h =
    is_admin-answer r c user (is_admin-run rs (stored c (answer r c)) user h)

-- Any request, an update of fields by `updateCommunity` included.
pub data Demand : Type 0 where
  fields : (user : String) → (Community → Community) → Demand
  other : Request → Demand

abbrev pub outcome : Demand → Community → Reply Community
outcome (fields user updates) c = update_community user updates (some c)
outcome (other r) c = answer r c

abbrev pub run_all : List Demand → Community → Community
run_all [] c = c
run_all (d ∷ ds) c = run_all ds (stored c (outcome d c))

abbrev pub IsDeletionBy : String → Demand → Type 0
IsDeletionBy creator (other (deletion user)) = user ≡ creator
IsDeletionBy creator d = ⊥

orphaned-outcome :
    (d : Demand) (c : Community)
    → ((user : String) → is_admin user c ≡ false)
    → ¬ (IsDeletionBy c.created_by d)
    → stored c (outcome d c) ≡ c
unfolding update_community delete_community add_members remove_member add_group remove_group managed
orphaned-outcome (fields u updates) c h n = rw (h u) refl
orphaned-outcome (other (deletion u)) c h n = elim (Bool-cases (c.created_by == u)) [
  | inl e ↦ elim (n (ground (arith, e))) [ ]
  | inr e ↦ rw e refl
]
orphaned-outcome (other (entries now u ids)) c h n = rw (h u) refl
orphaned-outcome (other (removal u gone)) c h n = rw (h u) refl
orphaned-outcome (other (group u id)) c h n = rw (h u) refl
orphaned-outcome (other (group_removal u id)) c h n = rw (h u) refl

orphaned-run_all :
    (ds : List Demand) (c : Community)
    → ((user : String) → is_admin user c ≡ false)
    → All (λ d. ¬ (IsDeletionBy c.created_by d)) ds
    → run_all ds c ≡ c
orphaned-run_all [] c h n = refl
orphaned-run_all (d ∷ ds) c h (n, ns) = rw (orphaned-outcome d c h n) (orphaned-run_all ds c h ns)

none_admin-filter :
    (gone user : String) (ms : List CommunityMember)
    → (any (has_role user) ms ≡ true → user ≡ gone)
    → any (has_role user) (filter (λ m. not (m.user_id == gone)) ms) ≡ false
none_admin-filter gone user [] h = refl
none_admin-filter gone user (m ∷ ms) h = ground (arith, h, none_admin-filter gone user ms)

abbrev pub without : String → Community → Community
without user c = record c { members = filter (λ m. not (m.user_id == user)) c.members }

-- The only admin can leave a community, which is then the same without that member. From then on no
-- request changes it but the deletion by its creator, whoever asks: no update of fields, no entry
-- or removal of a member or a group, and no deletion by anybody else.
pub run-remove_member :
    (c : Community) (user : String) (ds : List Demand)
    → is_admin user c ≡ true
    → ((v : String) → is_admin v c ≡ true → v ≡ user)
    → All (λ d. ¬ (IsDeletionBy c.created_by d)) ds
    → (remove_member user user (some c) ≡ reply (without user c))
      × (run_all ds (without user c) ≡ without user c)
unfolding remove_member managed
run-remove_member c user ds a h n = (
  rw a refl,
  orphaned-run_all ds (without user c) (λ v. none_admin-filter user v c.members (h v)) n,
)
