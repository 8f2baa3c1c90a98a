-- ===== src/Communities/Service.antt =====
-- src/modules/communities: the schema and the service. A method takes the document that the driver
-- finds, or `none`, and gives the one that is stored after it.
use backend_gateway.Base.{
  ℕ, String, Bool, true, false, Option, none, List, [], ◌∷◌, ◌++◌, map, ◌==◌, string_eq,
  if◌then◌else◌, not, ◌&&◌, any, filter, includes, Collection, Reply, reply, require, existing,
  not_found, forbidden, ◌>>=◌, ◌>>◌,
}

pub data Role : Type 0 where
  admin member : Role

pub record CommunityMember : Type 0 where
  pub user_id : String
  pub role : Role
  pub joined_at : ℕ

pub record Community : Type 0 where
  pub name : String
  pub description : Option String
  pub avatar : Option String
  pub created_by : String
  pub members : List CommunityMember
  pub groups : List String
  pub announcement_group_id : Option String
  pub is_active : Bool
  pub created_at : ℕ

abbrev pub is_admin_role : Role → Bool
is_admin_role admin = true
is_admin_role member = false

abbrev pub is_admin : String → Community → Bool
is_admin user c = any (λ m. m.user_id == user && is_admin_role m.role) c.members

abbrev pub is_member : String → Community → Bool
is_member user c = any (λ m. m.user_id == user) c.members

unfoldable pub create_community : ℕ → String → String → Option String → Option String → Community
create_community now user name description avatar = record {
  name = name;
  description = description;
  avatar = avatar;
  created_by = user;
  members = (record { user_id = user; role = admin; joined_at = now }) ∷ [];
  groups = [];
  announcement_group_id = none;
  is_active = true;
  created_at = now;
}

unfoldable pub get_user_communities :
    {S : Type 0} → Collection Community S → String → S → List Community
get_user_communities d user s =
    d.find_sorted (λ c. is_member user c && c.is_active) (λ c. c.created_at) s

-- `shown` is what `toString` gives for the id of a member, which the query populates.
unfoldable pub get_community : (String → String) → String → Option Community → Reply Community
get_community shown user found = do
  c ← existing found (not_found "Community not found")
  require (any (λ m. shown m.user_id == user) c.members)
      (forbidden "You are not a member of this community")
  reply c

-- The community, for an admin.
unfoldable pub managed : String → String → Option Community → Reply Community
managed message user found = do
  c ← existing found (not_found "Community not found")
  require (is_admin user c) (forbidden message)
  reply c

-- `Object.assign` of any fields.
unfoldable pub update_community :
    String → (Community → Community) → Option Community → Reply Community
unfolding managed
update_community user updates found = do
  c ← managed "Only admins can update the community" user found
  reply (updates c)

unfoldable pub delete_community : String → Option Community → Reply Community
delete_community user found = do
  c ← existing found (not_found "Community not found")
  require (c.created_by == user) (forbidden "Only the creator can delete the community")
  reply (record c { is_active = false })

abbrev pub new_members : ℕ → List String → Community → List CommunityMember
new_members now ids c =
    map (λ i. record { user_id = i; role = member; joined_at = now })
      (filter (λ i. not (is_member i c)) ids)

unfoldable pub add_members : ℕ → String → List String → Option Community → Reply Community
unfolding managed
add_members now user ids found = do
  c ← managed "Only admins can add members" user found
  reply (record c { members = c.members ++ new_members now ids c })

unfoldable pub remove_member : String → String → Option Community → Reply Community
unfolding managed
remove_member user gone found = do
  c ← managed "Only admins can remove members" user found
  reply (record c { members = filter (λ m. not (m.user_id == gone)) c.members })

unfoldable pub add_group : String → String → Option Community → Reply Community
unfolding managed
add_group user group found = do
  c ← managed "Only admins can add groups" user found
  reply (if includes c.groups group then c else record c { groups = c.groups ++ group ∷ [] })

unfoldable pub remove_group : String → String → Option Community → Reply Community
unfolding managed
remove_group user group found = do
  c ← managed "Only admins can remove groups" user found
  reply (record c { groups = filter (λ g. not (g == group)) c.groups })
