-- ===== src/Core/Auth.antt =====
-- crates/hub-core/src/auth.rs. A `BTreeSet` is a list that is only tested for membership, a
-- `BTreeMap` an association list.
pub mod Roles
pub mod Access
use agentenv_skills_hub.Common.{
  Bool, true, false, ◌&&◌, ◌||◌, Option, none, some, List, [], ◌∷◌, Result, ok, err, ◌>>◌, any,
  if◌then◌else◌,
}
use agentenv_skills_hub.Common.Text.{Text, text, text_eq}
use agentenv_skills_hub.Core.Error.{HubError, permission_denied, HubResult}
use agentenv_skills_hub.Core.Model.{
  Visibility, public, private, unlisted, NamespaceRole, reader, publisher, admin,
}

abbrev pub RoleMap : Type 0
RoleMap = List (Text × List NamespaceRole)

pub record AuthContext : Type 0 where
  pub subject : Option Text
  pub scopes : List Text
  pub roles : RoleMap

abbrev pub anonymous : AuthContext
anonymous = record { subject = none; scopes = []; roles = [] }

-- `role_map.entry(namespace).or_default().insert(role)`
unfoldable pub insert_role : Text → NamespaceRole → RoleMap → RoleMap
insert_role namespace role [] = (namespace, role ∷ []) ∷ []
insert_role namespace role ((k, rs) ∷ m) =
    if text_eq k namespace then (k, role ∷ rs) ∷ m else (k, rs) ∷ insert_role namespace role m

-- The `for` loop of `new`.
unfoldable pub add_roles : RoleMap → List (Text × NamespaceRole) → RoleMap
unfolding insert_role
add_roles m [] = m
add_roles m ((namespace, role) ∷ rest) = add_roles (insert_role namespace role m) rest

unfoldable pub new : Text → List Text → List (Text × NamespaceRole) → AuthContext
unfolding add_roles
new subject scopes roles = record {
  subject = some subject;
  scopes = scopes;
  roles = add_roles [] roles;
}

-- `roles.get(namespace)`
unfoldable pub get : Text → RoleMap → Option (List NamespaceRole)
get namespace [] = none
get namespace ((k, rs) ∷ m) = if text_eq k namespace then some rs else get namespace m

unfoldable pub role_eq : NamespaceRole → NamespaceRole → Bool
role_eq reader reader = true
role_eq publisher publisher = true
role_eq admin admin = true
role_eq _ _ = false

abbrev pub is_some_and {ℓ} : {A : Type ℓ} → (A → Bool) → Option A → Bool
is_some_and p none = false
is_some_and p (some a) = p a

unfoldable pub has_scope : AuthContext → Text → Bool
unfolding any
has_scope auth scope = any (text_eq scope) auth.scopes

unfoldable pub has_role : AuthContext → Text → List NamespaceRole → Bool
unfolding any get role_eq
has_role auth namespace accepted =
    is_some_and (λ roles. any (λ role. any (role_eq role) roles) accepted)
      (get namespace auth.roles)

unfoldable pub require_scope : AuthContext → Text → Text → Text → HubResult Unit
require_scope auth scope action namespace =
    if has_scope auth scope then ok tt else err (permission_denied action namespace)

unfoldable pub require_role : AuthContext → Text → List NamespaceRole → Text → HubResult Unit
require_role auth namespace roles action =
    if has_role auth namespace roles then ok tt else err (permission_denied action namespace)

abbrev is_public : Visibility → Bool
is_public public = true
is_public _ = false

unfoldable pub can_read : AuthContext → Visibility → Text → HubResult Unit
unfolding require_scope require_role
can_read auth visibility namespace = if is_public visibility then ok tt else do
  require_scope auth (text "skills:read") (text "read") namespace
  require_role auth namespace (reader ∷ publisher ∷ admin ∷ []) (text "read")

unfoldable pub can_publish : AuthContext → Text → HubResult Unit
unfolding require_scope require_role
can_publish auth namespace = do
  require_scope auth (text "skills:publish") (text "publish") namespace
  require_role auth namespace (publisher ∷ admin ∷ []) (text "publish")

unfoldable pub can_yank : AuthContext → Text → HubResult Unit
unfolding require_scope require_role
can_yank auth namespace = do
  require_scope auth (text "skills:yank") (text "yank") namespace
  require_role auth namespace (publisher ∷ admin ∷ []) (text "yank")

unfoldable pub can_manage_webhooks : AuthContext → Text → HubResult Unit
unfolding require_scope require_role
can_manage_webhooks auth namespace = do
  require_scope auth (text "webhooks:admin") (text "manage_webhooks") namespace
  require_role auth namespace (admin ∷ []) (text "manage_webhooks")
