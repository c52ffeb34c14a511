-- ===== src/Core/Auth/Access.antt =====
-- What the four authorization checks decide.
use agentenv_skills_hub.Common.{
  ◌&&◌, ◌≡◌, refl, ◌↔◌, List, [], ◌∷◌, any, arith, ok, err, if◌then◌else◌,
}
use agentenv_skills_hub.Common.Text.{Text, text, text_eq}
use agentenv_skills_hub.Core.Error.{permission_denied, HubResult}
use agentenv_skills_hub.Core.Model.{
  Visibility, public, private, unlisted, NamespaceRole, reader, publisher, admin,
}
use agentenv_skills_hub.Core.Auth.{
  anonymous, new, has_scope, can_read, can_publish, can_yank, can_manage_webhooks,
}
use agentenv_skills_hub.Core.Auth.Roles.{granted, has_role-new}

-- The decision that a scope and a set of roles call for.
abbrev pub decide :
    Text
    → Text
    → List NamespaceRole
    → Text
    → List Text
    → List (Text × NamespaceRole)
    → HubResult Unit
decide scope action accepted namespace scopes roles =
    if any (text_eq scope) scopes && granted namespace accepted roles
    then ok tt
    else err (permission_denied action namespace)

has_scope-new :
    (scope subject : Text) (scopes : List Text) (roles : List (Text × NamespaceRole))
    → has_scope (new subject scopes roles) scope ≡ any (text_eq scope) scopes
unfolding has_scope new
has_scope-new scope subject scopes roles = refl

module _ (namespace : Text) (subject : Text) (scopes : List Text)
    (roles : List (Text × NamespaceRole)) (v : Visibility) where
  -- For a context made from a list of scopes and a list of role pairs, each check succeeds exactly
  -- if its scope is listed and the list has a pair of this namespace with one of its roles, and
  -- otherwise denies with its own action and namespace. A public skill is readable by everybody.
  pub access_decisions :
      (can_publish (new subject scopes roles) namespace
        ≡ decide
            (text "skills:publish")
            (text "publish")
            (publisher ∷ admin ∷ [])
            namespace
            scopes
            roles)
      × (can_yank (new subject scopes roles) namespace
          ≡ decide
              (text "skills:yank")
              (text "yank")
              (publisher ∷ admin ∷ [])
              namespace
              scopes
              roles)
      × (can_manage_webhooks (new subject scopes roles) namespace
          ≡ decide
              (text "webhooks:admin")
              (text "manage_webhooks")
              (admin ∷ [])
              namespace
              scopes
              roles)
      × (can_read (new subject scopes roles) v namespace ≡ (elim v [
        | public ↦ ok tt
        | _ ↦
            decide
              (text "skills:read")
              (text "read")
              (reader ∷ publisher ∷ admin ∷ [])
              namespace
              scopes
              roles
      ]))
  unfolding can_publish can_yank can_manage_webhooks can_read
  access_decisions = (
    simp (has_scope-new, has_role-new) (ground arith),
    simp (has_scope-new, has_role-new) (ground arith),
    simp (has_scope-new, has_role-new) (ground arith),
    simp (has_scope-new, has_role-new) (ground arith),
  )

-- An anonymous caller reads public skills and is denied everything else.
pub anonymous_access :
    (namespace : Text) (v : Visibility)
    → ((can_read anonymous v namespace ≡ ok tt) ↔ (v ≡ public))
      × (can_publish anonymous namespace ≡ err (permission_denied (text "publish") namespace))
      × (can_yank anonymous namespace ≡ err (permission_denied (text "yank") namespace))
      × (can_manage_webhooks anonymous namespace
          ≡ err (permission_denied (text "manage_webhooks") namespace))
unfolding can_publish can_yank can_manage_webhooks can_read has_scope any
anonymous_access namespace public = ((λ _. refl, λ _. refl), refl, refl, refl)
anonymous_access namespace private = ((λ e. cc, λ e. cc), refl, refl, refl)
anonymous_access namespace unlisted = ((λ e. cc, λ e. cc), refl, refl, refl)
