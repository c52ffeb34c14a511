-- ===== src/Core/Auth/Roles.antt =====
-- The role map that `new` builds answers as the given list of pairs does.
use agentenv_skills_hub.Common.{Bool, false, ◌&&◌, ◌||◌, ◌≡◌, refl, List, [], ◌∷◌, any, arith}
use agentenv_skills_hub.Common.Text.{Text, text_eq}
use agentenv_skills_hub.Common.Text.Laws.{text_eq_iff}
use agentenv_skills_hub.Core.Model.{NamespaceRole}
use agentenv_skills_hub.Core.Auth.{
  RoleMap, insert_role, add_roles, new, get, role_eq, is_some_and, has_role,
}

-- Some pair of the list is for the namespace, with an accepted role.
abbrev grants : Text → List NamespaceRole → Text × NamespaceRole → Bool
grants namespace accepted (n, r) = text_eq n namespace && any (λ a. role_eq a r) accepted

unfoldable pub granted : Text → List NamespaceRole → List (Text × NamespaceRole) → Bool
unfolding any role_eq
granted namespace accepted roles = any (grants namespace accepted) roles

abbrev held : Text → List NamespaceRole → RoleMap → Bool
held namespace accepted m =
    is_some_and (λ roles. any (λ role. any (role_eq role) roles) accepted) (get namespace m)

any-or {ℓ} :
    {A : Type ℓ} (p q : A → Bool) (xs : List A) → any (λ x. p x || q x) xs ≡ (any p xs || any q xs)
unfolding any
any-or p q [] = refl
any-or p q (x ∷ xs) = ground (arith, any-or p q xs)

any_none : (xs : List NamespaceRole) → any (λ a. any (role_eq a) []) xs ≡ false
unfolding any
any_none [] = refl
any_none (x ∷ xs) = any_none xs

any_role_cons :
    (accepted : List NamespaceRole) (r : NamespaceRole) (rs : List NamespaceRole)
    → any (λ a. any (role_eq a) (r ∷ rs)) accepted
      ≡ (any (λ a. role_eq a r) accepted || any (λ a. any (role_eq a) rs) accepted)
unfolding any
any_role_cons accepted r rs = any-or (λ a. role_eq a r) (λ a. any (role_eq a) rs) accepted

module _ (namespace : Text) (accepted : List NamespaceRole) where
  held-insert_role :
      (n : Text) (r : NamespaceRole) (m : RoleMap)
      → held namespace accepted (insert_role n r m)
        ≡ (grants namespace accepted (n, r) || held namespace accepted m)
  unfolding insert_role get
  held-insert_role n r [] = ground (arith, any_role_cons accepted r [], any_none accepted)
  held-insert_role n r ((k, rs) ∷ m) = ground (
    arith,
    held-insert_role n r m,
    any_role_cons accepted r rs,
    text_eq_iff k n,
    text_eq_iff k namespace,
    text_eq_iff n namespace,
  )

  held-add_roles :
      (m : RoleMap) (roles : List (Text × NamespaceRole))
      → held namespace accepted (add_roles m roles)
        ≡ (held namespace accepted m || any (grants namespace accepted) roles)
  unfolding add_roles any
  held-add_roles m [] = ground arith
  held-add_roles m ((n, r) ∷ rest) =
      ground (arith, held-add_roles (insert_role n r m) rest, held-insert_role n r m)

  -- A context made from a list of roles holds an accepted role in a namespace exactly if the list
  -- has a pair of that namespace with an accepted role, in whatever order and however often.
  pub has_role-new :
      (subject : Text) (scopes : List Text) (roles : List (Text × NamespaceRole))
      → has_role (new subject scopes roles) namespace accepted ≡ granted namespace accepted roles
  unfolding has_role new granted
  has_role-new subject scopes roles = held-add_roles [] roles
