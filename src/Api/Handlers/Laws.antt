-- ===== src/Api/Handlers/Laws.antt =====
-- What a request is read as.
use agentenv_skills_hub.Common.Text.Laws.{strip_prefix-append}
use mathlib.Core.List.{reverse, reverse-append, reverse-reverse}
use agentenv_skills_hub.Core.Auth.Access.{anonymous_access}
use agentenv_skills_hub.Core.Error.{permission_denied}
use agentenv_skills_hub.Core.Auth.{can_yank, can_publish, anonymous}
use agentenv_skills_hub.Common.Text.Splits.{Lacks}
use agentenv_skills_hub.Common.Text.{strip_prefix, strip_suffix, text, Text, text_eq, split_once}
use agentenv_skills_hub.Api.Handlers.{HeaderMap, auth_from_headers, parse_role, artifact_version}
use agentenv_skills_hub.Common.{
  ap, err, ℕ, ◌≡◌, refl, ok, none, some, true, false, arith, ◌++◌, [], ◌∷◌,
}
use agentenv_skills_hub.Core.Model.{public, NamespaceRole, reader, publisher, admin}

abbrev pub role_text : NamespaceRole → Text
role_text reader = text "reader"
role_text publisher = text "publisher"
role_text admin = text "admin"

split_once-append : (d : ℕ) (s t : Text) → Lacks d s → split_once d (s ++ d ∷ t) ≡ some (s, t)
unfolding split_once
split_once-append d [] t h = ground arith
split_once-append d (c ∷ s) t h = ground (arith, split_once-append d s t h.1, h.0)

-- A role that is written as its namespace, a colon and its name is read back, if the namespace has
-- no colon.
pub parse_role-role_text :
    (namespace : Text) (role : NamespaceRole)
    → Lacks b':' namespace
    → parse_role (namespace ++ b':' ∷ role_text role) ≡ ok (namespace, role)
unfolding parse_role text_eq
parse_role-role_text namespace reader h =
    rw (split_once-append b':' namespace (role_text reader) h) refl
parse_role-role_text namespace publisher h =
    rw (split_once-append b':' namespace (role_text publisher) h) refl
parse_role-role_text namespace admin h =
    rw (split_once-append b':' namespace (role_text admin) h) refl

strip_suffix-append : (p s : Text) → strip_suffix p (s ++ p) ≡ some s
unfolding strip_suffix
strip_suffix-append p s =
    rw (reverse-append s p)
      (rw (strip_prefix-append (reverse p) (reverse s)) (ap some (reverse-reverse s)))

not_a_signature : (s : Text) → strip_suffix (text ".tar.zst.sig") (s ++ text ".tar.zst") ≡ none
unfolding strip_suffix strip_prefix
not_a_signature s = rw (reverse-append s (text ".tar.zst")) refl

-- The file names of an artifact and of its signature are read back as the version, whatever text
-- that is.
pub artifact_version-append :
    (version : Text)
    → (artifact_version (version ++ text ".tar.zst") ≡ some (version, false))
      × (artifact_version (version ++ text ".tar.zst.sig") ≡ some (version, true))
unfolding artifact_version
artifact_version-append version = (
  rw (not_a_signature version) (rw (strip_suffix-append (text ".tar.zst") version) refl),
  rw (strip_suffix-append (text ".tar.zst.sig") version) refl,
)

-- A request without a subject is anonymous, and may neither publish nor yank, whatever other headers
-- it has.
pub auth_from_headers-anonymous :
    (headers : HeaderMap) (namespace : Text)
    → headers (text "x-agentenv-subject") ≡ none
    → (auth_from_headers headers ≡ ok anonymous)
      × (can_publish anonymous namespace ≡ err (permission_denied (text "publish") namespace))
      × (can_yank anonymous namespace ≡ err (permission_denied (text "yank") namespace))
unfolding auth_from_headers
auth_from_headers-anonymous headers namespace h =
    let (_, p, y, _) = anonymous_access namespace public in (rw h refl, p, y)
