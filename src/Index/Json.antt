-- ===== src/Index/Json.antt =====
-- The manifest as JSON: `derive(Serialize)` of `SkillManifest` in crates/hub-core/src/model.rs, and
-- the operator `->>` of the queries.
use agentenv_skills_hub.Common.{Option, none, some, List, [], ◌∷◌, ◌≡◌, refl, if◌then◌else◌}
use agentenv_skills_hub.Common.Text.{Text, text, text_eq}
use agentenv_skills_hub.Core.Model.{
  Value, null, string, array, object, Values, nil, cons, Fields, end, field, SkillManifest,
}

abbrev optional_string : Option Text → Value
optional_string none = null
optional_string (some s) = string s

abbrev strings : List Text → Values
strings [] = nil
strings (s ∷ ss) = cons (string s) (strings ss)

-- `serde_json::to_value(&request.manifest)`; serializing a struct of strings does not fail.
unfoldable pub manifest_value : SkillManifest → Value
manifest_value m = object (
    field (text "name") (string m.name) (
      field (text "version") (string m.version) (
        field (text "description") (optional_string m.description) (
          field (text "entry") (string m.entry)
            (field (text "files") (array (strings m.files)) end)))))

unfoldable pub get_field : Text → Fields → Option Value
get_field key end = none
get_field key (field k v fs) = if text_eq k key then some v else get_field key fs

-- `->>` where the field is a string or null, which are all that the program stores there.
abbrev text_of : Option Value → Option Text
text_of (some (string s)) = some s
text_of _ = none

unfoldable pub get_text : Text → Value → Option Text
unfolding get_field
get_text key (object fs) = text_of (get_field key fs)
get_text key _ = none

pub get_text-manifest_value :
    (m : SkillManifest) → get_text (text "description") (manifest_value m) ≡ m.description
unfolding get_text manifest_value text_eq
get_text-manifest_value m = description_text m.description
  where
    description_text : (o : Option Text) → text_of (some (optional_string o)) ≡ o
    description_text none = refl
    description_text (some s) = refl
