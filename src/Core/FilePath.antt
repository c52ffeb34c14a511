-- ===== src/Core/FilePath.antt =====
-- `std::path` on Unix, as far as crates/hub-core/src/validation.rs uses it.
use agentenv_skills_hub.Common.{Bool, false, List, [], ◌∷◌, ◌++◌, if◌then◌else◌, ◌==◌}
use agentenv_skills_hub.Common.Text.{Text, text, text_eq, split}

-- `Component`; on Unix no path has a `Prefix`.
pub data Component : Type 0 where
  root_dir cur_dir parent_dir : Component
  normal : Text → Component

-- One part between separators: empty parts and `.` are skipped.
unfoldable pub part_components : Text → List Component
part_components part =
    if text_eq part (text "")
    then []
    else if text_eq part (text ".")
    then []
    else if text_eq part (text "..")
    then parent_dir ∷ []
    else normal part ∷ []

unfoldable pub parts_components : List Text → List Component
unfolding part_components
parts_components [] = []
parts_components (part ∷ parts) = part_components part ++ parts_components parts

-- The root, or a leading `.`.
unfoldable pub leading : Text → List Text → List Component
leading (c ∷ s) (part ∷ parts) =
    if c == b'/' then root_dir ∷ [] else if text_eq part (text ".") then cur_dir ∷ [] else []
leading _ _ = []

-- `Path::components`
unfoldable pub components : Text → List Component
unfolding leading parts_components split
components path = leading path (split b'/' path) ++ parts_components (split b'/' path)

abbrev pub ends_with_slash : Text → Bool
ends_with_slash [] = false
ends_with_slash (c ∷ []) = c == b'/'
ends_with_slash (c ∷ d ∷ s) = ends_with_slash (d ∷ s)

abbrev pub is_absolute : Text → Bool
is_absolute [] = false
is_absolute (c ∷ s) = c == b'/'

-- `PathBuf::push`
unfoldable pub push : Text → Text → Text
push path part =
    if is_absolute part
    then part
    else if text_eq path (text "")
    then part
    else if ends_with_slash path
    then path ++ part
    else path ++ (b'/' ∷ part)
