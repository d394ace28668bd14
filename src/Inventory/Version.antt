-- ===== src/Inventory/Version.antt =====
-- internal/inventory/inventory.go: cleanVersion.
use quantum_control.Prelude.{
  Bool, false, ◌||◌, Option, none, some, List, [], ◌∷◌, ltb, if◌then◌else◌, length, take,
}
use quantum_control.Text.{Text, text, ◌==◌}
use quantum_control.Text.Trim.{trim_space}
use quantum_control.Text.Case.{to_lower}
use quantum_control.Text.Prefix.{strip_prefix}
use quantum_control.Security.Redact.{contains_text, has_control}

abbrev forbidden_words : List Text
forbidden_words = text "password" ∷ text "token" ∷ text "secret" ∷ text "credential" ∷ []

unfoldable pub mentions : List Text → Text → Bool
mentions [] t = false
mentions (word ∷ words) t = contains_text word t || mentions words t

abbrev without_prefix : Text → Option Text → Text
without_prefix version none = version
without_prefix version (some rest) = rest

-- What is left of a text without a version number.
unfoldable pub clean_text : Text → Text
clean_text value =
    let short = if ltb 128 (length value) then take 128 value else value in
    if has_control short
    then []
    else if mentions forbidden_words (to_lower short)
    then []
    else short

-- cleanVersion. `find` gives the first group of the first match of versionPattern.
unfoldable pub clean_version : (Text → Option Text) → Text → Text
clean_version find raw =
    let value = trim_space raw in
    if value == [] then [] else elim (find value) [
      | some version ↦ without_prefix version (strip_prefix (text "v") version)
      | none ↦ clean_text value
    ]
