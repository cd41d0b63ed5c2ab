-- ===== src/Intake.antt =====
-- internal/service/validate.go, with domain/tag.go and projectFileName of task_service.go: the check
-- that a task passes on its way into the vault. `trim` is strings.TrimSpace. A text is read byte by
-- byte: the characters that are looked for are ASCII.
pub mod Accepted
use qi.Base.{
  ℕ, Text, codes, Bool, true, false, ◌&&◌, ◌||◌, not, ◌==◌, nat_eq, ltb, leb, Option, none, some,
  [], ◌∷◌, ◌++◌, if◌then◌else◌,
}

pub data InputError : Type 0 where
  empty_text control_characters project_and_client : InputError
  invalid_project numeric_project unknown_client : Text → InputError

unfoldable pub has_control_char : Text → Bool
has_control_char [] = false
has_control_char (c ∷ s) = (ltb c 32 || nat_eq c 127) || has_control_char s

abbrev pub is_digit : ℕ → Bool
is_digit c = leb 48 c && leb c 57

abbrev pub is_letter : ℕ → Bool
is_letter c = (leb 65 c && leb c 90) || (leb 97 c && leb c 122)

-- [A-Za-z0-9_\-/]
unfoldable pub is_tag_char : ℕ → Bool
is_tag_char c = is_letter c || is_digit c || nat_eq c 95 || nat_eq c 45 || nat_eq c 47

unfoldable pub all_tag_chars : Text → Bool
unfolding is_tag_char
all_tag_chars [] = true
all_tag_chars (c ∷ s) = is_tag_char c && all_tag_chars s

-- projectTagRe
unfoldable pub matches_project_tag : Text → Bool
unfolding all_tag_chars
matches_project_tag s = not (s == []) && all_tag_chars s

unfoldable pub all_digits : Text → Bool
all_digits [] = true
all_digits (c ∷ s) = is_digit c && all_digits s

unfoldable pub is_numeric_tag : Text → Bool
unfolding all_digits
is_numeric_tag s = if s == [] then false else all_digits s

unfoldable pub has_non_digit : Text → Bool
has_non_digit [] = false
has_non_digit (c ∷ s) = not (is_digit c) || has_non_digit s

-- The language of TagBodyPattern: tag characters, one of them no digit.
unfoldable pub is_tag : Text → Bool
unfolding all_tag_chars has_non_digit
is_tag s = all_tag_chars s && has_non_digit s

-- strings.ReplaceAll(project, "/", "-")
unfoldable pub flatten : Text → Text
flatten [] = []
flatten (c ∷ s) = (if nat_eq c 47 then 45 else c) ∷ flatten s

unfoldable pub project_file_name : Text → Text
unfolding flatten
project_file_name project = flatten project ++ codes ".md"

-- After the trimming: `none` is a nil error.
unfoldable pub check_routing : Text → Text → Option (Text → Bool) → Option InputError
unfolding matches_project_tag is_numeric_tag
check_routing project client is_client =
    if not (project == []) && not (client == [])
    then some project_and_client
    else if not (project == []) && not (matches_project_tag project)
    then some (invalid_project project)
    else if not (project == []) && is_numeric_tag project
    then some (numeric_project project)
    else if client == []
    then none
    else elim is_client [
      | none ↦ some (unknown_client client)
      | some f ↦ if f client then none else some (unknown_client client)
    ]

unfoldable pub validate_add_input :
    (Text → Text) → Text → Text → Text → Option (Text → Bool) → Option InputError
unfolding has_control_char check_routing
validate_add_input trim text project client is_client =
    if trim text == []
    then some empty_text
    else if has_control_char text
    then some control_characters
    else check_routing (trim project) (trim client) is_client
