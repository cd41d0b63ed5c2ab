-- ===== src/Intake/Accepted.antt =====
-- Tasks that ValidateAddInput accepts, and the files of their projects.
use qi.Base.{
  has_byte, has_byte-append, Text, codes, Bool, true, false, not, ◌==◌, Option, none, some, [], ◌∷◌,
  ◌++◌, ◌≡◌, ◌⊎◌, refl, arith, Bool-cases, Option-cases, inl, inr,
}
use qi.Intake.{
  is_tag_char, all_tag_chars, matches_project_tag, all_digits, is_numeric_tag, has_non_digit,
  is_tag, has_control_char, flatten, project_file_name, check_routing, validate_add_input,
}

all_digits-has_non_digit : (s : Text) → not (all_digits s) ≡ has_non_digit s
unfolding all_digits has_non_digit
all_digits-has_non_digit [] = refl
all_digits-has_non_digit (c ∷ s) = ground (arith, all_digits-has_non_digit s)

-- The regular expression and the test for digits together are the tags that the parsers accept.
valid_project :
    (s : Text) → matches_project_tag s ≡ true → is_numeric_tag s ≡ false → is_tag s ≡ true
unfolding matches_project_tag is_numeric_tag is_tag
valid_project s m n = ground (arith, all_digits-has_non_digit s)

has_byte-flatten : (s : Text) → has_byte 47 (flatten s) ≡ false
unfolding has_byte flatten
has_byte-flatten [] = refl
has_byte-flatten (c ∷ s) = ground (arith, has_byte-flatten s)

no_slash : has_byte 47 (codes ".md") ≡ false
unfolding has_byte
no_slash = refl

no_dot : (s : Text) → all_tag_chars s ≡ true → has_byte 46 (flatten s) ≡ false
unfolding has_byte flatten all_tag_chars is_tag_char
no_dot [] h = refl
no_dot (c ∷ s) h = ground (arith, no_dot s)

-- What is known of routing that was accepted.
pub record IsRouted (project client : Text) (is_client : Option (Text → Bool)) : Type 0 where
  pub one : (project ≡ []) ⊎ (client ≡ [])
  pub project_tag : (project ≡ []) ⊎ (is_tag project ≡ true)
  pub known : (client ≡ []) ⊎ ((f : Text → Bool) × (is_client ≡ some f) × (f client ≡ true))

eq_nil : (s : Text) → (s == []) ≡ true → s ≡ []
unfolding ◌==◌
eq_nil [] h = refl
eq_nil (c ∷ s) h = ground arith

check_routing-IsRouted :
    (project client : Text) (is_client : Option (Text → Bool))
    → check_routing project client is_client ≡ none
    → IsRouted project client is_client
unfolding check_routing
check_routing-IsRouted project client is_client h = record {
  one = elim (Bool-cases (project == [])) [
    | inl e ↦ inl (eq_nil project e)
    | inr p ↦ elim (Bool-cases (client == [])) [
      | inl e ↦ inr (eq_nil client e)
      | inr c ↦ absurd (ground arith)
    ]
  ];
  project_tag = elim (Bool-cases (project == [])) [
    | inl e ↦ inl (eq_nil project e)
    | inr p ↦ inr (valid_project project (ground arith) (ground arith))
  ];
  known = elim (Bool-cases (client == [])) [
    | inl e ↦ inl (eq_nil client e)
    | inr c ↦ elim (Option-cases is_client) [
      | inl missing ↦ absurd (ground arith)
      | inr (f, there) ↦ inr (f, there, ground arith)
    ]
  ];
}

pub validate_add_input_lem :
    (trim : Text → Text) (text project client : Text) (is_client : Option (Text → Bool))
    → validate_add_input trim text project client is_client ≡ none
    → ((trim text == []) ≡ false)
      × (has_control_char text ≡ false)
      × IsRouted (trim project) (trim client) is_client
unfolding validate_add_input
validate_add_input_lem trim text project client is_client h = (
  ground arith,
  ground arith,
  check_routing-IsRouted (trim project) (trim client) is_client (ground arith),
)

-- The file of an accepted project stays in the directory of the tasks: its name has no slash, and
-- before the extension no dot.
pub project_file_name_safe :
    (trim : Text → Text) (text project client : Text) (is_client : Option (Text → Bool))
    → validate_add_input trim text project client is_client ≡ none
    → (has_byte 47 (project_file_name (trim project)) ≡ false)
      × (project_file_name (trim project) ≡ flatten (trim project) ++ codes ".md")
      × (has_byte 46 (flatten (trim project)) ≡ false)
unfolding project_file_name is_tag flatten
project_file_name_safe trim text project client is_client h =
    let (blank, plain, routed) = validate_add_input_lem trim text project client is_client h in
    (
      ground (
        arith,
        has_byte-append 47 (flatten (trim project)) (codes ".md"),
        has_byte-flatten (trim project),
        no_slash,
      ),
      refl,
      elim routed.project_tag [
        | inl e ↦ rw e (no_dot [] refl)
        | inr t ↦ no_dot (trim project) (ground arith)
      ],
    )
