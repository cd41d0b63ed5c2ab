-- ===== src/Tests/Entering.antt =====
-- A task that comes in with a project.
use qi.Base.{has_byte, Text, codes, ◌==◌, none, [], ◌++◌, ◌≡◌, refl, false}
use qi.Intake.{validate_add_input, project_file_name, flatten}
use qi.Intake.Accepted.{project_file_name_safe}

abbrev project : Text
project = codes "work/site"

accepted : validate_add_input (λ s. s) (codes "call") project [] none ≡ none
unfolding validate_add_input ◌==◌
accepted = refl

project_file_name_safe_example :
    (has_byte 47 (project_file_name project) ≡ false)
    × (project_file_name project ≡ flatten project ++ codes ".md")
    × (has_byte 46 (flatten project) ≡ false)
project_file_name_safe_example =
    project_file_name_safe (λ s. s) (codes "call") project [] none accepted
