-- ===== src/Domain.antt =====
-- internal/domain: the task, as the parser of the vault makes it.
use qi.Base.{ℕ, Text, Bool, Option, List}

-- A date is a number.
pub record Task : Type 0 where
  pub id : Text
  pub text : Text
  pub project : Text
  pub tags : List Text
  pub due : Option ℕ
  pub scheduled : Option ℕ
  pub recurrence : Text
  pub parent_id : Text
  pub priority : Text
  pub completed : Bool
  pub completed_at : Option ℕ
  pub file_path : Text
  pub line_number : ℕ
