-- ===== src/Tools.antt =====
-- internal/tools/tool.go: the catalog entry, where it comes from, and its validation.
pub mod Registry
pub mod Execute
use qi.Base.{
  ℕ, Text, codes, Bool, true, false, ◌&&◌, ◌||◌, ◌==◌, nat_eq, Option, none, some, [], ◌∷◌,
  if◌then◌else◌,
}

-- `int`: the constants are 1, 2 and 3; any other value, 0 included, is `unknown`.
pub data SourceKind : Type 0 where
  source_local source_mcp source_skill : SourceKind
  unknown : ℕ → SourceKind

unfoldable pub kind_eq : SourceKind → SourceKind → Bool
kind_eq source_local source_local = true
kind_eq source_mcp source_mcp = true
kind_eq source_skill source_skill = true
kind_eq (unknown m) (unknown n) = nat_eq m n
kind_eq _ _ = false

unfoldable pub kind_string : SourceKind → Text
kind_string source_local = codes "local"
kind_string source_mcp = codes "mcp"
kind_string source_skill = codes "skill"
kind_string (unknown n) = codes "unknown"

-- The string that is handed to `json.Marshal`, or nothing for an error.
unfoldable pub marshal_kind : SourceKind → Option Text
unfolding kind_string ◌==◌
marshal_kind k = let s = kind_string k in if s == codes "unknown" then none else some s

-- The decoded JSON string, to the kind that it names.
unfoldable pub unmarshal_kind : Text → Option SourceKind
unfolding ◌==◌
unmarshal_kind s =
    if s == codes "local"
    then some source_local
    else if s == codes "mcp"
    then some source_mcp
    else if s == codes "skill"
    then some source_skill
    else none

pub record Source : Type 0 where
  pub kind : SourceKind
  pub id : Text

-- a == b on the struct
unfoldable pub source_eq : Source → Source → Bool
unfolding kind_eq ◌==◌
source_eq a b = kind_eq a.kind b.kind && a.id == b.id

pub record Tool : Type 0 where
  pub name : Text
  pub source : Source
  pub version : Text
  pub mutating : Bool
  pub description : Text
  pub schema : Text

pub data ToolError : Type 0 where
  empty_name : ToolError
  whitespace_in_name : Text → ToolError
  source_sets_id : Text → SourceKind → ToolError
  mcp_without_id : Text → ToolError
  unknown_kind : Text → SourceKind → ToolError
  nil_handler : Text → ToolError
  already_registered : Text → ToolError
  source_mismatch : Text → Source → Source → ToolError
  registered_by : Text → Source → ToolError

-- strings.ContainsAny(name, " \t\n\r")
unfoldable pub contains_whitespace : Text → Bool
contains_whitespace [] = false
contains_whitespace (c ∷ s) =
    (nat_eq c 32 || nat_eq c 9 || nat_eq c 10 || nat_eq c 13) || contains_whitespace s

-- The switch of `validate` on the kind of the source.
unfoldable pub validate_source : Text → Source → Option ToolError
unfolding ◌==◌
validate_source name s = elim s.kind [
  | source_mcp ↦ if s.id == [] then some (mcp_without_id name) else none
  | unknown n ↦ some (unknown_kind name (unknown n))
  | k ↦ if s.id == [] then none else some (source_sets_id name k)
]

-- `none` is a nil error.
unfoldable pub validate : Tool → Option ToolError
unfolding ◌==◌ contains_whitespace validate_source
validate t =
    if t.name == []
    then some empty_name
    else if contains_whitespace t.name
    then some (whitespace_in_name t.name)
    else validate_source t.name t.source
