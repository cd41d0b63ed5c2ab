-- ===== src/Planner.antt =====
-- internal/ai/types.go, planner.go, session.go and planner_loop.go: the data of a planner's
-- conversation, and the names of the tools as a language model sees them. Roles, stop reasons and
-- raw JSON are texts; token counts are numbers.
pub mod Ident
pub mod Session
pub mod Store
pub mod Loop
pub mod Names
pub mod Run
pub mod Resume
use qi.Base.{
  ℕ, Text, Bool, nat_eq, none, some, List, [], ◌∷◌, Dict, lookup, insert, Result, ok, err,
  if◌then◌else◌,
}
use qi.Failover.State.{ProviderState}

pub data Role : Type 0 where
  user assistant : Role
  other_role : Text → Role

pub record ToolCall : Type 0 where
  pub id : Text
  pub name : Text
  pub input : Text

pub record ToolResult : Type 0 where
  pub call_id : Text
  pub content : Text
  pub is_error : Bool

pub record Message : Type 0 where
  pub role : Role
  pub text : Text
  pub tool_calls : List ToolCall
  pub tool_results : List ToolResult

pub record ToolDef : Type 0 where
  pub name : Text
  pub description : Text
  pub input_schema : Text

pub record Usage : Type 0 where
  pub input_tokens : ℕ
  pub output_tokens : ℕ
  pub cache_creation_tokens : ℕ
  pub cache_read_tokens : ℕ

pub record GenerateResponse : Type 0 where
  pub text : Text
  pub tool_calls : List ToolCall
  pub stop_reason : Text
  pub usage : Usage

pub record PendingCall : Type 0 where
  pub call_id : Text
  pub approval_id : Text
  pub tool_name : Text
  pub reason : Text

pub record StoredSession : Type 0 where
  pub version : ℕ
  pub session_id : Text
  pub model : Text
  pub provider : ProviderState
  pub messages : List Message
  pub results : List ToolResult
  pub pending : List PendingCall

pub record ToolCallRecord : Type 0 where
  pub name : Text
  pub input : Text
  pub pending : Bool
  pub error : Text
  pub result_id : Text

pub record TurnEvent : Type 0 where
  pub iteration : ℕ
  pub text : Text
  pub tool_calls : List ToolCallRecord

pub record RunResult : Type 0 where
  pub final_text : Text
  pub turns : List TurnEvent
  pub pending : List PendingCall
  pub session_id : Text
  pub stop_reason : Text
  pub cache_usage : Usage

-- What tools.list says of a tool.
pub record CatalogTool : Type 0 where
  pub name : Text
  pub description : Text
  pub schema : Text

-- strings.ReplaceAll(name, ".", "_")
unfoldable pub sanitize_tool_name : Text → Text
sanitize_tool_name [] = []
sanitize_tool_name (c ∷ s) = (if nat_eq c 46 then 95 else c) ∷ sanitize_tool_name s

-- Two tools of the catalog with one sanitized name.
pub record Collision : Type 0 where
  pub api_name : Text
  pub previous : Text
  pub name : Text

abbrev pub tool_def : CatalogTool → ToolDef
tool_def t = record {
  name = sanitize_tool_name t.name;
  description = t.description;
  input_schema = t.schema;
}

-- The loop, with the map so far.
unfoldable pub tool_defs_from :
    Dict Text → List CatalogTool → Result Collision (List ToolDef × Dict Text)
unfolding sanitize_tool_name
tool_defs_from names [] = ok ([], names)
tool_defs_from names (t ∷ ts) =
    let rest = tool_defs_from (insert (sanitize_tool_name t.name) t.name names) ts in
    elim (lookup (sanitize_tool_name t.name) names) [
      | some previous ↦
          err (record { api_name = sanitize_tool_name t.name; previous = previous; name = t.name })
      | none ↦ elim rest [ err x ↦ err x | ok (defs, map) ↦ ok (tool_def t ∷ defs, map) ]
    ]

unfoldable pub build_tool_defs : List CatalogTool → Result Collision (List ToolDef × Dict Text)
unfolding tool_defs_from
build_tool_defs catalog = tool_defs_from [] catalog
