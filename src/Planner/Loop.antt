-- ===== src/Planner/Loop.antt =====
-- internal/ai/planner_loop.go and planner.go, with IsPending of internal/daemon/client/client.go: one
-- conversation with the language model. The model, the client of qid and the session store are
-- functions on the state of the world. A log of denials is not kept: the errors of the denials are
-- listed in the error that the loop returns.
use qi.Base.{
  ℕ, ◌+◌, Text, codes, Bool, true, false, ◌&&◌, ◌||◌, not, ◌==◌, Option, none, some, List, [], ◌∷◌,
  ◌++◌, Dict, lookup, contains, Result, ok, err, if◌then◌else◌,
}
use qi.Approval.{Pending}
use qi.Failover.State.{ProviderState}
use qi.Planner.{
  Message, ToolCall, ToolResult, ToolDef, Usage, GenerateResponse, PendingCall, StoredSession,
  ToolCallRecord, RunResult, CatalogTool, Collision,
}
use qi.Planner.Session.{valid_call_id}

pub record GenerateRequest : Type 0 where
  pub model : Text
  pub system : Text
  pub messages : List Message
  pub tools : List ToolDef
  pub max_tokens : ℕ
  pub cache_system : Bool

-- The client of qid, the language model and DefaultSessionStore with its Save. `snapshot` is
-- nothing for a model that does not expose it.
pub record Host (W : Type 0) : Type 0 where
  pub catalog_of : W → W × Result Text (List CatalogTool)
  pub tool_call : Text → Text → Text → Text → W → W × Result Text Text
  pub get_approval : Text → W → W × Result Text Pending
  pub deny_approval : Text → Text → W → W × Option Text
  pub respond : GenerateRequest → W → W × Result Text GenerateResponse
  pub snapshot : W → Option (Result Text ProviderState)
  pub store : StoredSession → W → W × Option Text

pub record PlannerState : Type 0 where
  pub model : Text
  pub max_tokens : ℕ
  pub max_iterations : ℕ
  pub session_id : Text

pub data CallError : Type 0 where
  invalid_call_id duplicate_call_id invalid_input : Text → CallError

-- Why a run ends with an error; the list has the errors of the denials.
pub data RunError : Type 0 where
  empty_prompt : RunError
  not_listed not_generated : Text → RunError
  names_collide : Collision → RunError
  invalid_tool_calls : CallError → RunError
  no_resumable_state : List Text → RunError
  no_snapshot not_persisted : Text → List Text → RunError

pub record Ran (W : Type 0) : Type 0 where
  pub world : W
  pub result : RunResult
  pub error : Option RunError

pub record PendingResult : Type 0 where
  pub status : Text
  pub approval_id : Text
  pub reason : Text

pub record Called (W : Type 0) : Type 0 where
  pub world : W
  pub results : List ToolResult
  pub records : List ToolCallRecord
  pub pendings : List PendingCall

-- After one turn: the end of the run, or the next turn's conversation.
pub data Turned (W : Type 0) : Type 0 where
  finished : Ran W → Turned W
  continued : List Message → RunResult → W → Turned W

abbrev pub caller_of : PlannerState → Text
caller_of p = codes "ai-planner:" ++ p.session_id

abbrev pub stop_awaiting_approval : Text
stop_awaiting_approval = codes "awaiting_approval"

abbrev pub max_iterations_reached : Text
max_iterations_reached = codes "max_iterations"

abbrev pub empty_result : RunResult
empty_result = record {
  final_text = [];
  turns = [];
  pending = [];
  session_id = [];
  stop_reason = [];
  cache_usage = record {
    input_tokens = 0;
    output_tokens = 0;
    cache_creation_tokens = 0;
    cache_read_tokens = 0;
  };
}

abbrev pub add_usage : Usage → Usage → Usage
add_usage u v = record {
  input_tokens = u.input_tokens + v.input_tokens;
  output_tokens = u.output_tokens + v.output_tokens;
  cache_creation_tokens = u.cache_creation_tokens + v.cache_creation_tokens;
  cache_read_tokens = u.cache_read_tokens + v.cache_read_tokens;
}

-- seen, as in the loop of canonicalToolCalls
module _ (canonical : Text → Option Text) where
  unfoldable pub canonical_from : List Text → List ToolCall → Result CallError (List ToolCall)
  unfolding valid_call_id
  canonical_from seen [] = ok []
  canonical_from seen (c ∷ cs) =
      let rest = canonical_from (c.id ∷ seen) cs in
      if not (valid_call_id c.id)
      then err (invalid_call_id c.id)
      else if contains c.id seen
      then err (duplicate_call_id c.id)
      else elim (canonical c.input) [
        | none ↦ err (invalid_input c.id)
        | some input ↦ elim rest [
          | err x ↦ err x
          | ok more ↦ ok (record c { input = input } ∷ more)
        ]
      ]

  unfoldable pub canonical_tool_calls : List ToolCall → Result CallError (List ToolCall)
  unfolding canonical_from
  canonical_tool_calls calls = canonical_from [] calls

unfoldable pub tool_named : Dict Text → Text → Text
tool_named names name = elim (lookup name names) [ none ↦ name | some qid_name ↦ qid_name ]

unfoldable pub is_call_of : Text → List PendingCall → Bool
is_call_of id [] = false
is_call_of id (p ∷ ps) = p.call_id == id || is_call_of id ps

unfoldable pub resolved_results : List ToolResult → List PendingCall → List ToolResult
unfolding is_call_of
resolved_results [] pendings = []
resolved_results (r ∷ rs) pendings =
    let rest = resolved_results rs pendings in
    if is_call_of r.call_id pendings then rest else r ∷ rest

-- `read_pending` is json.Unmarshal of a tool's result into a PendingResult.
unfoldable pub is_pending : (Text → Option PendingResult) → Text → Option PendingResult
is_pending read_pending raw = elim (read_pending raw) [
  | none ↦ none
  | some p ↦ if p.status == codes "pending" && not (p.approval_id == []) then some p else none
]

abbrev pub record_of : Text → ToolCall → Bool → Text → ToolCallRecord
record_of name c pending error = record {
  name = name;
  input = c.input;
  pending = pending;
  error = error;
  result_id = c.id;
}

module _ {W : Type 0} (host : Host W) (read_pending : Text → Option PendingResult) where
  -- A result of the tool, or an approval that the call waits for.
  abbrev pub answered_ok : ToolCall → Text → W → Text → Option PendingResult → Called W
  answered_ok c name w raw none = record {
    world = w;
    results = record { call_id = c.id; content = raw; is_error = false } ∷ [];
    records = record_of name c false [] ∷ [];
    pendings = [];
  }
  answered_ok c name w raw (some p) = record {
    world = w;
    results =
        record {
          call_id = c.id;
          content = codes "awaiting approval " ++ p.approval_id;
          is_error = true;
        }
        ∷ [];
    records = record_of name c true [] ∷ [];
    pendings =
        record { call_id = c.id; approval_id = p.approval_id; tool_name = name; reason = p.reason }
        ∷ [];
  }

  abbrev pub answered : ToolCall → Text → W → Result Text Text → Called W
  answered c name w (err x) = record {
    world = w;
    results = record { call_id = c.id; content = codes "error: " ++ x; is_error = true } ∷ [];
    records = record_of name c false x ∷ [];
    pendings = [];
  }
  answered c name w (ok raw) = answered_ok c name w raw (is_pending read_pending raw)

  -- The body of the loop.
  unfoldable pub run_call : Text → Dict Text → ToolCall → W → Called W
  unfolding tool_named is_pending
  run_call caller names c w =
      let name = tool_named names c.name in
      let (w', outcome) = host.tool_call caller c.id name c.input w in answered c name w' outcome

  unfoldable pub run_tool_calls : Text → Dict Text → List ToolCall → W → Called W
  unfolding run_call
  run_tool_calls caller names [] w = record { world = w; results = []; records = []; pendings = [] }
  run_tool_calls caller names (c ∷ cs) w =
      let one = run_call caller names c w in
      let more = run_tool_calls caller names cs one.world in
      record {
        world = more.world;
        results = one.results ++ more.results;
        records = one.records ++ more.records;
        pendings = one.pendings ++ more.pendings;
      }

  -- Every approval is denied, also when one of the denials fails.
  unfoldable pub deny_unpersisted_approvals : List PendingCall → W → W × List Text
  deny_unpersisted_approvals [] w = (w, [])
  deny_unpersisted_approvals (p ∷ ps) w =
      let (w', failed) =
        host.deny_approval p.approval_id (codes "planner session persistence failed") w in
      let (w'', errors) = deny_unpersisted_approvals ps w' in
      (w'', elim failed [ none ↦ errors | some x ↦ x ∷ errors ])

  abbrev pub denied_all : List PendingCall → RunResult → (List Text → RunError) → W → Ran W
  denied_all pendings result error w =
      let (w', errors) = deny_unpersisted_approvals pendings w in
      record { world = w'; result = result; error = some (error errors) }
