-- ===== src/Planner/Run.antt =====
-- internal/ai/planner_loop.go and planner.go: the turns of a run, up to the approvals. `trim` is
-- strings.TrimSpace.
pub mod Parts
pub mod Waiting
pub mod Gate
pub mod Saved
use qi.Base.{
  ℕ, zero, suc, Text, codes, true, ◌==◌, Option, none, some, List, [], ◌∷◌, ◌++◌, Dict, ok, err,
  if◌then◌else◌,
}
use qi.Failover.State.{ProviderState}
use qi.Planner.{
  user, assistant, Message, ToolCall, ToolResult, ToolDef, GenerateResponse, PendingCall,
  StoredSession, TurnEvent, RunResult, build_tool_defs,
}
use qi.Planner.Session.{session_version}
use qi.Planner.Loop.{
  GenerateRequest, Host, PlannerState, PendingResult, Called, RunError, not_listed, not_generated,
  names_collide, empty_prompt, invalid_tool_calls, no_resumable_state, no_snapshot, not_persisted,
  Ran, Turned, finished, continued, caller_of, add_usage, stop_awaiting_approval,
  max_iterations_reached, empty_result, canonical_tool_calls, run_tool_calls, resolved_results,
  denied_all,
}

abbrev pub system_prompt : Text → Text
system_prompt caller =
    codes "You are the Qi assistant's planner. You are calling tools as caller=\""
    ++ caller
    ++ codes
        "\". Mutating tools route through a human approval queue and return tool errors of the form "
    ++ codes
        "\"approval required (id=...)\". When you see one, tell the user verbatim which command to run, "
    ++ codes "then stop calling tools."

abbrev pub prompt_message : Text → Message
prompt_message text = record { role = user; text = text; tool_calls = []; tool_results = [] }

abbrev pub proposal : Text → List ToolCall → Message
proposal text calls = record {
  role = assistant;
  text = text;
  tool_calls = calls;
  tool_results = [];
}

abbrev pub answers : List ToolResult → Message
answers results = record { role = user; text = []; tool_calls = []; tool_results = results }

abbrev pub failed_run : {W : Type 0} → W → RunResult → RunError → Turned W
failed_run w result x = finished (record { world = w; result = result; error = some x })

-- The session that is saved at the approval gate.
abbrev pub session_at :
    PlannerState → ProviderState → List Message → List ToolResult → List PendingCall → StoredSession
session_at p state messages results pendings = record {
  version = session_version;
  session_id = p.session_id;
  model = p.model;
  provider = state;
  messages = messages;
  results = resolved_results results pendings;
  pending = pendings;
}

module _ {W : Type 0} (host : Host W) (read_pending : Text → Option PendingResult)
    (trim : Text → Text) (canonical : Text → Option Text) (p : PlannerState) where
  abbrev pub request : List Message → List ToolDef → GenerateRequest
  request messages defs = record {
    model = p.model;
    system = system_prompt (caller_of p);
    messages = messages;
    tools = defs;
    max_tokens = p.max_tokens;
    cache_system = true;
  }

  -- From session.Save on.
  unfoldable pub save_session : StoredSession → RunResult → W → Ran W
  save_session s result w =
      let (w', failed) = host.store s w in
      elim failed [
        | some x ↦ denied_all host read_pending s.pending result (not_persisted x) w'
        | none ↦ record {
          world = w';
          result = record result {
            session_id = p.session_id;
            stop_reason = stop_awaiting_approval;
          };
          error = none;
        }
      ]

  -- Some calls wait for an approval.
  unfoldable pub at_gate : List Message → List ToolResult → List PendingCall → RunResult → W → Ran W
  unfolding save_session
  at_gate messages results pendings result w = elim (host.snapshot w) [
    | none ↦ denied_all host read_pending pendings result no_resumable_state w
    | some (err x) ↦ denied_all host read_pending pendings result (no_snapshot x) w
    | some (ok state) ↦ save_session (session_at p state messages results pendings) result w
  ]

  -- From the canonical calls on.
  unfoldable pub after_calls :
      List Message → Text → List ToolCall → ℕ → Text → RunResult → Called W → Turned W
  unfolding at_gate
  after_calls messages text calls iteration turn_text result called =
      let turn : TurnEvent = record {
        iteration = iteration;
        text = turn_text;
        tool_calls = called.records;
      } in
      let so_far : RunResult = record result { turns = result.turns ++ turn ∷ [] } in
      let said : List Message = messages ++ proposal text calls ∷ [] in
      elim called.pendings [
        | [] ↦ continued (said ++ answers called.results ∷ []) so_far called.world
        | q ∷ qs ↦ finished (
            at_gate said called.results (q ∷ qs)
              (record so_far { pending = so_far.pending ++ q ∷ qs }) called.world)
      ]

  -- The model's response.
  unfoldable pub after_response :
      Dict Text → List Message → ℕ → RunResult → W → GenerateResponse → Turned W
  unfolding canonical_tool_calls run_tool_calls after_calls
  after_response names messages iteration result w resp =
      let used : RunResult = record result {
        cache_usage = add_usage result.cache_usage resp.usage;
      } in
      let text : Text = trim resp.text in
      elim resp.tool_calls [
        | [] ↦ finished (record {
          world = w;
          result = record used {
            turns =
                used.turns ++ record { iteration = iteration; text = text; tool_calls = [] } ∷ [];
            final_text = text;
            stop_reason = resp.stop_reason;
          };
          error = none;
        })
        | c ∷ cs ↦ elim (canonical_tool_calls canonical (c ∷ cs)) [
          | err x ↦ failed_run w used (invalid_tool_calls x)
          | ok calls ↦
              after_calls messages resp.text calls iteration text used
                (run_tool_calls host read_pending (caller_of p) names calls w)
        ]
      ]

  -- The body of the loop.
  unfoldable pub turn_of : List ToolDef → Dict Text → List Message → ℕ → RunResult → W → Turned W
  unfolding after_response
  turn_of defs names messages iteration result w =
      let (w', outcome) = host.respond (request messages defs) w in
      elim outcome [
        | err x ↦ failed_run w' result (not_generated x)
        | ok resp ↦ after_response names messages iteration result w' resp
      ]

  -- `left` iterations are left of `maxIterations`.
  unfoldable pub turns_from :
      List ToolDef → Dict Text → ℕ → ℕ → List Message → RunResult → W → Ran W
  unfolding turn_of
  turns_from defs names zero iteration messages result w = record {
    world = w;
    result = record result { stop_reason = max_iterations_reached };
    error = none;
  }
  turns_from defs names (suc left) iteration messages result w =
      elim (turn_of defs names messages iteration result w) [
        | finished r ↦ r
        | continued messages' result' w' ↦
            turns_from defs names left (suc iteration) messages' result' w'
      ]

  unfoldable pub loop : List Message → List ToolDef → Dict Text → W → Ran W
  unfolding turns_from
  loop messages defs names w = turns_from defs names p.max_iterations 0 messages empty_result w

  -- From Planner.tools on.
  unfoldable pub with_tools : List Message → W → Ran W
  unfolding loop
  with_tools messages w =
      let (w', listed) = host.catalog_of w in
      elim listed [
        | err x ↦ record { world = w'; result = empty_result; error = some (not_listed x) }
        | ok catalog ↦ elim (build_tool_defs catalog) [
          | err x ↦ record { world = w'; result = empty_result; error = some (names_collide x) }
          | ok (defs, names) ↦ loop messages defs names w'
        ]
      ]

  unfoldable pub run : Text → W → Ran W
  unfolding with_tools
  run user_prompt w =
      if trim user_prompt == []
      then record { world = w; result = empty_result; error = some empty_prompt }
      else with_tools (prompt_message user_prompt ∷ []) w
