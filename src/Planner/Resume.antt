-- ===== src/Planner/Resume.antt =====
-- internal/ai/planner_resume.go: the continuation of a saved session. The texts of errors that end
-- the resumption are constructors.
pub mod Binding
pub mod Paired
use qi.Base.{
  Text, codes, Bool, true, false, not, ◌==◌, Option, none, some, List, [], ◌∷◌, ◌++◌, Dict, lookup,
  insert, Result, ok, err, if◌then◌else◌,
}
use qi.Approval.{Status, pending, approved, denied, executed, failed, other_status, Pending}
use qi.Failover.State.{ProviderState}
use qi.Planner.{ToolCall, ToolResult, PendingCall, StoredSession}
use qi.Planner.Session.{SessionError, empty_conversation, last_message, validate_stored_session}
use qi.Planner.Loop.{Host, PlannerState, PendingResult, Ran, caller_of}
use qi.Planner.Run.{answers, with_tools}

pub data ResumeError : Type 0 where
  invalid_session : SessionError → ResumeError
  not_fetched : Text → Text → ResumeError
  id_mismatch caller_mismatch call_id_mismatch tool_mismatch bad_call_input bad_params : ResumeError
  params_mismatch : ResumeError
  not_resolved : Text → Status → ResumeError
  unsupported_status : Text → Text → ResumeError

-- resultsByCall
unfoldable pub results_by_call : Dict ToolResult → List ToolResult → Dict ToolResult
results_by_call m [] = m
results_by_call m (r ∷ rs) = results_by_call (insert r.call_id r m) rs

-- pendingByCall
unfoldable pub pending_by_call : Dict PendingCall → List PendingCall → Dict PendingCall
pending_by_call m [] = m
pending_by_call m (p ∷ ps) = pending_by_call (insert p.call_id p m) ps

abbrev pub no_pending : PendingCall
no_pending = record { call_id = []; approval_id = []; tool_name = []; reason = [] }

-- The zero value where the map has no entry.
unfoldable pub pending_of : Dict PendingCall → Text → PendingCall
pending_of m id = elim (lookup id m) [ none ↦ no_pending | some p ↦ p ]

-- content += ": " + detail, when there is one
unfoldable pub with_detail : Text → Text → Text
with_detail content detail = if detail == [] then content else content ++ codes ": " ++ detail

abbrev pub refused_result : ToolCall → Text → ToolResult
refused_result call content = record { call_id = call.id; content = content; is_error = true }

-- The switch on the status of the approval.
unfoldable pub result_of : ToolCall → PendingCall → Pending → Result ResumeError ToolResult
unfolding with_detail
result_of call q r = elim r.status [
  | executed ↦ ok (record { call_id = call.id; content = r.result; is_error = false })
  | denied ↦ ok (refused_result call (with_detail (codes "the user denied this action") r.reason))
  | failed ↦
      ok (refused_result call (with_detail (codes "the approved action failed to execute") r.error))
  | pending ↦ err (not_resolved q.approval_id pending)
  | approved ↦ err (not_resolved q.approval_id approved)
  | other_status s ↦ err (unsupported_status q.approval_id s)
]

-- p.sessionID = session.SessionID, and the session's model when it has one.
unfoldable pub resumed_state : PlannerState → StoredSession → PlannerState
resumed_state p s = record p {
  session_id = s.session_id;
  model = if s.model == [] then p.model else s.model;
}

module _ {W : Type 0} (host : Host W) (read_pending : Text → Option PendingResult)
    (trim : Text → Text) (canonical : Text → Option Text)
    (valid_provider : ProviderState → Bool) where
  unfoldable pub validate_params : ToolCall → Pending → Option ResumeError
  validate_params call r = elim (canonical call.input) [
    | none ↦ some bad_call_input
    | some call_params ↦ elim (canonical r.params) [
      | none ↦ some bad_params
      | some record_params ↦ if call_params == record_params then none else some params_mismatch
    ]
  ]

  unfoldable pub validate_approval_binding :
      PlannerState → ToolCall → PendingCall → Pending → Option ResumeError
  unfolding validate_params
  validate_approval_binding p call q r =
      if not (r.id == q.approval_id)
      then some id_mismatch
      else if not (r.caller == caller_of p)
      then some caller_mismatch
      else if not (r.call_id == call.id)
      then some call_id_mismatch
      else if not (r.tool_name == q.tool_name)
      then some tool_mismatch
      else validate_params call r

  unfoldable pub resolve_approval :
      PlannerState → ToolCall → PendingCall → W → W × Result ResumeError ToolResult
  unfolding validate_approval_binding result_of
  resolve_approval p call q w =
      let (w', fetched) = host.get_approval q.approval_id w in
      elim fetched [
        | err x ↦ (w', err (not_fetched q.approval_id x))
        | ok r ↦ elim (validate_approval_binding p call q r) [
          | some x ↦ (w', err x)
          | none ↦ (w', result_of call q r)
        ]
      ]

  -- The body of the loop over the calls.
  unfoldable pub resolve_call :
      PlannerState
      → Dict ToolResult
      → Dict PendingCall
      → ToolCall
      → W
      → W × Result ResumeError ToolResult
  unfolding pending_of resolve_approval
  resolve_call p results pendings call w = elim (lookup call.id results) [
    | some r ↦ (w, ok r)
    | none ↦ resolve_approval p call (pending_of pendings call.id) w
  ]

  unfoldable pub resolve_calls :
      PlannerState
      → Dict ToolResult
      → Dict PendingCall
      → List ToolCall
      → W
      → W × Result ResumeError (List ToolResult)
  unfolding resolve_call
  resolve_calls p results pendings [] w = (w, ok [])
  resolve_calls p results pendings (c ∷ cs) w =
      let (w', one) = resolve_call p results pendings c w in
      elim one [
        | err x ↦ (w', err x)
        | ok r ↦
            let (w'', rest) = resolve_calls p results pendings cs w' in
            elim rest [ err x ↦ (w'', err x) | ok rs ↦ (w'', ok (r ∷ rs)) ]
      ]

  -- From the last turn's calls on.
  unfoldable pub resume_calls :
      PlannerState → StoredSession → List ToolCall → W → W × Result ResumeError (Ran W)
  unfolding resolve_calls results_by_call pending_by_call
  resume_calls p s calls w =
      let (w', resolved) =
        resolve_calls p (results_by_call [] s.results) (pending_by_call [] s.pending) calls w in
      elim resolved [
        | err x ↦ (w', err x)
        | ok results ↦
            let ran =
              with_tools host read_pending trim canonical p (s.messages ++ answers results ∷ [])
                w' in
            (ran.world, ok ran)
      ]

  unfoldable pub resume : PlannerState → StoredSession → W → W × Result ResumeError (Ran W)
  unfolding resumed_state resume_calls
  resume p s w = elim (validate_stored_session trim canonical valid_provider s) [
    | some x ↦ (w, err (invalid_session x))
    | none ↦ elim (last_message s.messages) [
      | none ↦ (w, err (invalid_session empty_conversation))
      | some last ↦ resume_calls (resumed_state p s) s last.tool_calls w
    ]
  ]
