-- ===== src/Planner/Resume/Binding.antt =====
-- internal/ai/planner_resume.go: what is known of an approval that a resumption takes for a call.
use qi.Base.{
  ◌≡◌, sym, ap, ◌∙◌, arith, Text, Bool, eq_iff, eq_sound, Option, none, some, ok, err, Result-cases,
  Option-cases, inl, inr, refl, true, false, [], ◌∷◌, ◌++◌, codes, ◌==◌, ◌≢◌,
}
use mathlib.Core.List.{append-nil, append_assoc}
use qi.Approval.{Pending, Status, executed, denied, failed, pending, approved, other_status}
use qi.Failover.State.{ProviderState}
use qi.Planner.{ToolCall, ToolResult, PendingCall}
use qi.Planner.Loop.{caller_of, Host, PlannerState, PendingResult}
use qi.Planner.Resume.{
  ResumeError, validate_params, not_fetched, resolve_approval, result_of, with_detail,
  validate_approval_binding,
}

call_id-result_of :
    (call : ToolCall) (q : PendingCall) (r : Pending) (x : ToolResult)
    → result_of call q r ≡ ok x
    → x.call_id ≡ call.id
unfolding result_of
call_id-result_of call q r x h = ground arith

-- A status that settles an approval, or another one.
data StatusCase (s : Status) : Type 0 where
  executed_case : s ≡ executed → StatusCase s
  denied_case : s ≡ denied → StatusCase s
  failed_case : s ≡ failed → StatusCase s
  open_case :
      ((call : ToolCall) (q : PendingCall) (r : Pending) (x : ToolResult)
        → r.status ≡ s
        → result_of call q r ≢ ok x)
      → StatusCase s

Status-cases : (s : Status) → StatusCase s
unfolding result_of
Status-cases executed = executed_case refl
Status-cases denied = denied_case refl
Status-cases failed = failed_case refl
Status-cases pending = open_case (λ call q r x e h. ground arith)
Status-cases approved = open_case (λ call q r x e h. ground arith)
Status-cases (other_status t) = open_case (λ call q r x e h. ground arith)

-- What follows the sentence of a refused call.
abbrev pub detail : Text → Text
detail [] = []
detail (c ∷ s) = codes ": " ++ c ∷ s

-- How the language model is told that an approval is settled.
pub data Settled (r : Pending) : ToolResult → Type 0 where
  ran :
      {x : ToolResult}
      → r.status ≡ executed
      → x.content ≡ r.result
      → x.is_error ≡ false
      → Settled r x
  turned_down :
      {x : ToolResult}
      → r.status ≡ denied
      → x.content ≡ codes "the user denied this action" ++ detail r.reason
      → x.is_error ≡ true
      → Settled r x
  broke :
      {x : ToolResult}
      → r.status ≡ failed
      → x.content ≡ codes "the approved action failed to execute" ++ detail r.error
      → x.is_error ≡ true
      → Settled r x

with_detail_lem : (content s : Text) → with_detail content s ≡ content ++ detail s
unfolding with_detail ◌==◌
with_detail_lem content [] = sym (append-nil content)
with_detail_lem content (c ∷ s) = append_assoc content (codes ": ") (c ∷ s)

result_of-Settled :
    (call : ToolCall) (q : PendingCall) (r : Pending) (x : ToolResult)
    → result_of call q r ≡ ok x
    → Settled r x
unfolding result_of
result_of-Settled call q r x h = elim (Status-cases r.status) [
  | executed_case e ↦ ran e (ground arith) (ground arith)
  | denied_case e ↦
      turned_down e (ground (arith, with_detail_lem (codes "the user denied this action") r.reason))
        (ground arith)
  | failed_case e ↦
      broke e
        (ground (arith, with_detail_lem (codes "the approved action failed to execute") r.error))
        (ground arith)
  | open_case never ↦ absurd (never call q r x refl h)
]

module _ {W : Type 0} (host : Host W) (canonical : Text → Option Text) (p : PlannerState) where
  -- qid has, at some moment of the resumption, an approval that is bound to this call: its id, caller,
  -- call, tool and parameters agree; it was executed, denied or has failed, and the
  -- result says which.
  pub record IsResolved (call : ToolCall) (q : PendingCall) (r : ToolResult) : Type 0 where
    pub before : W
    pub after : W
    pub approval : Pending
    pub fetched : host.get_approval q.approval_id before ≡ (after, ok approval)
    pub same_id : approval.id ≡ q.approval_id
    pub same_caller : approval.caller ≡ caller_of p
    pub same_call : approval.call_id ≡ call.id
    pub same_tool : approval.tool_name ≡ q.tool_name
    pub params : Text
    pub call_params : canonical call.input ≡ some params
    pub approval_params : canonical approval.params ≡ some params
    pub answers : r.call_id ≡ call.id
    pub settled : Settled approval r

  module _ (read_pending : Text → Option PendingResult) (trim : Text → Text)
      (valid_provider : ProviderState → Bool) where
    validate_params-none :
        (call : ToolCall) (r : Pending)
        → validate_params host read_pending trim canonical valid_provider call r ≡ none
        → (b : Text) × (canonical call.input ≡ some b) × (canonical r.params ≡ some b)
    unfolding validate_params
    validate_params-none call r h = elim (Option-cases (canonical call.input)) [
      | inl e ↦ ground arith
      | inr (b, e) ↦ elim (Option-cases (canonical r.params)) [
        | inl k ↦ ground arith
        | inr (c, k) ↦ (b, e, ground (arith, eq_sound b c))
      ]
    ]

    binding-none :
        (call : ToolCall) (q : PendingCall) (r : Pending)
        → validate_approval_binding host read_pending trim canonical valid_provider p call q r
          ≡ none
        → (r.id ≡ q.approval_id)
          × (r.caller ≡ caller_of p)
          × (r.call_id ≡ call.id)
          × (r.tool_name ≡ q.tool_name)
          × (validate_params host read_pending trim canonical valid_provider call r ≡ none)
    unfolding validate_approval_binding
    binding-none call q r h = (
      ground (arith, eq_iff r.id q.approval_id),
      ground (arith, eq_iff r.caller (caller_of p)),
      ground (arith, eq_iff r.call_id call.id),
      ground (arith, eq_iff r.tool_name q.tool_name),
      ground arith,
    )

    resolve_unfetched :
        (call : ToolCall) (q : PendingCall) (w : W) (x : Text)
        → (host.get_approval q.approval_id w).1 ≡ err x
        → (resolve_approval host read_pending trim canonical valid_provider p call q w).1
          ≡ err (not_fetched q.approval_id x)
    unfolding resolve_approval
    resolve_unfetched call q w x h = ground arith

    resolve_unbound :
        (call : ToolCall) (q : PendingCall) (w : W) (r : Pending) (x : ResumeError)
        → (host.get_approval q.approval_id w).1 ≡ ok r
        → validate_approval_binding host read_pending trim canonical valid_provider p call q r
          ≡ some x
        → (resolve_approval host read_pending trim canonical valid_provider p call q w).1 ≡ err x
    unfolding resolve_approval
    resolve_unbound call q w r x h k = ground arith

    resolve_bound :
        (call : ToolCall) (q : PendingCall) (w : W) (r : Pending)
        → (host.get_approval q.approval_id w).1 ≡ ok r
        → validate_approval_binding host read_pending trim canonical valid_provider p call q r
          ≡ none
        → (resolve_approval host read_pending trim canonical valid_provider p call q w).1
          ≡ result_of call q r
    unfolding resolve_approval
    resolve_bound call q w r h k = ground arith

    bound-IsResolved :
        (call : ToolCall) (q : PendingCall) (w : W) (r : Pending) (x : ToolResult)
        → (host.get_approval q.approval_id w).1 ≡ ok r
        → validate_approval_binding host read_pending trim canonical valid_provider p call q r
          ≡ none
        → result_of call q r ≡ ok x
        → IsResolved call q x
    bound-IsResolved call q w r x got bound e =
        let (id, caller, same, tool, params) = binding-none call q r bound in
        let (b, first, second) = validate_params-none call r params in
        record {
          before = w;
          after = (host.get_approval q.approval_id w).0;
          approval = r;
          fetched = ap (λ o. ((host.get_approval q.approval_id w).0, o)) got;
          same_id = id;
          same_caller = caller;
          same_call = same;
          same_tool = tool;
          params = b;
          call_params = first;
          approval_params = second;
          answers = call_id-result_of call q r x e;
          settled = result_of-Settled call q r x e;
        }

    pub resolve_approval_ok :
        (call : ToolCall) (q : PendingCall) (w : W) (x : ToolResult)
        → (resolve_approval host read_pending trim canonical valid_provider p call q w).1 ≡ ok x
        → IsResolved call q x
    resolve_approval_ok call q w x h = elim (Result-cases (host.get_approval q.approval_id w).1) [
      | inr (t, e) ↦ absurd (cc (resolve_unfetched call q w t e))
      | inl (r, e) ↦
          elim (Option-cases (
            validate_approval_binding host read_pending trim canonical valid_provider p call q r)) [
              | inr (y, k) ↦ absurd (cc (resolve_unbound call q w r y e k))
              | inl k ↦ bound-IsResolved call q w r x e k (sym (resolve_bound call q w r e k) ∙ h)
            ]
    ]
