-- ===== src/Daemon/Serve.antt =====
-- internal/daemon/server.go: the method table and the handling of one line of input.
use qi.Base.{
  false, ℕ, Text, codes, not, ◌==◌, ◌≡◌, Option, none, some, List, [], ok, err, if◌then◌else◌,
}
use qi.Policy
use qi.Policy.{Verdict}
use qi.Approval.Queue.{Queue, Host}
use qi.Tools.Execute.{Reply}
use qi.Daemon.{
  Codec, Request, Response, success_response, error_response, response_id, is_notification,
  parse_error, invalid_request, method_not_found, jsonrpc_version, error_from_method, Server,
}
use qi.Daemon.Methods.{
  Answer, tools_list, tools_call, approval_list, approval_get, approval_approve, approval_deny,
}

abbrev pub Method : Type 0 → Type 0 → Type 0
Method A W = Text → Server A W → Server A W × Answer

-- What the clock and the random source give to the methods of one request.
pub record Ticks : Type 0 where
  pub now : ℕ
  pub later : ℕ
  pub draws : List Text

-- writeResponse: nothing is sent for a response that json.Marshal refuses.
unfoldable pub write_response : Codec → Response → Option Response
write_response codec r = if codec.marshals r then some r else none

-- A request is answered only when it is no notification.
abbrev pub unless_notification : Codec → Request → Response → Option Response
unless_notification codec req r = if is_notification req then none else write_response codec r

abbrev pub answer_response : Request → Answer → Response
answer_response req (ok v) =
    success_response (response_id req.id) (if v == [] then codes "null" else v)
answer_response req (err e) = error_response (response_id req.id) (error_from_method e)

-- The id that a response carries.
abbrev pub answered : Option Response → Option Text
answered none = none
answered (some (success_response id v)) = some id
answered (some (error_response id code)) = some id

module _ {A W : Type 0} (host : Host A) (codec : Codec) (decider : Policy.Request → Verdict)
    (describe : Reply → Text) where
  -- The entries of the table that need the queue.
  unfoldable pub queue_method : Ticks → Text → Queue A → Option (Method A W)
  queue_method t name q =
      if name == codes "approval.list"
      then some (λ raw s. approval_list host codec decider describe raw q s)
      else if name == codes "approval.get"
      then some (λ raw s. approval_get host codec decider describe raw q s)
      else if name == codes "approval.approve"
      then some (λ raw s. approval_approve host codec decider describe t.now t.later raw q s)
      else if name == codes "approval.deny"
      then some (λ raw s. approval_deny host codec decider describe t.now raw q s)
      else none

  -- What NewServer puts into the table.
  unfoldable pub builtin : Ticks → Text → Server A W → Option (Method A W)
  unfolding queue_method
  builtin t name s =
      if name == codes "tools.list"
      then some (λ raw s'. tools_list host codec decider describe s')
      else if name == codes "tools.call"
      then some (λ raw s'. tools_call host codec decider describe t.now t.draws raw s')
      else elim s.queue [ none ↦ none | some q ↦ queue_method t name q ]

  -- The table, with the methods that Register added or replaced.
  unfoldable pub method_of :
      (Text → Option (Method A W)) → Ticks → Text → Server A W → Option (Method A W)
  unfolding builtin
  method_of registered t name s = elim (registered name) [
    | some m ↦ some m
    | none ↦ builtin t name s
  ]

  unfoldable pub handle_request :
      (Text → Option (Method A W)) → Ticks → Request → Server A W → Server A W × Option Response
  unfolding method_of write_response
  handle_request registered t req s =
      if not (req.jsonrpc == jsonrpc_version)
      then (s, unless_notification codec req (error_response (response_id req.id) invalid_request))
      else if req.method == []
      then (s, unless_notification codec req (error_response (response_id req.id) invalid_request))
      else elim (method_of registered t req.method s) [
        | none ↦ (
          s,
          unless_notification codec req (error_response (response_id req.id) method_not_found),
        )
        | some m ↦
            let (s', answer) = m req.params s in
            (s', unless_notification codec req (answer_response req answer))
      ]

  unfoldable pub handle_line :
      (Text → Option (Method A W)) → Ticks → Text → Server A W → Server A W × Option Response
  unfolding handle_request write_response
  handle_line registered t line s = elim (codec.decode_request line) [
    | none ↦ (s, write_response codec (error_response (response_id []) parse_error))
    | some req ↦ handle_request registered t req s
  ]

  -- The request's method gives a result with which json.Marshal refuses the response.
  pub record Unwritable (registered : Text → Option (Method A W)) (t : Ticks) (req : Request)
      (s : Server A W) : Type 0 where
    pub method : Method A W
    pub found : method_of registered t req.method s ≡ some method
    pub refused : codec.marshals (answer_response req (method req.params s).1) ≡ false
