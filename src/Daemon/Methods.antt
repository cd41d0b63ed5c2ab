-- ===== src/Daemon/Methods.antt =====
-- internal/daemon/server.go: the methods. `now` and `draws` are what the queue takes from the clock
-- and from crypto/rand, `describe` is Error() of an error of the dispatch.
use qi.Base.{ℕ, Text, codes, ◌==◌, Option, none, some, List, [], Result, ok, err, if◌then◌else◌}
use qi.Policy.{Verdict, allow, confirm, deny}
use qi.Approval.{Status, pending, approved, denied, executed, failed, other_status, unknown_id}
use qi.Approval.Queue
use qi.Approval.Queue.{Queue, Host, approve, get, enqueue_with_call_id}
use qi.Approval.Queue.Outcome.{Execution, success, error, record_result}
use qi.Approval.Queue.Listing.{list}
use qi.Tools.Registry.{list_tools, lookup_tool}
use qi.Tools.Execute.{Reply, execute}
use qi.Policy
use qi.Daemon.{
  Codec, CallParams, Server, MethodError, bad_params, not_encoded, call_failed, policy_denied,
  queue_failed, of_reply,
}

abbrev pub Answer : Type 0
Answer = Result MethodError Text

unfoldable pub encoded : Option Text → Answer
encoded none = err not_encoded
encoded (some v) = ok v

-- What the caller of Execute hands to RecordResult.
unfoldable pub execution_of : (Reply → Text) → Reply → Execution
execution_of describe (Reply.result v) = success v
execution_of describe (Reply.tool_error e) = error e
execution_of describe r = error (describe r)

-- The empty string is no filter.
unfoldable pub status_filter : Text → Option Status
unfolding ◌==◌
status_filter s =
    if s == []
    then none
    else if s == codes "pending"
    then some pending
    else if s == codes "approved"
    then some approved
    else if s == codes "denied"
    then some denied
    else if s == codes "executed"
    then some executed
    else if s == codes "failed"
    then some failed
    else some (other_status s)

-- parseIDParam
unfoldable pub parse_id_param : Codec → Text → Option Text
parse_id_param codec raw = elim (codec.decode_id raw) [
  | none ↦ none
  | some id ↦ if id == [] then none else some id
]

module _ {A W : Type 0} (host : Host A) (codec : Codec) (decider : Policy.Request → Verdict)
    (describe : Reply → Text) where
  unfoldable pub tools_list : Server A W → Server A W × Answer
  unfolding encoded list_tools
  tools_list s = (s, encoded (codec.encode_tools (list_tools s.registry)))

  unfoldable pub run_tool : Text → Text → Server A W → Server A W × Answer
  unfolding of_reply
  run_tool name arguments s =
      let (reply, w) = execute s.registry name arguments s.world in
      (record s { world = w }, of_reply reply)

  unfoldable pub queue_call :
      ℕ → List Text → CallParams → Text → Queue A → Server A W → Server A W × Answer
  unfolding encoded
  queue_call now draws p reason q s =
      let (q', r) =
        enqueue_with_call_id host now draws p.caller p.call_id p.name p.arguments reason q in
      elim r [
        | err e ↦ (record s { queue = some q' }, err (queue_failed e))
        | ok id ↦ (record s { queue = some q' }, encoded (codec.encode_pending id reason))
      ]

  -- The switch on the verdict.
  unfoldable pub decide_call :
      ℕ → List Text → CallParams → Verdict → Server A W → Server A W × Answer
  unfolding run_tool queue_call
  decide_call now draws p verdict s = elim verdict.decision [
    | allow ↦ run_tool p.name p.arguments s
    | deny ↦ (s, err (policy_denied verdict.reason))
    | confirm ↦ elim s.queue [
      | none ↦ (s, err (policy_denied (codes "approval queue is not available")))
      | some q ↦ queue_call now draws p verdict.reason q s
    ]
  ]

  unfoldable pub call_tool : ℕ → List Text → CallParams → Server A W → Server A W × Answer
  unfolding decide_call lookup_tool
  call_tool now draws p s =
      if p.name == [] then (s, err bad_params) else elim (lookup_tool s.registry p.name) [
        | none ↦ (s, err (call_failed (Reply.not_found p.name)))
        | some t ↦
            decide_call now draws p
              (decider (record { caller = p.caller; tool = t; params = p.arguments })) s
      ]

  unfoldable pub tools_call : ℕ → List Text → Text → Server A W → Server A W × Answer
  unfolding call_tool
  tools_call now draws raw s =
      if raw == [] then (s, err bad_params) else elim (codec.decode_call raw) [
        | none ↦ (s, err bad_params)
        | some p ↦ call_tool now draws p s
      ]

  -- The three methods below are registered only with a queue.
  unfoldable pub approval_list : Text → Queue A → Server A W → Server A W × Answer
  unfolding encoded status_filter
  approval_list raw q s =
      if raw == []
      then (s, encoded (codec.encode_entries (list none q)))
      else elim (codec.decode_status raw) [
        | none ↦ (s, err bad_params)
        | some status ↦ (s, encoded (codec.encode_entries (list (status_filter status) q)))
      ]

  unfoldable pub approval_get : Text → Queue A → Server A W → Server A W × Answer
  unfolding parse_id_param encoded
  approval_get raw q s = elim (parse_id_param codec raw) [
    | none ↦ (s, err bad_params)
    | some id ↦ elim (get q id) [
      | none ↦ (s, err (queue_failed (unknown_id id)))
      | some p ↦ (s, encoded (codec.encode_entry p))
    ]
  ]

  -- RecordResult after Execute, and the answer.
  unfoldable pub finish_approval : ℕ → Text → Reply → Queue A → Server A W → Server A W × Answer
  unfolding execution_of of_reply encoded
  finish_approval now id reply q s =
      let (q', final) = record_result host now id (execution_of describe reply) q in
      let s' = record s { queue = some q' } in
      elim final [
        | err e ↦ (s', err (queue_failed e))
        | ok p ↦ elim (of_reply reply) [
          | err e ↦ (s', err e)
          | ok v ↦ (s', encoded (codec.encode_entry p))
        ]
      ]

  unfoldable pub approve_id : ℕ → ℕ → Text → Queue A → Server A W → Server A W × Answer
  unfolding finish_approval
  approve_id now later id q s =
      let (q', r) = approve host now id q in
      elim r [
        | err e ↦ (record s { queue = some q' }, err (queue_failed e))
        | ok p ↦
            let (reply, w) = execute s.registry p.tool_name p.params s.world in
            finish_approval later id reply q' (record s { world = w })
      ]

  unfoldable pub approval_approve : ℕ → ℕ → Text → Queue A → Server A W → Server A W × Answer
  unfolding parse_id_param approve_id
  approval_approve now later raw q s = elim (parse_id_param codec raw) [
    | none ↦ (s, err bad_params)
    | some id ↦ approve_id now later id q s
  ]

  unfoldable pub deny_id : ℕ → Text → Text → Queue A → Server A W → Server A W × Answer
  unfolding encoded
  deny_id now id reason q s =
      let (q', r) = Queue.deny host now id reason q in
      elim r [
        | err e ↦ (record s { queue = some q' }, err (queue_failed e))
        | ok p ↦ (record s { queue = some q' }, encoded (codec.encode_entry p))
      ]

  unfoldable pub approval_deny : ℕ → Text → Queue A → Server A W → Server A W × Answer
  unfolding deny_id
  approval_deny now raw q s = elim (codec.decode_denial raw) [
    | none ↦ (s, err bad_params)
    | some (id, reason) ↦ if id == [] then (s, err bad_params) else deny_id now id reason q s
  ]
