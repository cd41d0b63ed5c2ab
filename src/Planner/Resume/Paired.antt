-- ===== src/Planner/Resume/Paired.antt =====
-- The tool results that a resumption hands to the language model.
use qi.Base.{
  ◌++◌, ◌⊎◌, ◌≡◌, sym, ap, ◌∙◌, arith, Text, Bool, eq_sound, Option, none, some, List, [], ◌∷◌,
  Dict, lookup, insert, lookup-insert, Result, ok, Result-cases, Option-cases, inl, inr,
}
use qi.Failover.State.{ProviderState}
use qi.Planner.{Message, ToolCall, ToolResult, PendingCall, StoredSession}
use qi.Planner.Loop.{Ran, Host, PlannerState, PendingResult}
use qi.Planner.Resume.{
  resumed_state, last_message, validate_stored_session, resume, answers, with_tools,
  pending_by_call, resume_calls, ResumeError, pending_of, results_by_call, resolve_calls,
  resolve_call, resolve_approval,
}
use qi.Planner.Resume.Binding.{IsResolved, resolve_approval_ok}

-- Every result of the map stands under its own call.
abbrev Keyed : Dict ToolResult → Type 0
Keyed m = (id : Text) (r : ToolResult) → lookup id m ≡ some r → r.call_id ≡ id

insert-Keyed : (r : ToolResult) (m : Dict ToolResult) → Keyed m → Keyed (insert r.call_id r m)
insert-Keyed r m h id x e =
    ground (arith, lookup-insert r.call_id id r m, eq_sound r.call_id id, h id x, e)

results_by_call-Keyed :
    (rs : List ToolResult) (m : Dict ToolResult) → Keyed m → Keyed (results_by_call m rs)
unfolding results_by_call
results_by_call-Keyed [] m h = h
results_by_call-Keyed (r ∷ rs) m h =
    results_by_call-Keyed rs (insert r.call_id r m) (insert-Keyed r m h)

-- The two lists have the same length, and the elements at each place are related.
abbrev pub Aligned : (ToolCall → ToolResult → Type 0) → List ToolCall → List ToolResult → Type 0
Aligned P [] [] = Unit
Aligned P [] (r ∷ rs) = ⊥
Aligned P (c ∷ cs) [] = ⊥
Aligned P (c ∷ cs) (r ∷ rs) = P c r × Aligned P cs rs

module _ {W : Type 0} (host : Host W) (canonical : Text → Option Text) (p : PlannerState)
    (read_pending : Text → Option PendingResult) (trim : Text → Text)
    (valid_provider : ProviderState → Bool) where
  -- What the model is told about a call: the result that was stored for it, or the outcome of its
  -- own approval.
  abbrev pub IsAnswer : Dict ToolResult → Dict PendingCall → ToolCall → ToolResult → Type 0
  IsAnswer results pendings c r =
      (r.call_id ≡ c.id)
      × ((lookup c.id results ≡ some r)
          ⊎ IsResolved host canonical p c (pending_of pendings c.id) r)

  resolve_call-stored :
      (results : Dict ToolResult) (pendings : Dict PendingCall) (c : ToolCall) (w : W)
      (r : ToolResult)
      → lookup c.id results ≡ some r
      → resolve_call host read_pending trim canonical valid_provider p results pendings c w
        ≡ (w, ok r)
  unfolding resolve_call
  resolve_call-stored results pendings c w r h = ground arith

  resolve_call-open :
      (results : Dict ToolResult) (pendings : Dict PendingCall) (c : ToolCall) (w : W)
      → lookup c.id results ≡ none
      → resolve_call host read_pending trim canonical valid_provider p results pendings c w
        ≡ resolve_approval host read_pending trim canonical valid_provider p c
            (pending_of pendings c.id)
            w
  unfolding resolve_call
  resolve_call-open results pendings c w h = ground arith

  resolve_call_ok :
      (results : Dict ToolResult) (pendings : Dict PendingCall) (c : ToolCall) (w : W)
      (r : ToolResult)
      → Keyed results
      → (resolve_call host read_pending trim canonical valid_provider p results pendings c w).1
        ≡ ok r
      → IsAnswer results pendings c r
  resolve_call_ok results pendings c w r keyed h = elim (Option-cases (lookup c.id results)) [
    | inr (x, e) ↦
        let same : (x ≡ r) = cc (resolve_call-stored results pendings c w x e) in
        (ap (λ y. y.call_id) (sym same) ∙ keyed c.id x e, inl (e ∙ ap some same))
    | inl e ↦
        let found =
          resolve_approval_ok host canonical p read_pending trim valid_provider c
            (pending_of pendings c.id) w r
            (ap (λ y. y.1) (sym (resolve_call-open results pendings c w e)) ∙ h) in
        (found.answers, inr found)
  ]

  abbrev Resolved :
      Dict ToolResult
      → Dict PendingCall
      → List ToolCall
      → W
      → W × Result ResumeError (List ToolResult)
  Resolved results pendings cs w =
      resolve_calls host read_pending trim canonical valid_provider p results pendings cs w

  resolve_calls_cons :
      (results : Dict ToolResult) (pendings : Dict PendingCall) (c : ToolCall) (cs : List ToolCall)
      (w : W) (rs : List ToolResult)
      → (Resolved results pendings (c ∷ cs) w).1 ≡ ok rs
      → (let one =
            resolve_call host read_pending trim canonical valid_provider p results pendings c w in
          (r : ToolResult) × (more : List ToolResult) × (one.1 ≡ ok r)
          × ((Resolved results pendings cs one.0).1 ≡ ok more)
          × (rs ≡ r ∷ more))
  unfolding resolve_calls
  resolve_calls_cons results pendings c cs w rs h =
      let one : W × Result ResumeError ToolResult =
        resolve_call host read_pending trim canonical valid_provider p results pendings c w in
      elim (Result-cases one.1) [
        | inr (x, e) ↦ ground arith
        | inl (r, e) ↦ elim (Result-cases (Resolved results pendings cs one.0).1) [
          | inr (x, k) ↦ ground arith
          | inl (more, k) ↦ (r, more, e, k, ground arith)
        ]
      ]

  resolve_calls-Aligned :
      (results : Dict ToolResult) (pendings : Dict PendingCall) (cs : List ToolCall) (w : W)
      (rs : List ToolResult)
      → Keyed results
      → (Resolved results pendings cs w).1 ≡ ok rs
      → Aligned (IsAnswer results pendings) cs rs
  unfolding resolve_calls
  resolve_calls-Aligned results pendings [] w [] keyed h = tt
  resolve_calls-Aligned results pendings [] w (r ∷ rs) keyed h = absurd (cc h)
  resolve_calls-Aligned results pendings (c ∷ cs) w rs keyed h =
      let (r, more, first, rest, same) = resolve_calls_cons results pendings c cs w rs h in
      rw same (
        resolve_call_ok results pendings c w r keyed first,
        resolve_calls-Aligned results pendings cs
            (resolve_call host read_pending trim canonical valid_provider p results pendings c w).0
            more keyed rest,
      )

resume_calls_ok :
    {W : Type 0} (host : Host W) (read_pending : Text → Option PendingResult) (trim : Text → Text)
    (canonical : Text → Option Text) (valid_provider : ProviderState → Bool) (p : PlannerState)
    (s : StoredSession) (calls : List ToolCall) (w : W) (ran : Ran W)
    → (resume_calls host read_pending trim canonical valid_provider p s calls w).1 ≡ ok ran
    → (rs : List ToolResult) × (let done =
          resolve_calls host read_pending trim canonical valid_provider p
            (results_by_call [] s.results)
            (pending_by_call [] s.pending)
            calls
            w in
        (done.1 ≡ ok rs)
        × (ran
            ≡ with_tools host read_pending trim canonical p (s.messages ++ answers rs ∷ []) done.0))
unfolding resume_calls
resume_calls_ok host read_pending trim canonical valid_provider p s calls w ran h =
    elim (Result-cases
      (resolve_calls host read_pending trim canonical valid_provider p
        (results_by_call [] s.results) (pending_by_call [] s.pending) calls w).1) [
          | inr (x, e) ↦ ground arith
          | inl (rs, e) ↦ (rs, (e, ground arith))
        ]

-- A resumption that reaches the language model again was given a valid session. It hands over the
-- session's messages and one more, with one result for each call of the last turn, in the order of
-- the calls and under their ids. Each is the result that the session holds for the call, or says how
-- an approval was settled that is bound to this call, caller, tool and parameters.
pub resume_lem :
    {W : Type 0} (host : Host W) (read_pending : Text → Option PendingResult) (trim : Text → Text)
    (canonical : Text → Option Text) (valid_provider : ProviderState → Bool) (p : PlannerState)
    (s : StoredSession) (w : W) (ran : Ran W)
    → (resume host read_pending trim canonical valid_provider p s w).1 ≡ ok ran
    → (validate_stored_session trim canonical valid_provider s ≡ none)
      × (last : Message) × (rs : List ToolResult) × (w' : W) × (last_message s.messages ≡ some last)
      × Aligned
          (IsAnswer host canonical
            (resumed_state p s)
            read_pending
            trim
            valid_provider
            (results_by_call [] s.results)
            (pending_by_call [] s.pending))
          last.tool_calls
          rs
      × (ran
          ≡ with_tools host read_pending trim canonical
              (resumed_state p s)
              (s.messages ++ answers rs ∷ [])
              w')
unfolding resume results_by_call lookup
resume_lem host read_pending trim canonical valid_provider p s w ran h =
    elim (Option-cases (validate_stored_session trim canonical valid_provider s)) [
      | inr (x, e) ↦ ground arith
      | inl valid ↦ elim (Option-cases (last_message s.messages)) [
        | inl e ↦ ground arith
        | inr (last, e) ↦
            let q : PlannerState = resumed_state p s in
            let found =
              resume_calls_ok host read_pending trim canonical valid_provider q s last.tool_calls w
                ran (ground arith) in
            (
              valid,
              last,
              found.0,
              (resolve_calls host read_pending trim canonical valid_provider q
                  (results_by_call [] s.results) (pending_by_call [] s.pending) last.tool_calls
                  w).0,
              e,
              resolve_calls-Aligned host canonical q read_pending trim valid_provider
                  (results_by_call [] s.results) (pending_by_call [] s.pending) last.tool_calls w
                  found.0 (results_by_call-Keyed s.results [] (λ id r k. ground arith)) found.1.0,
              found.1.1,
            )
      ]
    ]
