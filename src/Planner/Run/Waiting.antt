-- ===== src/Planner/Run/Waiting.antt =====
-- The calls of a turn, run in their order: the ids of their results, and those that wait.
use qi.Base.{
  ◌≡◌, refl, ap, ◌∙◌, arith, Text, true, ◌==◌, Option, none, some, List, [], ◌∷◌, ◌++◌, All, Dict,
  lookup, contains, inl, inr, ◌⊎◌, Result, ok, err,
}
use qi.Planner.{ToolCall, ToolResult, PendingCall, sanitize_tool_name}
use qi.Planner.Session.{valid_call_id}
use qi.Planner.Session.Fresh.{Fresh, Fresh-change, call_ids, result_ids, pending_ids}
use qi.Planner.Session.Passing.{IsBound}
use qi.Planner.Loop.{
  Host, PendingResult, Called, run_call, run_tool_calls, tool_named, is_pending, answered,
  answered_ok,
}

result_ids-append :
    (rs ts : List ToolResult) → result_ids (rs ++ ts) ≡ result_ids rs ++ result_ids ts
result_ids-append [] ts = refl
result_ids-append (r ∷ rs) ts = ap (λ ids. r.call_id ∷ ids) (result_ids-append rs ts)

module _ {W : Type 0} (host : Host W) (read_pending : Text → Option PendingResult) where
  answered_ok-cases :
      (c : ToolCall) (name : Text) (w : W) (raw : Text) (found : Option PendingResult)
      → let one = answered_ok host read_pending c name w raw found in
        (result_ids one.results ≡ c.id ∷ [])
        × ((one.pendings ≡ [])
            ⊎ ((q : PendingCall) × (one.pendings ≡ q ∷ [])
                × (q.call_id ≡ c.id)
                × (q.tool_name ≡ name)))
  answered_ok-cases c name w raw none = (refl, inl refl)
  answered_ok-cases c name w raw (some q) = (
    refl,
    inr (
      record { call_id = c.id; approval_id = q.approval_id; tool_name = name; reason = q.reason },
      refl,
      refl,
      refl,
    ),
  )

  answered-cases :
      (c : ToolCall) (name : Text) (w : W) (outcome : Result Text Text)
      → let one = answered host read_pending c name w outcome in
        (result_ids one.results ≡ c.id ∷ [])
        × ((one.pendings ≡ [])
            ⊎ ((q : PendingCall) × (one.pendings ≡ q ∷ [])
                × (q.call_id ≡ c.id)
                × (q.tool_name ≡ name)))
  answered-cases c name w (err x) = (refl, inl refl)
  answered-cases c name w (ok raw) = answered_ok-cases c name w raw (is_pending read_pending raw)

  abbrev pub calls_run : Text → Dict Text → List ToolCall → W → Called W
  calls_run caller names cs w = run_tool_calls host read_pending caller names cs w

  run_call-cases :
      (caller : Text) (names : Dict Text) (c : ToolCall) (w : W)
      → let one = run_call host read_pending caller names c w in
        (result_ids one.results ≡ c.id ∷ [])
        × ((one.pendings ≡ [])
            ⊎ ((q : PendingCall) × (one.pendings ≡ q ∷ [])
                × (q.call_id ≡ c.id)
                × (q.tool_name ≡ tool_named names c.name)))
  unfolding run_call
  run_call-cases caller names c w =
      let name : Text = tool_named names c.name in
      let told : W × Result Text Text = host.tool_call caller c.id name c.input w in
      answered-cases c name told.0 told.1

  pub run_ids :
      (caller : Text) (names : Dict Text) (cs : List ToolCall) (w : W)
      → result_ids (calls_run caller names cs w).results ≡ call_ids cs
  unfolding run_tool_calls
  run_ids caller names [] w = refl
  run_ids caller names (c ∷ cs) w =
      let one : Called W = run_call host read_pending caller names c w in
      let (ids, waits) = run_call-cases caller names c w in
      result_ids-append one.results (calls_run caller names cs one.world).results
      ∙ (rw (ids, run_ids caller names cs one.world) refl)

  -- The calls that wait, of which each one stands under its own id and under its tool's name.
  pub pendings_cons :
      (caller : Text) (names : Dict Text) (c : ToolCall) (cs : List ToolCall) (w : W)
      → let more =
          (calls_run caller names cs
            (run_call host read_pending caller names c w).world).pendings in
        ((calls_run caller names (c ∷ cs) w).pendings ≡ more)
        ⊎ ((q : PendingCall) × ((calls_run caller names (c ∷ cs) w).pendings ≡ q ∷ more)
            × (q.call_id ≡ c.id)
            × (q.tool_name ≡ tool_named names c.name))
  unfolding run_tool_calls
  pendings_cons caller names c cs w =
      let (ids, waits) = run_call-cases caller names c w in
      elim waits [ inl e ↦ inl (rw e refl) | inr (q, e, id, name) ↦ inr (q, rw e refl, id, name) ]

  pub pendings_known :
      (caller : Text) (names : Dict Text) (cs : List ToolCall) (w : W) (j : Text)
      → contains j (pending_ids (calls_run caller names cs w).pendings) ≡ true
      → contains j (call_ids cs) ≡ true
  unfolding run_tool_calls contains
  pendings_known caller names [] w j h = h
  pendings_known caller names (c ∷ cs) w j h =
      let ih =
        pendings_known caller names cs (run_call host read_pending caller names c w).world j in
      elim (pendings_cons caller names c cs w) [
        | inl e ↦ ground (arith, ih, ap (λ ps. contains j (pending_ids ps)) e)
        | inr (q, e, id, name) ↦
            ground (arith, ih, ap (λ ps. contains j (pending_ids ps)) e, ap (λ i. i == j) id)
      ]

  pub pendings-Fresh :
      (caller : Text) (names : Dict Text) (cs : List ToolCall) (w : W) (seen : List Text)
      → Fresh seen (call_ids cs)
      → Fresh seen (pending_ids (calls_run caller names cs w).pendings)
  unfolding run_tool_calls contains
  pendings-Fresh caller names [] w seen h = tt
  pendings-Fresh caller names (c ∷ cs) w seen (new, rest) =
      let later : W = (run_call host read_pending caller names c w).world in
      let ih = pendings-Fresh caller names cs later (c.id ∷ seen) rest in
      elim (pendings_cons caller names c cs w) [
        | inl e ↦ rw e (
            Fresh-change (c.id ∷ seen) seen (pending_ids (calls_run caller names cs later).pendings)
              ih (λ j a b. ground arith))
        | inr (q, e, id, name) ↦ rw (e, id) (new, ih)
      ]

  pub pendings-IsBound :
      (trim : Text → Text) (caller : Text) (names : Dict Text) (m : Dict ToolCall)
      (cs : List ToolCall) (w : W)
      → All
          (λ c.
            (lookup c.id m ≡ some c)
            × (valid_call_id c.id ≡ true)
            × ((sanitize_tool_name (tool_named names c.name) == c.name) ≡ true))
          cs
      → All (IsBound trim m) (calls_run caller names cs w).pendings
  unfolding run_tool_calls
  pendings-IsBound trim caller names m [] w all = tt
  pendings-IsBound trim caller names m (c ∷ cs) w ((there, valid, tool), all) =
      let ih =
        pendings-IsBound trim caller names m cs (run_call host read_pending caller names c w).world
          all in
      elim (pendings_cons caller names c cs w) [
        | inl e ↦ rw e ih
        | inr (q, e, id, name) ↦ rw e ((c, rw id there, rw id valid, rw name tool), ih)
      ]
