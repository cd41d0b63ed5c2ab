-- ===== src/Planner/Run/Gate.antt =====
-- The session that a run saves at the approval gate, against validateStoredSession.
use qi.Base.{
  ◌≡◌, refl, ◌∙◌, arith, Text, Bool, true, false, ◌&&◌, not, ◌==◌, Option, none, some, is_some,
  List, [], ◌∷◌, ◌++◌, All, Dict, lookup, contains, ok,
}
use qi.Failover.State.{ProviderState}
use qi.Planner.{ToolCall, ToolResult, PendingCall, Message, sanitize_tool_name}
use qi.Planner.Session.{
  valid_call_id, check_calls, check_results, check_pendings, check_complete, check_partition,
  last_message,
}
use qi.Planner.Session.Fresh.{
  Fresh, Fresh-change, call_ids, result_ids, pending_ids, index_calls, index_known, index_found,
}
use qi.Planner.Session.Passing.{
  IsStorable, IsNamed, IsBound, approval_ids, check_calls_ok, check_results_ok, check_pendings_ok,
  check_complete_ok,
}
use qi.Planner.Loop.{
  Host, PendingResult, Called, canonical_tool_calls, resolved_results, run_tool_calls, tool_named,
}
use qi.Planner.Run.Parts.{
  canonical_from_ok, IsCanonical, resolved_ids, resolved-Fresh, resolved-All,
}
use qi.Planner.Run.Waiting.{run_ids, pendings-Fresh, pendings-IsBound}

-- Results under ids that the map has.
results_known :
    (m : Dict ToolCall) (cs : List ToolCall) (rs : List ToolResult)
    → result_ids rs ≡ call_ids cs
    → All (λ c. (valid_call_id c.id ≡ true) × (is_some (lookup c.id m) ≡ true)) cs
    → All (λ r. (valid_call_id r.call_id ≡ true) × (is_some (lookup r.call_id m) ≡ true)) rs
results_known m cs [] h all = tt
results_known m [] (r ∷ rs) h all = absurd (cc h)
results_known m (c ∷ cs) (r ∷ rs) h ((valid, known), all) =
    let same : (r.call_id ≡ c.id) = cc in
    let more : (result_ids rs ≡ call_ids cs) = cc in
    ((rw same valid, rw same known), results_known m cs rs more all)

pub last_message_added : (ms : List Message) (m : Message) → last_message (ms ++ m ∷ []) ≡ some m
unfolding last_message
last_message_added [] m = refl
last_message_added (a ∷ []) m = refl
last_message_added (a ∷ b ∷ ms) m = last_message_added (b ∷ ms) m

module _ (trim : Text → Text) (canonical : Text → Option Text)
    (valid_provider : ProviderState → Bool) where
  check_partition_passes :
      (cs : List ToolCall) (rs : List ToolResult) (ps : List PendingCall) (m : Dict ToolCall)
      (done all : List Text)
      → check_calls trim canonical [] cs ≡ ok m
      → check_results m [] rs ≡ ok done
      → check_pendings trim m done [] ps ≡ ok all
      → check_complete all m ≡ none
      → check_partition trim canonical valid_provider cs rs ps ≡ none
  unfolding check_partition
  check_partition_passes cs rs ps m done all calls results pendings complete = ground arith

  -- The three lists agree: what the loops of the check ask of them.
  partition_ok :
      (cs : List ToolCall) (rs : List ToolResult) (ps : List PendingCall)
      → All (IsStorable trim canonical) cs
      → Fresh [] (call_ids cs)
      → All
          (λ r.
            (valid_call_id r.call_id ≡ true)
            × (is_some (lookup r.call_id (index_calls [] cs)) ≡ true))
          rs
      → Fresh [] (result_ids rs)
      → All (IsBound trim (index_calls [] cs)) ps
      → All (IsNamed trim) ps
      → Fresh [] (pending_ids ps)
      → Fresh [] (approval_ids ps)
      → ((j : Text)
          → contains j (result_ids rs)
            ≡ (contains j (call_ids cs) && not (contains j (pending_ids ps))))
      → check_partition trim canonical valid_provider cs rs ps ≡ none
  unfolding contains lookup
  partition_ok cs rs ps storable fresh known once bound named waiting approvals parts =
      let m : Dict ToolCall = index_calls [] cs in
      let calls = check_calls_ok trim canonical [] [] cs storable (λ id. refl) fresh in
      let (done, results, has) = check_results_ok m [] rs known once in
      let waits : Fresh done (pending_ids ps) =
        Fresh-change [] done (pending_ids ps) waiting
          (λ j a b. ground (arith, has j, parts j, a, b)) in
      let (all, pendings, holds) =
        check_pendings_ok trim m done [] ps bound named waits approvals in
      let complete =
        check_complete_ok all m
          (λ id e. ground (arith, holds id, has id, parts id, index_known [] cs id, e)) in
      check_partition_passes cs rs ps m done all calls results pendings complete

  module _ {W : Type 0} (host : Host W) (read_pending : Text → Option PendingResult)
      (again : (x y : Text) → canonical x ≡ some y → canonical y ≡ some y) where
    -- The call has a name, and the tool that is called for it has this sanitized name.
    abbrev pub IsProper : Dict Text → ToolCall → Type 0
    IsProper names c =
        ((trim c.name == []) ≡ false)
        × ((sanitize_tool_name (tool_named names c.name) == c.name) ≡ true)

    calls-IsStorable :
        (names : Dict Text) (cs : List ToolCall)
        → All (IsCanonical canonical again) cs
        → All (IsProper names) cs
        → All (IsStorable trim canonical) cs
    calls-IsStorable names [] good proper = tt
    calls-IsStorable names (c ∷ cs) ((valid, same), good) ((named, tool), proper) =
        ((valid, named, rw same refl), calls-IsStorable names cs good proper)

    each_bindable :
        (names : Dict Text) (m : Dict ToolCall) (cs : List ToolCall)
        → All (λ c. lookup c.id m ≡ some c) cs
        → All (IsCanonical canonical again) cs
        → All (IsProper names) cs
        → All
            (λ c.
              (lookup c.id m ≡ some c)
              × (valid_call_id c.id ≡ true)
              × ((sanitize_tool_name (tool_named names c.name) == c.name) ≡ true))
            cs
    each_bindable names m [] there good proper = tt
    each_bindable names m (c ∷ cs) (here, there) ((valid, same), good) ((named, tool), proper) =
        ((here, valid, tool), each_bindable names m cs there good proper)

    each_known :
        (m : Dict ToolCall) (cs : List ToolCall)
        → All (λ c. lookup c.id m ≡ some c) cs
        → All (IsCanonical canonical again) cs
        → All (λ c. (valid_call_id c.id ≡ true) × (is_some (lookup c.id m) ≡ true)) cs
    each_known m [] there good = tt
    each_known m (c ∷ cs) (here, there) ((valid, same), good) =
        ((valid, rw here refl), each_known m cs there good)

    pub run_partition :
        (caller : Text) (names : Dict Text) (calls cs : List ToolCall) (w : W)
        → canonical_tool_calls canonical calls ≡ ok cs
        → All (IsProper names) cs
        → let called = run_tool_calls host read_pending caller names cs w in
          All (IsNamed trim) called.pendings
          → Fresh [] (approval_ids called.pendings)
          → check_partition trim canonical valid_provider cs
              (resolved_results called.results called.pendings)
              called.pendings
            ≡ none
    unfolding canonical_tool_calls
    run_partition caller names calls cs w h proper named approvals =
        let called : Called W = run_tool_calls host read_pending caller names cs w in
        let (fresh, good) = canonical_from_ok canonical again [] calls cs h in
        let there = index_found [] cs [] fresh in
        let ids = run_ids host read_pending caller names cs w in
        partition_ok cs (resolved_results called.results called.pendings) called.pendings
          (calls-IsStorable names cs good proper) fresh
          (resolved-All
            (λ r.
              (valid_call_id r.call_id ≡ true)
              × (is_some (lookup r.call_id (index_calls [] cs)) ≡ true))
            called.results called.pendings
            (results_known (index_calls [] cs) cs called.results ids
              (each_known (index_calls [] cs) cs there good)))
          (resolved-Fresh called.results called.pendings [] (rw ids fresh))
          (pendings-IsBound host read_pending trim caller names (index_calls [] cs) cs w
            (each_bindable names (index_calls [] cs) cs there good proper))
          named (pendings-Fresh host read_pending caller names cs w [] fresh) approvals
          (λ j. resolved_ids called.results called.pendings j ∙ rw ids refl)
