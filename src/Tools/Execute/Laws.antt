-- ===== src/Tools/Execute/Laws.antt =====
-- What a dispatched call can answer, and the name that an MCP server receives.
use mathlib.Core.List.{append_assoc}
use qi.Base.{
  codes, Bool, true, inr, lookup-insert, Option-cases, inl, eq_refl, length-append, ap, Text, [],
  ◌∷◌, ◌≡◌, ◌≢◌, refl, none, some, lookup, false, arith, ℕ, length, take, drop, ◌++◌,
}
use qi.Tools.{
  source_local, source_eq, source_mcp, unknown, kind_eq, validate_source, Tool, Source, SourceKind,
  validate,
}
use qi.Tools.Registry.{add_with_handler, unregister, register_local, Registry, Handler}
use qi.Tools.Registry.Laws.{lookup-remove_source, IsWellFormed}
use qi.Tools.Execute.{
  Outcome, of_outcome, mcp_prefix, namespaced_name, run_dispatcher, run_handler, dispatch,
  upstream_name, execute, Reply,
}

take-prefix : (p x : Text) → take (length p) (p ++ x) ≡ p
take-prefix [] x = refl
take-prefix (c ∷ p) x = ap (λ r. c ∷ r) (take-prefix p x)

drop-prefix : (p x : Text) → drop (length p) (p ++ x) ≡ x
drop-prefix [] x = refl
drop-prefix (c ∷ p) x = drop-prefix p x

name_parts :
    (id x : Text) → namespaced_name id x ≡ mcp_prefix (record { kind = source_mcp; id = id }) ++ x
unfolding namespaced_name
name_parts id x = ap (λ l. l ++ x) (append_assoc (codes "mcp.") id (codes "."))

upstream_name-namespaced_name :
    (id : Text) (c : ℕ) (x : Text)
    → upstream_name (namespaced_name id (c ∷ x)) (record { kind = source_mcp; id = id }) ≡ c ∷ x
unfolding upstream_name kind_eq
upstream_name-namespaced_name id c x =
    let p : Text = mcp_prefix (record { kind = source_mcp; id = id }) in
    rw (name_parts id (c ∷ x)) (
      ground
        (arith, length-append p (c ∷ x), take-prefix p (c ∷ x), drop-prefix p (c ∷ x), eq_refl p))

abbrev is_known : SourceKind → Bool
is_known (unknown n) = false
is_known k = true

validated_kind : (t : Tool) → validate t ≡ none → is_known t.source.kind ≡ true
unfolding validate validate_source
validated_kind t v = ground arith

module _ {W : Type 0} where
  dispatch_known :
      (r : Registry W) (t : Tool) (name params : Text) (w : W) (k : SourceKind)
      → validate t ≡ none
      → (dispatch r name t.source params w).0 ≢ Reply.unknown_source name k
  unfolding dispatch run_handler run_dispatcher of_outcome
  dispatch_known r t name params w k v e = ground (arith, validated_kind t)

  -- In a well-formed registry no call is answered by "unknown source kind".
  pub execute_known :
      (r : Registry W) (name params : Text) (w : W) (k : SourceKind)
      → IsWellFormed r
      → (execute r name params w).0 ≢ Reply.unknown_source name k
  unfolding execute
  execute_known r name params w k wf e = elim (Option-cases (lookup name r.tools)) [
    | inl missing ↦ ground arith
    | inr (t, there) ↦ dispatch_known r t name params w k (wf.validated name t there) (ground arith)
  ]

  -- Once RegisterLocal has accepted a tool with a handler, a call of the tool by name is the call
  -- of that handler.
  pub execute-register_local :
      (r : Registry W) (t : Tool) (h : Handler W) (params : Text) (w : W)
      → (register_local r t (some h)).1 ≡ none
      → execute (register_local r t (some h)).0 t.name params w ≡ of_outcome (h params w)
  unfolding execute register_local add_with_handler dispatch run_handler
  execute-register_local r t h params w done = ground (
    arith,
    eq_refl t.name,
    lookup-insert t.name t.name h r.handlers,
    lookup-insert t.name t.name (record t { source = record { kind = source_local; id = [] } })
        r.tools,
  )

  -- In a well-formed registry, after Unregister of a source, a call of a tool that it had is
  -- answered by "not found" and changes nothing outside.
  pub execute-unregister :
      (r : Registry W) (s : Source) (t : Tool) (name params : Text) (w : W)
      → IsWellFormed r
      → lookup name r.tools ≡ some t
      → source_eq t.source s ≡ true
      → execute (unregister r s).0 name params w ≡ (Reply.not_found name, w)
  unfolding execute unregister
  execute-unregister r s t name params w wf there same =
      ground (arith, lookup-remove_source r s name wf.unique)

  -- A call of a tool that stands in the registry under the name which the manager of the MCP servers
  -- gives it reaches the dispatcher, with the id of the server and the tool's own name, if that is not
  -- empty.
  pub execute-namespaced_name :
      (r : Registry W) (t : Tool) (d : Text → Text → Text → W → Outcome × W) (server : Text) (c : ℕ)
      (tool params : Text) (w : W)
      → lookup (namespaced_name server (c ∷ tool)) r.tools ≡ some t
      → t.source ≡ record { kind = source_mcp; id = server }
      → r.dispatcher ≡ some d
      → execute r (namespaced_name server (c ∷ tool)) params w
        ≡ of_outcome (d server (c ∷ tool) params w)
  unfolding execute dispatch run_dispatcher
  execute-namespaced_name r t d server c tool params w there source attached =
      ground (arith, ap (λ s. s.kind) source, upstream_name-namespaced_name server c tool)
