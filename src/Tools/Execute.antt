-- ===== src/Tools/Execute.antt =====
-- internal/tools/runtime.go: the dispatch of a call by the source of its tool; and NamespacedName of
-- internal/mcp/spec.go.
pub mod Laws
use qi.Base.{Text, codes, ◌&&◌, ◌==◌, ltb, none, some, ◌++◌, if◌then◌else◌, length, take, drop}
use qi.Tools.{Source, SourceKind, source_mcp, unknown, kind_eq}
use qi.Tools.Registry.{Registry, Outcome, returned, failed, lookup_tool, handler}

-- What `Execute` returns: the result of the tool, or an error of the dispatch itself.
pub data Reply : Type 0 where
  result : Text → Reply
  tool_error : Text → Reply
  not_found : Text → Reply
  no_handler : Text → SourceKind → Reply
  not_implemented : Source → Reply
  unknown_source : Text → SourceKind → Reply

unfoldable pub of_outcome : {W : Type 0} → Outcome × W → Reply × W
of_outcome (returned v, w) = (result v, w)
of_outcome (failed e, w) = (tool_error e, w)

abbrev pub mcp_prefix : Source → Text
mcp_prefix source = codes "mcp." ++ (source.id ++ codes ".")

unfoldable pub upstream_name : Text → Source → Text
upstream_name name source =
    if kind_eq source.kind source_mcp
    then (if ltb (length (mcp_prefix source)) (length name)
          && (take (length (mcp_prefix source)) name == mcp_prefix source)
        then drop (length (mcp_prefix source)) name
        else name)
    else name

-- The name under which the manager of internal/mcp registers a tool of a server: NamespacedName.
unfoldable pub namespaced_name : Text → Text → Text
namespaced_name server tool = codes "mcp." ++ server ++ codes "." ++ tool

module _ {W : Type 0} where
  unfoldable pub run_handler : Registry W → Text → SourceKind → Text → W → Reply × W
  unfolding handler of_outcome
  run_handler r name k params w = elim (handler r name) [
    | none ↦ (no_handler name k, w)
    | some h ↦ of_outcome (h params w)
  ]

  unfoldable pub run_dispatcher : Registry W → Text → Source → Text → W → Reply × W
  unfolding of_outcome
  run_dispatcher r name source params w = elim r.dispatcher [
    | none ↦ (not_implemented source, w)
    | some d ↦ of_outcome (d source.id (upstream_name name source) params w)
  ]

  unfoldable pub dispatch : Registry W → Text → Source → Text → W → Reply × W
  dispatch r name source params w = elim source.kind [
    | source_mcp ↦ run_dispatcher r name source params w
    | unknown n ↦ (unknown_source name (unknown n), w)
    | k ↦ run_handler r name k params w
  ]

  unfoldable pub execute : Registry W → Text → Text → W → Reply × W
  unfolding lookup_tool dispatch
  execute r name params w = elim (lookup_tool r name) [
    | none ↦ (not_found name, w)
    | some t ↦ dispatch r name t.source params w
  ]
