-- ===== src/Tools/Registry.antt =====
-- internal/tools/registry.go: the catalog, its handlers and the dispatcher for MCP tools.
-- `W` is the state outside of the process (the vault, the MCP servers); a handler is a function
-- that may change it. The mutex makes each method one step.
pub mod Batch
pub mod Laws
pub mod Dynamic
pub mod History
use qi.Tools.Registry.Batch.{check_batch, check_conflicts, names_of, put_all}
use qi.Base.{
  ℕ, Text, text_ltb, Option, none, some, List, [], ◌∷◌, if◌then◌else◌, Dict, lookup, insert,
  erase_all, length, is_some,
}
use qi.Tools.{
  Tool, Source, ToolError, validate, source_local, source_skill, nil_handler, already_registered,
}

-- The JSON result of a call, or the text of its error.
pub data Outcome : Type 0 where
  returned : Text → Outcome
  failed : Text → Outcome

abbrev pub Handler : Type 0 → Type 0
Handler W = Text → W → Outcome × W

-- server id, upstream tool name, parameters
abbrev pub Dispatcher : Type 0 → Type 0
Dispatcher W = Text → Text → Text → W → Outcome × W

pub record Registry (W : Type 0) : Type 0 where
  pub tools : Dict Tool
  pub handlers : Dict (Handler W)
  pub dispatcher : Option (Dispatcher W)

module _ {W : Type 0} where
  unfoldable pub new_registry : Registry W
  new_registry = record { tools = []; handlers = []; dispatcher = none }

  -- The bodies behind the lock: the second part is the error.
  unfoldable pub add_tool : Registry W → Tool → Registry W × Option ToolError
  add_tool r t =
      if is_some (lookup t.name r.tools)
      then (r, some (already_registered t.name))
      else (record r { tools = insert t.name t r.tools }, none)

  unfoldable pub register : Registry W → Tool → Registry W × Option ToolError
  unfolding add_tool
  register r t = elim (validate t) [ some e ↦ (r, some e) | none ↦ add_tool r t ]

  unfoldable pub add_with_handler : Registry W → Tool → Handler W → Registry W × Option ToolError
  add_with_handler r t h =
      if is_some (lookup t.name r.tools) then (r, some (already_registered t.name)) else (
        record r { tools = insert t.name t r.tools; handlers = insert t.name h r.handlers },
        none,
      )

  -- `none` is a nil handler.
  unfoldable pub register_with_handler :
      Registry W → Tool → Option (Handler W) → Registry W × Option ToolError
  unfolding add_with_handler
  register_with_handler r t none = (r, some (nil_handler t.name))
  register_with_handler r t (some h) = elim (validate t) [
    | some e ↦ (r, some e)
    | none ↦ add_with_handler r t h
  ]

  unfoldable pub register_local :
      Registry W → Tool → Option (Handler W) → Registry W × Option ToolError
  unfolding register_with_handler
  register_local r t h =
      register_with_handler r (record t { source = record { kind = source_local; id = [] } }) h

  unfoldable pub register_skill :
      Registry W → Tool → Option (Handler W) → Registry W × Option ToolError
  unfolding register_with_handler
  register_skill r t h =
      register_with_handler r (record t { source = record { kind = source_skill; id = [] } }) h

  unfoldable pub remove_source : Registry W → Source → Registry W
  unfolding names_of erase_all
  remove_source r source =
      let ns = names_of source r.tools in
      record r { tools = erase_all ns r.tools; handlers = erase_all ns r.handlers }

  unfoldable pub replace_source : Registry W → Source → List Tool → Registry W
  unfolding remove_source put_all
  replace_source r source ts =
      let r' = remove_source r source in record r' { tools = put_all ts r'.tools }

  unfoldable pub register_dynamic : Registry W → Source → List Tool → Registry W × Option ToolError
  unfolding replace_source check_batch check_conflicts
  register_dynamic r source ts = elim (check_batch source ts) [
    | some e ↦ (r, some e)
    | none ↦ elim (check_conflicts r.tools source ts) [
      | some e ↦ (r, some e)
      | none ↦ (replace_source r source ts, none)
    ]
  ]

  unfoldable pub unregister : Registry W → Source → Registry W × ℕ
  unfolding remove_source
  unregister r source = (remove_source r source, length (names_of source r.tools))

  unfoldable pub lookup_tool : Registry W → Text → Option Tool
  lookup_tool r name = lookup name r.tools

  unfoldable pub handler : Registry W → Text → Option (Handler W)
  handler r name = lookup name r.handlers

  unfoldable pub len : Registry W → ℕ
  len r = length r.tools

  unfoldable pub set_mcp_dispatcher : Registry W → Option (Dispatcher W) → Registry W
  set_mcp_dispatcher r d = record r { dispatcher = d }

-- sort.Slice by name; names are distinct, so the result is determined.
insert_sorted : Tool → List Tool → List Tool
insert_sorted t [] = t ∷ []
insert_sorted t (u ∷ us) =
    let later = u ∷ insert_sorted t us in if text_ltb u.name t.name then later else t ∷ u ∷ us

sort_tools : List Tool → List Tool
unfolding insert_sorted
sort_tools [] = []
sort_tools (t ∷ ts) = insert_sorted t (sort_tools ts)

unfoldable pub values {ℓ} : {V : Type ℓ} → Dict V → List V
values [] = []
values ((k, v) ∷ m) = v ∷ values m

unfoldable pub list_tools : {W : Type 0} → Registry W → List Tool
unfolding sort_tools values
list_tools r = sort_tools (values r.tools)
