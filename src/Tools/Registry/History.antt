-- ===== src/Tools/Registry/History.antt =====
-- The catalog after any sequence of registrations and removals.
use qi.Base.{
  inl, inr, Option-cases, Text, List, [], ◌∷◌, ◌≡◌, refl, Option, none, some, lookup, arith,
}
use qi.Tools.{Tool, Source, ToolError}
use qi.Tools.Registry.{
  check_conflicts, set_mcp_dispatcher, check_batch, unregister, register_skill, register_dynamic,
  new_registry, register_local, Registry, Handler, Dispatcher, register,
}
use qi.Tools.Registry.Laws.{
  remove_source-IsWellFormed, register_dynamic-IsWellFormed, register_with_handler-IsWellFormed,
  lookup-replace_source, register-IsWellFormed, new_registry-IsWellFormed, IsWellFormed,
}
use qi.Tools.Registry.Dynamic.{kept, last_named, or_else}

-- One call of a method that changes the catalog.
pub data Call (W : Type 0) : Type 0 where
  plain : Tool → Call W
  with_local : Tool → Option (Handler W) → Call W
  with_skill : Tool → Option (Handler W) → Call W
  dynamic : Source → List Tool → Call W
  removal : Source → Call W
  attach : Option (Dispatcher W) → Call W

module _ {W : Type 0} where
  unfoldable pub apply : Registry W → Call W → Registry W
  apply r (plain t) = (register r t).0
  apply r (with_local t h) = (register_local r t h).0
  apply r (with_skill t h) = (register_skill r t h).0
  apply r (dynamic s ts) = (register_dynamic r s ts).0
  apply r (removal s) = (unregister r s).0
  apply r (attach d) = set_mcp_dispatcher r d

  unfoldable pub run : Registry W → List (Call W) → Registry W
  unfolding apply
  run r [] = r
  run r (c ∷ cs) = run (apply r c) cs

  apply-IsWellFormed : (r : Registry W) (c : Call W) → IsWellFormed r → IsWellFormed (apply r c)
  unfolding apply register_local register_skill unregister set_mcp_dispatcher
  apply-IsWellFormed r (plain t) w = register-IsWellFormed r t w
  apply-IsWellFormed r (with_local t h) w = register_with_handler-IsWellFormed r _ h refl w
  apply-IsWellFormed r (with_skill t h) w = register_with_handler-IsWellFormed r _ h refl w
  apply-IsWellFormed r (dynamic s ts) w = register_dynamic-IsWellFormed r s ts w
  apply-IsWellFormed r (removal s) w = remove_source-IsWellFormed r s w
  apply-IsWellFormed r (attach d) w = record {
    unique = w.unique;
    named = w.named;
    validated = w.validated;
    owned = w.owned;
  }

  run-keeps : (r : Registry W) (cs : List (Call W)) → IsWellFormed r → IsWellFormed (run r cs)
  unfolding run
  run-keeps r [] w = w
  run-keeps r (c ∷ cs) w = run-keeps (apply r c) cs (apply-IsWellFormed r c w)

  -- After any sequence of calls on a new registry, every name stands once in the catalog, every
  -- entry stands under its own name and passes validation, and every handler belongs to a tool
  -- in the catalog whose kind is local or skill.
  pub run-IsWellFormed : (cs : List (Call W)) → IsWellFormed (run new_registry cs)
  run-IsWellFormed cs = run-keeps new_registry cs new_registry-IsWellFormed

  -- In a well-formed registry, a call of RegisterDynamic that reports no error leaves under each
  -- name the last tool of the batch with that name, or else the old entry unless it was of the
  -- batch's source.
  pub register_dynamic_lem :
      (r : Registry W) (s : Source) (ts : List Tool) (n : Text)
      → IsWellFormed r
      → (register_dynamic r s ts).1 ≡ none
      → lookup n (register_dynamic r s ts).0.tools
        ≡ or_else (last_named n ts) (kept s (lookup n r.tools))
  unfolding register_dynamic
  register_dynamic_lem r s ts n w done = elim (Option-cases (check_batch s ts)) [
    | inr (x, e) ↦ ground arith
    | inl e ↦ elim (Option-cases (check_conflicts r.tools s ts)) [
      | inr (x, c) ↦ ground arith
      | inl c ↦ rw (e, c, register_dynamic) (lookup-replace_source r s ts n w.unique)
    ]
  ]

  -- A call of RegisterDynamic that reports an error changes nothing.
  pub register_dynamic_atomic :
      (r : Registry W) (s : Source) (ts : List Tool) (e : ToolError)
      → (register_dynamic r s ts).1 ≡ some e
      → (register_dynamic r s ts).0 ≡ r
  unfolding register_dynamic
  register_dynamic_atomic r s ts e h = ground arith
