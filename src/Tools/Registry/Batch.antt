-- ===== src/Tools/Registry/Batch.antt =====
-- internal/tools/registry.go: the loops of RegisterDynamic and Unregister over the tools of a source.
use qi.Base.{Text, Option, none, some, List, [], ◌∷◌, if◌then◌else◌, Dict, lookup, insert}
use qi.Tools.{Tool, Source, ToolError, validate, source_eq, source_mismatch, registered_by}

-- The first loop of `RegisterDynamic`.
unfoldable pub check_batch : Source → List Tool → Option ToolError
check_batch source [] = none
check_batch source (t ∷ ts) =
    let rest = check_batch source ts in
    if source_eq t.source source
    then elim (validate t) [ some e ↦ some e | none ↦ rest ]
    else some (source_mismatch t.name t.source source)

-- The second loop, behind the lock.
unfoldable pub check_conflicts : Dict Tool → Source → List Tool → Option ToolError
check_conflicts m source [] = none
check_conflicts m source (t ∷ ts) =
    let rest = check_conflicts m source ts in
    elim (lookup t.name m) [
      | none ↦ rest
      | some existing ↦
          if source_eq existing.source source
          then rest
          else some (registered_by t.name existing.source)
    ]

-- The names whose tool is of the source: the keys that the deleting loop visits.
unfoldable pub names_of : Source → Dict Tool → List Text
names_of source [] = []
names_of source ((n, t) ∷ m) =
    let rest = names_of source m in if source_eq t.source source then n ∷ rest else rest

-- The last loop: r.tools[t.Name] = t.
unfoldable pub put_all : List Tool → Dict Tool → Dict Tool
put_all [] m = m
put_all (t ∷ ts) m = put_all ts (insert t.name t m)
