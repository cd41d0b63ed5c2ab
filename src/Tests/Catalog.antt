-- ===== src/Tests/Catalog.antt =====
-- Registrations of a local tool and of the tools of an MCP server.
use qi.Base.{◌==◌, List, [], ◌∷◌, ◌++◌, Text, codes, none, some, ◌≡◌, refl, true, lookup, insert}
use qi.Tools.{Tool, Source, source_local, source_mcp, validate, source_mismatch, source_eq}
use qi.Tools.Registry.{
  Registry, Handler, returned, new_registry, register_local, register_dynamic, unregister,
}
use qi.Tools.Registry.Laws.{IsWellFormed}
use qi.Tools.Registry.Dynamic.{kept, last_named, or_else}
use qi.Tools.Registry.History.{
  Call, with_local, dynamic, run, run-IsWellFormed, register_dynamic_lem,
}
use qi.Tools.Execute.{Reply, execute, of_outcome, namespaced_name}
use qi.Tools.Execute.Laws.{execute-namespaced_name, execute-register_local, execute-unregister}

abbrev local : Source
local = record { kind = source_local; id = [] }

abbrev github : Source
github = record { kind = source_mcp; id = codes "gh" }

abbrev pub tool_of : Text → Source → Tool
tool_of name source = record {
  name = name;
  source = source;
  version = codes "1";
  mutating = true;
  description = [];
  schema = [];
}

abbrev pub add_task : Tool
add_task = tool_of (codes "task.add") local

abbrev issues : Tool
issues = tool_of (codes "mcp.gh.issues") github

-- The handler adds what it is given to the text outside.
abbrev pub writer : Handler Text
writer params w = (returned params, w ++ params)

abbrev history : List (Call Text)
history = with_local add_task (some writer) ∷ dynamic github (issues ∷ []) ∷ []

run-IsWellFormed_example : IsWellFormed (run new_registry history)
run-IsWellFormed_example = run-IsWellFormed history

batch_accepted : (register_dynamic (run new_registry history) github (issues ∷ [])).1 ≡ none
unfolding register_dynamic run register_local new_registry source_eq validate lookup insert
batch_accepted = refl

register_dynamic_lem_example :
    lookup issues.name (register_dynamic (run new_registry history) github (issues ∷ [])).0.tools
    ≡ or_else
        (last_named issues.name (issues ∷ []))
        (kept github (lookup issues.name (run new_registry history).tools))
register_dynamic_lem_example =
    register_dynamic_lem (run new_registry history) github (issues ∷ []) issues.name
      (run-IsWellFormed history) batch_accepted

batch_refused :
    (register_dynamic (run new_registry history) github (add_task ∷ [])).1
    ≡ some (source_mismatch add_task.name local github)
unfolding register_dynamic source_eq
batch_refused = refl

-- A dispatcher that answers with the name that it is asked for.
abbrev served : Registry Text
served = record {
  tools =
      (codes "mcp.gh.issues", record add_task { name = codes "mcp.gh.issues"; source = github })
      ∷ [];
  handlers = [];
  dispatcher = some (λ server name params w. (returned name, server));
}

served_there :
    lookup (namespaced_name (codes "gh") (codes "issues")) served.tools
    ≡ some (record add_task { name = codes "mcp.gh.issues"; source = github })
unfolding namespaced_name lookup ◌==◌
served_there = refl

execute-namespaced_name_example :
    execute served (namespaced_name (codes "gh") (codes "issues")) (codes "x") []
    ≡ of_outcome (returned (codes "issues"), codes "gh")
execute-namespaced_name_example =
    execute-namespaced_name served
      (record add_task { name = codes "mcp.gh.issues"; source = github })
      (λ server name params w. (returned name, server)) (codes "gh") 105 (codes "ssues") (codes "x")
      [] served_there refl refl

add_accepted : (register_local new_registry add_task (some writer)).1 ≡ none
unfolding register_local new_registry validate lookup
add_accepted = refl

execute-register_local_example :
    execute (register_local new_registry add_task (some writer)).0 (codes "task.add") (codes "x") []
    ≡ of_outcome (writer (codes "x") [])
execute-register_local_example =
    execute-register_local new_registry add_task writer (codes "x") [] add_accepted

issues_there : lookup issues.name (run new_registry history).tools ≡ some issues
unfolding run register_local new_registry lookup register_dynamic source_eq validate insert
issues_there = refl

github_same : source_eq issues.source github ≡ true
unfolding source_eq
github_same = refl

execute-unregister_example :
    execute (unregister (run new_registry history) github).0 issues.name (codes "x") []
    ≡ (Reply.not_found issues.name, [])
execute-unregister_example =
    execute-unregister (run new_registry history) github issues issues.name (codes "x") []
      (run-IsWellFormed history) issues_there github_same
