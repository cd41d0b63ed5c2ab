-- ===== src/Planner/Names.antt =====
-- buildToolDefs: the names under which a language model sees the tools, and the way back.
use qi.Base.{
  ◌≡◌, refl, ap, ◌∙◌, arith, Text, eq_iff, eq_refl, eq_sound, none, some, List, [], ◌∷◌, All, Dict,
  lookup, insert, lookup-insert, map, Option-cases, Result-cases, inl, inr, ok,
}
use qi.Planner.{CatalogTool, ToolDef, sanitize_tool_name, tool_def, tool_defs_from, build_tool_defs}
use qi.Planner.Loop.{tool_named}

tool_defs_cons :
    (names : Dict Text) (t : CatalogTool) (ts : List CatalogTool) (defs : List ToolDef)
    (out : Dict Text)
    → tool_defs_from names (t ∷ ts) ≡ ok (defs, out)
    → (lookup (sanitize_tool_name t.name) names ≡ none)
      × (more : List ToolDef) × (tool_defs_from (insert (sanitize_tool_name t.name) t.name names) ts
          ≡ ok (more, out))
      × (defs ≡ tool_def t ∷ more)
unfolding tool_defs_from
tool_defs_cons names t ts defs out h =
    elim (Option-cases (lookup (sanitize_tool_name t.name) names)) [
      | inr (v, e) ↦ ground arith
      | inl e ↦
          elim (Result-cases
            (tool_defs_from (insert (sanitize_tool_name t.name) t.name names) ts)) [
              | inr (x, k) ↦ ground arith
              | inl ((more, end), k) ↦ (e, more, ground arith, ground arith)
            ]
    ]

-- An entry of the map stays in it.
names_kept :
    (ts : List CatalogTool) (names : Dict Text) (defs : List ToolDef) (out : Dict Text) (k v : Text)
    → tool_defs_from names ts ≡ ok (defs, out)
    → lookup k names ≡ some v
    → lookup k out ≡ some v
unfolding tool_defs_from
names_kept [] names defs out k v h e = ground (arith, e, h)
names_kept (t ∷ ts) names defs out k v h e =
    let (new, more, rest, same) = tool_defs_cons names t ts defs out h in
    let api : Text = sanitize_tool_name t.name in
    names_kept ts (insert api t.name names) more out k v rest
      (ground (arith, lookup-insert api k t.name names, eq_iff api k, new, e))

-- Every entry of the map is of a name that is sanitized to its key.
names_sound :
    (ts : List CatalogTool) (names : Dict Text) (defs : List ToolDef) (out : Dict Text)
    → tool_defs_from names ts ≡ ok (defs, out)
    → ((k v : Text) → lookup k names ≡ some v → sanitize_tool_name v ≡ k)
    → (k v : Text) → lookup k out ≡ some v
    → sanitize_tool_name v ≡ k
unfolding tool_defs_from
names_sound [] names defs out h good k v e = good k v (ground (arith, e, h))
names_sound (t ∷ ts) names defs out h good k v e =
    let (new, more, rest, same) = tool_defs_cons names t ts defs out h in
    let api : Text = sanitize_tool_name t.name in
    names_sound ts (insert api t.name names) more out rest
      (λ i x l. ground (arith, lookup-insert api i t.name names, eq_sound api i, good i x, l)) k v e

defs_faithful :
    (ts : List CatalogTool) (names : Dict Text) (defs : List ToolDef) (out : Dict Text)
    → tool_defs_from names ts ≡ ok (defs, out)
    → (defs ≡ map tool_def ts) × All (λ t. lookup (sanitize_tool_name t.name) out ≡ some t.name) ts
unfolding tool_defs_from
defs_faithful [] names defs out h = (ground (arith, h), tt)
defs_faithful (t ∷ ts) names defs out h =
    let (new, more, rest, same) = tool_defs_cons names t ts defs out h in
    let api : Text = sanitize_tool_name t.name in
    let (listed, found) = defs_faithful ts (insert api t.name names) more out rest in
    (
      same ∙ ap (λ ds. tool_def t ∷ ds) listed,
      (
        names_kept ts (insert api t.name names) more out api t.name rest
            (lookup-insert api api t.name names ∙ (rw (eq_refl api) refl)),
        found,
      ),
    )

tool_named-some :
    (names : Dict Text) (k v : Text) → lookup k names ≡ some v → tool_named names k ≡ v
unfolding tool_named
tool_named-some names k v e = ground arith

tool_named-none : (names : Dict Text) (k : Text) → lookup k names ≡ none → tool_named names k ≡ k
unfolding tool_named
tool_named-none names k e = ground arith

each_named :
    (names : Dict Text) (ts : List CatalogTool)
    → All (λ t. lookup (sanitize_tool_name t.name) names ≡ some t.name) ts
    → All (λ t. tool_named names (tool_def t).name ≡ t.name) ts
each_named names [] h = tt
each_named names (t ∷ ts) (e, h) =
    (tool_named-some names (sanitize_tool_name t.name) t.name e, each_named names ts h)

-- When buildToolDefs succeeds, its definitions are those of the catalog's tools in their order, and a
-- call by the name in a definition goes to the tool that the definition was made of.
pub build_tool_defs_faithful :
    (catalog : List CatalogTool) (defs : List ToolDef) (names : Dict Text)
    → build_tool_defs catalog ≡ ok (defs, names)
    → (defs ≡ map tool_def catalog) × All (λ t. tool_named names (tool_def t).name ≡ t.name) catalog
unfolding build_tool_defs
build_tool_defs_faithful catalog defs names h =
    let (listed, found) = defs_faithful catalog [] defs names h in
    (listed, each_named names catalog found)

-- The tool that is called for a name without dots has that name when it is sanitized.
pub tool_named-sanitize :
    (catalog : List CatalogTool) (defs : List ToolDef) (names : Dict Text) (name : Text)
    → build_tool_defs catalog ≡ ok (defs, names)
    → sanitize_tool_name name ≡ name
    → sanitize_tool_name (tool_named names name) ≡ name
unfolding build_tool_defs lookup
tool_named-sanitize catalog defs names name h plain = elim (Option-cases (lookup name names)) [
  | inl e ↦ rw (tool_named-none names name e) plain
  | inr (v, e) ↦
      rw (tool_named-some names name v e)
        (names_sound catalog [] defs names h (λ k x l. ground arith) name v e)
]
