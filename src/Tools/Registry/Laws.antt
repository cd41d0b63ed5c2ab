-- ===== src/Tools/Registry/Laws.antt =====
-- The invariant of the catalog, and what replacing and removing a source does to each name.
use qi.Base.{
  List, Text, Bool, true, false, ◌==◌, eq_iff, Option, none, some, ◌≡◌, ◌∙◌, ap, arith, lookup,
  is_some, IsMap, lookup-insert, lookup-erase_all, lookup-eq, erase_all-IsMap, insert-IsMap, inl,
  inr, Bool-cases, Option-cases,
}
use qi.Tools.{Tool, Source, SourceKind, source_local, source_mcp, source_skill, unknown, validate}
use qi.Tools.Registry.Batch.{names_of}
use qi.Tools.Registry.Dynamic.{
  check_batch_sound, put_all-IsMap, check_conflicts_sound, lookup-put_all, last_named, or_else,
  kept, lookup-erase_names,
}
use qi.Tools.Registry.{
  check_conflicts, check_batch, register_dynamic, replace_source, Registry, Handler, new_registry,
  register, register_with_handler, remove_source, add_tool, add_with_handler,
}

-- The kinds whose calls go to a handler.
abbrev pub is_handled : SourceKind → Bool
is_handled source_local = true
is_handled source_skill = true
is_handled source_mcp = false
is_handled (unknown n) = false

pub record IsWellFormed {W : Type 0} (r : Registry W) : Type 0 where
  pub unique : IsMap r.tools
  pub named : (n : Text) (t : Tool) → lookup n r.tools ≡ some t → t.name ≡ n
  pub validated : (n : Text) (t : Tool) → lookup n r.tools ≡ some t → validate t ≡ none
  pub owned :
      (n : Text) (h : Handler W)
      → lookup n r.handlers ≡ some h
      → (t : Tool) × (lookup n r.tools ≡ some t) × (is_handled t.source.kind ≡ true)

module _ {W : Type 0} where
  pub new_registry-IsWellFormed : IsWellFormed (new_registry {W = W})
  unfolding new_registry lookup
  new_registry-IsWellFormed = record {
    unique = tt;
    named = λ n t e. ground arith;
    validated = λ n t e. ground arith;
    owned = λ n h e. ground arith;
  }

  add_tool-IsWellFormed :
      (r : Registry W) (t : Tool)
      → validate t ≡ none
      → IsWellFormed r
      → IsWellFormed (add_tool r t).0
  unfolding add_tool
  add_tool-IsWellFormed r t v w = elim (Bool-cases (is_some (lookup t.name r.tools))) [
    | inl e ↦ rw e w
    | inr e ↦ rw e (record {
      unique = insert-IsMap t.name t r.tools w.unique;
      named =
          λ n u l. ground (arith, lookup-insert t.name n t r.tools, eq_iff t.name n, w.named n u);
      validated = λ n u l. ground (arith, lookup-insert t.name n t r.tools, w.validated n u);
      owned = λ n h l.
          let (u, there, k) = w.owned n h l in
          (
            u,
            ground (
              arith,
              lookup-insert t.name n t r.tools,
              eq_iff t.name n,
              there,
              lookup-eq t.name n r.tools,
            ),
            k,
          );
    })
  ]

  add_with_handler-IsWellFormed :
      (r : Registry W) (t : Tool) (h : Handler W)
      → validate t ≡ none
      → is_handled t.source.kind ≡ true
      → IsWellFormed r
      → IsWellFormed (add_with_handler r t h).0
  unfolding add_with_handler
  add_with_handler-IsWellFormed r t h v k w = elim (Bool-cases (is_some (lookup t.name r.tools))) [
    | inl e ↦ rw e w
    | inr e ↦ rw e (record {
      unique = insert-IsMap t.name t r.tools w.unique;
      named =
          λ n u l. ground (arith, lookup-insert t.name n t r.tools, eq_iff t.name n, w.named n u);
      validated = λ n u l. ground (arith, lookup-insert t.name n t r.tools, w.validated n u);
      owned = λ n g l. elim (Bool-cases (t.name == n)) [
        | inl same ↦ (t, ground (arith, lookup-insert t.name n t r.tools), k)
        | inr other ↦
            let (u, there, kind) =
              w.owned n g (ground (arith, lookup-insert t.name n h r.handlers)) in
            (u, ground (arith, lookup-insert t.name n t r.tools, there), kind)
      ];
    })
  ]

  pub register-IsWellFormed :
      (r : Registry W) (t : Tool) → IsWellFormed r → IsWellFormed (register r t).0
  unfolding register
  register-IsWellFormed r t w = elim (Option-cases (validate t)) [
    | inl e ↦ rw (e, register) (add_tool-IsWellFormed r t e w)
    | inr (x, e) ↦ rw (e, register) w
  ]

  pub register_with_handler-IsWellFormed :
      (r : Registry W) (t : Tool) (h : Option (Handler W))
      → is_handled t.source.kind ≡ true
      → IsWellFormed r
      → IsWellFormed (register_with_handler r t h).0
  unfolding register_with_handler
  register_with_handler-IsWellFormed r t none k w = w
  register_with_handler-IsWellFormed r t (some h) k w = elim (Option-cases (validate t)) [
    | inl e ↦ rw (e, register_with_handler) (add_with_handler-IsWellFormed r t h e k w)
    | inr (x, e) ↦ rw (e, register_with_handler) w
  ]

  pub lookup-remove_source :
      (r : Registry W) (s : Source) (n : Text)
      → IsMap r.tools
      → lookup n (remove_source r s).tools ≡ kept s (lookup n r.tools)
  unfolding remove_source
  lookup-remove_source r s n m = lookup-erase_names s n r.tools m

  pub remove_source-IsWellFormed :
      (r : Registry W) (s : Source) → IsWellFormed r → IsWellFormed (remove_source r s)
  unfolding remove_source
  remove_source-IsWellFormed r s w = record {
    unique = erase_all-IsMap (names_of s r.tools) r.tools w.unique;
    named = λ n u l. ground (arith, lookup-erase_names s n r.tools w.unique, w.named n u);
    validated = λ n u l. ground (arith, lookup-erase_names s n r.tools w.unique, w.validated n u);
    owned = λ n h l.
        let (u, there, kind) =
          w.owned n h (ground (arith, lookup-erase_all (names_of s r.tools) n r.handlers)) in
        (
          u,
          ground (
            arith,
            there,
            lookup-erase_all (names_of s r.tools) n r.handlers,
            lookup-erase_all (names_of s r.tools) n r.tools,
          ),
          kind,
        );
  }

  -- The rules for a name after its source was replaced by a batch.
  pub lookup-replace_source :
      (r : Registry W) (s : Source) (ts : List Tool) (n : Text)
      → IsMap r.tools
      → lookup n (replace_source r s ts).tools
        ≡ or_else (last_named n ts) (kept s (lookup n r.tools))
  unfolding replace_source
  lookup-replace_source r s ts n m =
      lookup-put_all ts n (remove_source r s).tools
      ∙ ap (or_else (last_named n ts)) (lookup-remove_source r s n m)

  replace_source-IsWellFormed :
      (r : Registry W) (s : Source) (ts : List Tool)
      → check_batch s ts ≡ none
      → check_conflicts r.tools s ts ≡ none
      → IsWellFormed r
      → IsWellFormed (replace_source r s ts)
  unfolding replace_source
  replace_source-IsWellFormed r s ts batch clear w =
      let after = remove_source-IsWellFormed r s w in
      let tools = (remove_source r s).tools in
      record {
        unique = put_all-IsMap ts tools after.unique;
        named = λ n u l. elim (Option-cases (last_named n ts)) [
          | inl e ↦ after.named n u (ground (arith, lookup-put_all ts n tools))
          | inr (v, e) ↦
              ground (arith, lookup-put_all ts n tools, check_batch_sound s ts n v batch e)
        ];
        validated = λ n u l. elim (Option-cases (last_named n ts)) [
          | inl e ↦ after.validated n u (ground (arith, lookup-put_all ts n tools))
          | inr (v, e) ↦
              ground (arith, lookup-put_all ts n tools, check_batch_sound s ts n v batch e)
        ];
        owned = λ n h l.
            let (u, there, kind) = after.owned n h l in
            elim (Option-cases (last_named n ts)) [
              | inl e ↦ (u, ground (arith, lookup-put_all ts n tools, there), kind)
              | inr (v, e) ↦ absurd (no_owner n u v there e)
            ];
      }
    where
      no_owner :
          (n : Text) (u v : Tool)
          → lookup n (remove_source r s).tools ≡ some u
          → last_named n ts ≡ some v
          → ⊥
      no_owner n u v there e = elim (Option-cases (lookup n r.tools)) [
        | inl none_there ↦ ground (arith, lookup-remove_source r s n w.unique)
        | inr (t, old) ↦ ground (
          arith,
          lookup-remove_source r s n w.unique,
          check_conflicts_sound r.tools s ts n v t clear e old,
        )
      ]

  pub register_dynamic-IsWellFormed :
      (r : Registry W) (s : Source) (ts : List Tool)
      → IsWellFormed r
      → IsWellFormed (register_dynamic r s ts).0
  unfolding register_dynamic
  register_dynamic-IsWellFormed r s ts w = elim (Option-cases (check_batch s ts)) [
    | inr (x, e) ↦ rw (e, register_dynamic) w
    | inl e ↦ elim (Option-cases (check_conflicts r.tools s ts)) [
      | inr (x, c) ↦ rw (e, c, register_dynamic) w
      | inl c ↦ rw (e, c, register_dynamic) (replace_source-IsWellFormed r s ts e c w)
    ]
  ]
