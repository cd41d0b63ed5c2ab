-- ===== src/Sync/Settled.antt =====
-- The merge of internal/sync/engine.go on sides that agree with the base.
use qi.Base.{
  Text, true, eq_iff, Option, none, some, List, [], ◌∷◌, ◌≡◌, refl, arith, Dict, lookup, contains,
  inl, inr, Option-cases,
}
use qi.Domain.{Task}
use qi.Sync.{SyncBase, Plan, all_ids}
use qi.Sync.Decide.{
  canonicalize, keep, put_canon, put_proj, merge, decide_missing, decide_present, decide_id,
  decide_ids, decide,
}

module _ (format : Task → Option Text) (synced : List Text) where
  -- Both sides and the base agree on a task.
  pub record Agree (c : Task) (op : Option Task) (ob : Option SyncBase) : Type 0 where
    pub is_synced : contains c.project synced ≡ true
    pub projected : Task
    pub base : SyncBase
    pub in_proj : op ≡ some projected
    pub in_base : ob ≡ some base
    pub same_project : c.project ≡ base.project
    pub same_line : canonicalize format synced c ≡ canonicalize format synced projected
    pub base_line : canonicalize format synced c ≡ base.base_line

  pub record IsSynced (canon proj : Dict Task) (base : Dict SyncBase) : Type 0 where
    pub agreed :
        (id : Text) (c : Task)
        → lookup id canon ≡ some c
        → Agree c (lookup id proj) (lookup id base)
    pub no_other :
        (id : Text) → lookup id canon ≡ none → (lookup id proj ≡ none) × (lookup id base ≡ none)

  abbrev Quiet : Plan → Type 0
  Quiet plan = (plan.base_upserts ≡ []) × (plan.base_deletes ≡ []) × (plan.conflicts ≡ [])

  keep-Quiet : (t : Task) (plan : Plan) → Quiet plan → Quiet (keep format synced t plan)
  unfolding keep put_canon put_proj
  keep-Quiet t plan q = ground (arith, q)

  agree-Quiet :
      (id : Text) (c p : Task) (b : SyncBase) (plan : Plan)
      → c.project ≡ b.project
      → canonicalize format synced c ≡ canonicalize format synced p
      → canonicalize format synced c ≡ b.base_line
      → Quiet plan
      → Quiet (decide_present format synced id c (some p) (some b) plan)
  unfolding decide_present merge
  agree-Quiet id c p b plan same_project same_line line q = ground (
    arith,
    eq_iff c.project b.project,
    eq_iff (canonicalize format synced c) (canonicalize format synced p),
    eq_iff (canonicalize format synced c) b.base_line,
    keep-Quiet c plan q,
  )

  decide_id-Quiet :
      (canon proj : Dict Task) (base : Dict SyncBase) (id : Text) (plan : Plan)
      → IsSynced canon proj base
      → Quiet plan
      → Quiet (decide_id format synced canon proj base id plan)
  unfolding decide_id decide_missing
  decide_id-Quiet canon proj base id plan s q = elim (Option-cases (lookup id canon)) [
    | inl e ↦ rw (e, (s.no_other id e).0, (s.no_other id e).1, decide_id) q
    | inr (c, e) ↦
        let a = s.agreed id c e in
        rw (e, a.is_synced, a.in_proj, a.in_base, decide_id)
          (agree-Quiet id c a.projected a.base plan a.same_project a.same_line a.base_line q)
  ]

  decide_ids-Quiet :
      (canon proj : Dict Task) (base : Dict SyncBase) (ids : List Text) (plan : Plan)
      → IsSynced canon proj base
      → Quiet plan
      → Quiet (decide_ids format synced canon proj base ids plan)
  unfolding decide_ids
  decide_ids-Quiet canon proj base [] plan s q = q
  decide_ids-Quiet canon proj base (id ∷ ids) plan s q =
      decide_ids-Quiet canon proj base ids (decide_id format synced canon proj base id plan) s
        (decide_id-Quiet canon proj base id plan s q)

  -- Where both sides and the base have the same ids, with the same lines and projects, and the
  -- projects are synced, the merge changes nothing in the base and reports no conflict.
  pub synced_quiet :
      (canon proj : Dict Task) (base : Dict SyncBase)
      → IsSynced canon proj base
      → let plan = decide format synced canon proj base in
        (plan.base_upserts ≡ []) × (plan.base_deletes ≡ []) × (plan.conflicts ≡ [])
  unfolding decide
  synced_quiet canon proj base s =
      decide_ids-Quiet canon proj base (all_ids canon proj base) _ s (refl, refl, refl)
