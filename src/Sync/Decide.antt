-- ===== src/Sync/Decide.antt =====
-- internal/sync/engine.go: Decide.
use qi.Base.{
  Text, not, ◌==◌, Option, none, some, List, [], ◌∷◌, ◌++◌, if◌then◌else◌, Dict, lookup, insert,
  contains,
}
use qi.Domain.{Task}
use qi.Sync.{SyncBase, Plan, tagged, tasks_of, all_ids}

unfoldable pub put_canon : Task → Plan → Plan
put_canon t plan = record plan {
  canon_by_project =
      insert t.project (tasks_of t.project plan.canon_by_project ++ t ∷ []) plan.canon_by_project;
}

unfoldable pub delete_base : Text → Plan → Plan
delete_base id plan = record plan { base_deletes = plan.base_deletes ++ id ∷ [] }

unfoldable pub add_conflict : Text → Text → Plan → Plan
add_conflict id project plan = record plan {
  conflicts = plan.conflicts ++ (record { id = id; project = project }) ∷ [];
}

-- Neither case of an id without a canon task writes one when there is a base.
unfoldable pub drop_missing : List Text → Text → Option Task → SyncBase → Plan → Plan
unfolding delete_base
drop_missing synced id op b plan =
    if not (contains b.project synced)
    then delete_base id plan
    else elim op [ none ↦ delete_base id plan | some p ↦ delete_base id plan ]

unfoldable pub pass_through : Text → Task → Option SyncBase → Plan → Plan
unfolding put_canon delete_base
pass_through id c ob plan = elim ob [
  | none ↦ put_canon c plan
  | some b ↦ delete_base id (put_canon c plan)
]

module _ (format : Task → Option Text) (synced : List Text) where
  unfoldable pub canonicalize : Task → Text
  canonicalize t = elim (format t) [ none ↦ [] | some line ↦ line ]

  unfoldable pub put_proj : Task → Plan → Plan
  put_proj t plan =
      if contains t.project synced
      then (record plan {
        proj_by_project =
            insert t.project (tasks_of t.project plan.proj_by_project ++ t ∷ [])
              plan.proj_by_project;
      })
      else plan

  unfoldable pub upsert_base : Task → Plan → Plan
  unfolding canonicalize
  upsert_base t plan = record plan {
    base_upserts =
        plan.base_upserts
        ++ (record { id = t.id; project = t.project; base_line = canonicalize t }) ∷ [];
  }

  unfoldable pub keep : Task → Plan → Plan
  unfolding put_canon put_proj
  keep t plan = put_proj t (put_canon t plan)

  unfoldable pub place : Task → Plan → Plan
  unfolding keep upsert_base
  place t plan = upsert_base t (keep t plan)

  unfoldable pub keep_both : Text → Task → Task → Plan → Plan
  unfolding put_canon put_proj add_conflict tagged
  keep_both id c p plan =
      add_conflict id c.project
        (put_proj (tagged p) (put_proj c (put_canon (tagged p) (put_canon c plan))))

  -- Case 3.
  unfoldable pub first_merge : Text → Task → Task → Plan → Plan
  unfolding place keep_both
  first_merge id c p plan =
      if canonicalize c == canonicalize p then place c plan else keep_both id c p plan

  -- Case 7.
  unfoldable pub merge : Text → Task → Task → Text → Plan → Plan
  unfolding place keep keep_both
  merge id c p base_line plan =
      if canonicalize c == canonicalize p
      then (if not (canonicalize c == base_line) then place c plan else keep c plan)
      else if base_line == canonicalize c
      then place p plan
      else if base_line == canonicalize p
      then place c plan
      else keep_both id c p plan

  -- An id with a canon task of a synced project.
  unfoldable pub decide_present : Text → Task → Option Task → Option SyncBase → Plan → Plan
  unfolding place first_merge merge delete_base
  decide_present id c op ob plan = elim ob [
    | none ↦ elim op [ none ↦ place c plan | some p ↦ first_merge id c p plan ]
    | some b ↦
        if not (c.project == b.project)
        then place c plan
        else elim op [ none ↦ delete_base id plan | some p ↦ merge id c p b.base_line plan ]
  ]

  -- An id without a canon task.
  unfoldable pub decide_missing : Text → Option Task → Option SyncBase → Plan → Plan
  unfolding place drop_missing
  decide_missing id op ob plan = elim ob [
    | none ↦ elim op [ none ↦ plan | some p ↦ place p plan ]
    | some b ↦ drop_missing synced id op b plan
  ]

  -- The body of the loop.
  unfoldable pub decide_id : Dict Task → Dict Task → Dict SyncBase → Text → Plan → Plan
  unfolding pass_through decide_present decide_missing
  decide_id canon proj base id plan = elim (lookup id canon) [
    | none ↦ decide_missing id (lookup id proj) (lookup id base) plan
    | some c ↦
        if not (contains c.project synced)
        then pass_through id c (lookup id base) plan
        else decide_present id c (lookup id proj) (lookup id base) plan
  ]

  unfoldable pub decide_ids : Dict Task → Dict Task → Dict SyncBase → List Text → Plan → Plan
  unfolding decide_id
  decide_ids canon proj base [] plan = plan
  decide_ids canon proj base (id ∷ ids) plan =
      decide_ids canon proj base ids (decide_id canon proj base id plan)

  unfoldable pub decide : Dict Task → Dict Task → Dict SyncBase → Plan
  unfolding decide_ids all_ids
  decide canon proj base = decide_ids canon proj base (all_ids canon proj base) (record {
    canon_by_project = [];
    proj_by_project = [];
    base_upserts = [];
    base_deletes = [];
    conflicts = [];
  })
