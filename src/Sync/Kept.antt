-- ===== src/Sync/Kept.antt =====
-- The merge of internal/sync/engine.go: what a round writes, and the tasks of unsynced projects.
use qi.Base.{
  Text, true, false, ◌==◌, eq_iff, eq_refl, Option, none, some, List, [], ◌∷◌, ◌++◌, ◌≡◌, ◌⊎◌, ◌||◌,
  refl, arith, if◌then◌else◌, Dict, lookup, insert, lookup-insert, contains, inl, inr, Bool-cases,
  Option-cases,
}
use qi.Domain.{Task}
use qi.Sync.{SyncBase, Plan, tagged, tasks_of, all_ids, add_id, add_keys}
use qi.Sync.Decide.{
  put_canon, delete_base, add_conflict, drop_missing, canonicalize, put_proj, upsert_base, keep,
  place, keep_both, first_merge, merge, pass_through, decide_present, decide_missing, decide_id,
  decide_ids, decide,
}

abbrev pub Listed : Task → List Task → Type 0
Listed t [] = ⊥
Listed t (u ∷ us) = (u ≡ t) ⊎ Listed t us

-- A task that the plan writes to the canon file of its project.
abbrev pub Written : Task → Plan → Type 0
Written t plan = Listed t (tasks_of t.project plan.canon_by_project)

Listed-append_left : (t : Task) (us vs : List Task) → Listed t us → Listed t (us ++ vs)
Listed-append_left t [] vs h = absurd h
Listed-append_left t (u ∷ us) vs (inl e) = inl e
Listed-append_left t (u ∷ us) vs (inr h) = inr (Listed-append_left t us vs h)

Listed-append_last : (t : Task) (us : List Task) → Listed t (us ++ t ∷ [])
Listed-append_last t [] = inl refl
Listed-append_last t (u ∷ us) = inr (Listed-append_last t us)

tasks_of-insert :
    (k j : Text) (ts : List Task) (m : Dict (List Task))
    → tasks_of j (insert k ts m) ≡ (if k == j then ts else tasks_of j m)
unfolding tasks_of
tasks_of-insert k j ts m = ground (arith, lookup-insert k j ts m)

put_canon_writes : (t : Task) (plan : Plan) → Written t (put_canon t plan)
unfolding put_canon
put_canon_writes t plan =
    rw (tasks_of-insert, eq_refl) (Listed-append_last t (tasks_of t.project plan.canon_by_project))

put_canon_keeps : (t u : Task) (plan : Plan) → Written t plan → Written t (put_canon u plan)
unfolding put_canon
put_canon_keeps t u plan h = elim (Bool-cases (u.project == t.project)) [
  | inr e ↦ rw (tasks_of-insert, e) h
  | inl e ↦
      rw (tasks_of-insert, e)
        (Listed-append_left t (tasks_of u.project plan.canon_by_project) (u ∷ [])
          (rw ((eq_iff u.project t.project).0 e) h))
]

canon-put_proj :
    (format : Task → Option Text) (synced : List Text) (t : Task) (plan : Plan)
    → (put_proj format synced t plan).canon_by_project ≡ plan.canon_by_project
unfolding put_proj
canon-put_proj format synced t plan = ground arith

module _ (format : Task → Option Text) (synced : List Text) where
  pub keep_writes : (t : Task) (plan : Plan) → Written t (keep format synced t plan)
  unfolding keep
  keep_writes t plan = rw canon-put_proj (put_canon_writes t plan)

  keep_keeps : (t u : Task) (plan : Plan) → Written t plan → Written t (keep format synced u plan)
  unfolding keep
  keep_keeps t u plan h = rw canon-put_proj (put_canon_keeps t u plan h)

  pub place_writes : (t : Task) (plan : Plan) → Written t (place format synced t plan)
  unfolding place upsert_base
  place_writes t plan = keep_writes t plan

  place_keeps : (t u : Task) (plan : Plan) → Written t plan → Written t (place format synced u plan)
  unfolding place upsert_base
  place_keeps t u plan h = keep_keeps t u plan h

  keep_both_keeps :
      (t : Task) (id : Text) (c p : Task) (plan : Plan)
      → Written t plan
      → Written t (keep_both format synced id c p plan)
  unfolding keep_both add_conflict
  keep_both_keeps t id c p plan h =
      rw (canon-put_proj, canon-put_proj)
        (put_canon_keeps t (tagged p) (put_canon c plan) (put_canon_keeps t c plan h))

  pub keep_both_writes :
      (id : Text) (c p : Task) (plan : Plan)
      → Written c (keep_both format synced id c p plan)
        × Written (tagged p) (keep_both format synced id c p plan)
  unfolding keep_both add_conflict
  keep_both_writes id c p plan = (
    rw (canon-put_proj, canon-put_proj)
        (put_canon_keeps c (tagged p) (put_canon c plan) (put_canon_writes c plan)),
    rw (canon-put_proj, canon-put_proj) (put_canon_writes (tagged p) (put_canon c plan)),
  )

  first_merge_keeps :
      (t : Task) (id : Text) (c p : Task) (plan : Plan)
      → Written t plan
      → Written t (first_merge format synced id c p plan)
  unfolding first_merge
  first_merge_keeps t id c p plan h =
      elim (Bool-cases (canonicalize format synced c == canonicalize format synced p)) [
        | inl e ↦ rw (e, first_merge) (place_keeps t c plan h)
        | inr e ↦ rw (e, first_merge) (keep_both_keeps t id c p plan h)
      ]

  merge_keeps :
      (t : Task) (id : Text) (c p : Task) (line : Text) (plan : Plan)
      → Written t plan
      → Written t (merge format synced id c p line plan)
  unfolding merge
  merge_keeps t id c p line plan h = ground (
    arith,
    place_keeps t c plan h,
    place_keeps t p plan h,
    keep_keeps t c plan h,
    keep_both_keeps t id c p plan h,
  )

  decide_missing_keeps :
      (t : Task) (id : Text) (op : Option Task) (ob : Option SyncBase) (plan : Plan)
      → Written t plan
      → Written t (decide_missing format synced id op ob plan)
  unfolding decide_missing drop_missing delete_base
  decide_missing_keeps t id none none plan h = h
  decide_missing_keeps t id (some p) none plan h = place_keeps t p plan h
  decide_missing_keeps t id none (some b) plan h = ground (arith, h)
  decide_missing_keeps t id (some p) (some b) plan h = ground (arith, h)

  decide_present_keeps :
      (t : Task) (id : Text) (c : Task) (op : Option Task) (ob : Option SyncBase) (plan : Plan)
      → Written t plan
      → Written t (decide_present format synced id c op ob plan)
  unfolding decide_present delete_base
  decide_present_keeps t id c none none plan h = place_keeps t c plan h
  decide_present_keeps t id c (some p) none plan h = first_merge_keeps t id c p plan h
  decide_present_keeps t id c none (some b) plan h = ground (arith, h, place_keeps t c plan h)
  decide_present_keeps t id c (some p) (some b) plan h =
      ground (arith, place_keeps t c plan h, merge_keeps t id c p b.base_line plan h)

  pass_through_keeps :
      (t : Task) (id : Text) (c : Task) (ob : Option SyncBase) (plan : Plan)
      → Written t plan
      → Written t (pass_through id c ob plan)
  unfolding pass_through delete_base
  pass_through_keeps t id c none plan h = put_canon_keeps t c plan h
  pass_through_keeps t id c (some b) plan h = put_canon_keeps t c plan h

  decide_id_keeps :
      (canon proj : Dict Task) (base : Dict SyncBase) (id : Text) (t : Task) (plan : Plan)
      → Written t plan
      → Written t (decide_id format synced canon proj base id plan)
  unfolding decide_id
  decide_id_keeps canon proj base id t plan h = elim (Option-cases (lookup id canon)) [
    | inl e ↦ rw (e, decide_id) (decide_missing_keeps t id (lookup id proj) (lookup id base) plan h)
    | inr (c, e) ↦ elim (Bool-cases (contains c.project synced)) [
      | inl s ↦
          rw (e, s, decide_id)
            (decide_present_keeps t id c (lookup id proj) (lookup id base) plan h)
      | inr s ↦ rw (e, s, decide_id) (pass_through_keeps t id c (lookup id base) plan h)
    ]
  ]

  decide_ids_keeps :
      (canon proj : Dict Task) (base : Dict SyncBase) (ids : List Text) (t : Task) (plan : Plan)
      → Written t plan
      → Written t (decide_ids format synced canon proj base ids plan)
  unfolding decide_ids
  decide_ids_keeps canon proj base [] t plan h = h
  decide_ids_keeps canon proj base (id ∷ ids) t plan h =
      decide_ids_keeps canon proj base ids t (decide_id format synced canon proj base id plan)
        (decide_id_keeps canon proj base id t plan h)

  -- What the round for one of the ids writes is in the plan at the end.
  decide_ids_writes :
      (canon proj : Dict Task) (base : Dict SyncBase) (ids : List Text) (id : Text) (t : Task)
      (plan : Plan)
      → contains id ids ≡ true
      → ((before : Plan) → Written t (decide_id format synced canon proj base id before))
      → Written t (decide_ids format synced canon proj base ids plan)
  unfolding decide_ids contains
  decide_ids_writes canon proj base [] id t plan there w = cc
  decide_ids_writes canon proj base (k ∷ ids) id t plan there w = elim (Bool-cases (k == id)) [
    | inl e ↦
        decide_ids_keeps canon proj base ids t (decide_id format synced canon proj base k plan)
          (rw ((eq_iff k id).0 e) (w plan))
    | inr e ↦
        decide_ids_writes canon proj base ids id t (decide_id format synced canon proj base k plan)
          (ground (arith, there, e)) w
  ]

contains-add_id :
    (j id : Text) (ids : List Text) → contains j (add_id id ids) ≡ (id == j || contains j ids)
unfolding add_id contains
contains-add_id j id [] = refl
contains-add_id j id (k ∷ ks) =
    ground (arith, contains-add_id j id ks, eq_iff id k, eq_iff id j, eq_iff k j)

module _ {V : Type 0} where
  contains-add_keys :
      (j : Text) (v : V) (m : Dict V) (ids : List Text)
      → lookup j m ≡ some v
      → contains j (add_keys m ids) ≡ true
  unfolding lookup add_keys
  contains-add_keys j v [] ids e = cc
  contains-add_keys j v ((k, u) ∷ m) ids e = elim (Bool-cases (k == j)) [
    | inl same ↦ rw contains-add_id (ground (arith, same))
    | inr other ↦
        rw contains-add_id (ground (arith, other, contains-add_keys j v m ids (ground arith)))
  ]

module _ (format : Task → Option Text) (synced : List Text) (canon proj : Dict Task)
    (base : Dict SyncBase) (id : Text) (c : Task) (there : lookup id canon ≡ some c) where
  pub canon-Written :
      (t : Task)
      → ((before : Plan) → Written t (decide_id format synced canon proj base id before))
      → Written t (decide format synced canon proj base)
  unfolding decide all_ids
  canon-Written t w =
      decide_ids_writes format synced canon proj base _ id t _
        (contains-add_keys id c canon (add_keys proj (add_keys base [])) there) w

  -- A task of the main vault whose project is not synced is written to its canon file as it is,
  -- whatever the project vaults and the base hold under its id.
  pub unsynced_kept :
      contains c.project synced ≡ false → Written c (decide format synced canon proj base)
  unfolding decide_id pass_through delete_base
  unsynced_kept s =
      canon-Written c (λ plan. rw (there, s, decide_id) (written plan (lookup id base)))
    where
      written : (plan : Plan) (ob : Option SyncBase) → Written c (pass_through id c ob plan)
      written plan none = put_canon_writes c plan
      written plan (some b) = put_canon_writes c plan
