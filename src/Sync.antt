-- ===== src/Sync.antt =====
-- internal/sync/engine.go: the three-way merge of the main vault, the project vaults and the state
-- at the last sync. `format` is vault.FormatTaskLine, of which the merge compares results only.
pub mod Decide
pub mod Kept
pub mod Edits
pub mod Settled
pub mod Render
pub mod Lines
use qi.Domain.{Task}
use qi.Base.{
  Text, codes, ◌==◌, text_ltb, none, some, List, [], ◌∷◌, ◌++◌, if◌then◌else◌, Dict, lookup,
  contains,
}

-- internal/index/index.go
pub record SyncBase : Type 0 where
  pub id : Text
  pub project : Text
  pub base_line : Text

pub record Conflict : Type 0 where
  pub id : Text
  pub project : Text

pub record Plan : Type 0 where
  pub canon_by_project : Dict (List Task)
  pub proj_by_project : Dict (List Task)
  pub base_upserts : List SyncBase
  pub base_deletes : List Text
  pub conflicts : List Conflict

abbrev pub sync_conflict_tag : Text
sync_conflict_tag = codes "sync-conflict"

unfoldable pub tagged : Task → Task
unfolding contains
tagged t =
    if contains sync_conflict_tag t.tags
    then t
    else record t { tags = t.tags ++ sync_conflict_tag ∷ [] }

-- m[key], an empty slice when it is missing
unfoldable pub tasks_of : Text → Dict (List Task) → List Task
tasks_of key m = elim (lookup key m) [ none ↦ [] | some ts ↦ ts ]

-- idset[id] and sort.Strings: into a sorted list without duplicates.
unfoldable pub add_id : Text → List Text → List Text
add_id id [] = id ∷ []
add_id id (j ∷ js) =
    let later = j ∷ add_id id js in
    if id == j then j ∷ js else if text_ltb id j then id ∷ j ∷ js else later

unfoldable pub add_keys {ℓ} : {V : Type ℓ} → Dict V → List Text → List Text
unfolding add_id
add_keys [] ids = ids
add_keys ((k, v) ∷ m) ids = add_id k (add_keys m ids)

unfoldable pub all_ids : Dict Task → Dict Task → Dict SyncBase → List Text
unfolding add_keys
all_ids canon proj base = add_keys canon (add_keys proj (add_keys base []))
