-- ===== src/Sync/Edits.antt =====
-- The merge of internal/sync/engine.go on a task that one side or both have changed.
use qi.Base.{
  Text, true, false, ◌==◌, eq_iff, Option, some, List, ◌≡◌, arith, Dict, lookup, contains,
}
use qi.Domain.{Task}
use qi.Sync.{SyncBase, Plan}
use qi.Sync.Decide.{canonicalize, merge, decide_present, decide_id, decide}
use qi.Sync.Kept.{Written, canon-Written, place_writes, keep_writes, keep_both_writes}

module _ (format : Task → Option Text) (synced : List Text) where
  merge_keeps_main :
      (id : Text) (c p : Task) (line : Text) (plan : Plan)
      → (canonicalize format synced c == line) ≡ false
      → Written c (merge format synced id c p line plan)
  unfolding merge
  merge_keeps_main id c p line plan changed = ground (
    arith,
    place_writes format synced c plan,
    keep_writes format synced c plan,
    keep_both_writes format synced id c p plan,
    eq_iff line (canonicalize format synced c),
    eq_iff (canonicalize format synced c) line,
  )

module _ (format : Task → Option Text) (synced : List Text) (canon proj : Dict Task)
    (base : Dict SyncBase) (id : Text) (c p : Task) (b : SyncBase)
    (in_canon : lookup id canon ≡ some c) (in_proj : lookup id proj ≡ some p)
    (in_base : lookup id base ≡ some b) (is_synced : contains c.project synced ≡ true) where
  -- A task of a synced project that both sides and the base have, and whose line in the main vault
  -- is not the line of the base, is written to its canon file as the main vault has it.
  pub main_edit_kept :
      (canonicalize format synced c == b.base_line) ≡ false
      → Written c (decide format synced canon proj base)
  unfolding decide_id decide_present
  main_edit_kept changed = canon-Written format synced canon proj base id c in_canon c (λ plan.
      rw (in_canon, is_synced, in_proj, in_base, decide_id)
        (ground (
          arith,
          place_writes format synced c plan,
          merge_keeps_main format synced id c p b.base_line plan changed,
        )))
