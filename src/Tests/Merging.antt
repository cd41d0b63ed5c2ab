-- ===== src/Tests/Merging.antt =====
-- One task on both sides, changed on one of them.
use qi.Base.{
  List, [], ◌∷◌, ◌++◌, Text, codes, ◌==◌, Option, none, some, ◌≡◌, refl, true, false, lookup, Dict,
  contains, arith, if◌then◌else◌,
}
use qi.Domain.{Task}
use qi.Sync.{SyncBase}
use qi.Sync.Decide.{decide, canonicalize}
use qi.Sync.Kept.{Written, unsynced_kept}
use qi.Sync.Edits.{main_edit_kept}
use qi.Sync.Settled.{IsSynced, Agree, synced_quiet}

abbrev task : Text → Task
task text = record {
  id = codes "qi-1";
  text = text;
  project = codes "home";
  tags = codes "home" ∷ [];
  due = none;
  scheduled = none;
  recurrence = [];
  parent_id = [];
  priority = [];
  completed = false;
  completed_at = none;
  file_path = [];
  line_number = 1;
}

abbrev line_of : Task → Option Text
line_of t = if t.text == [] then none else some (codes "- [ ] " ++ t.text)

abbrev tasks : Text → Dict Task
tasks text = (codes "qi-1", task text) ∷ []

abbrev base_row : SyncBase
base_row = record { id = codes "qi-1"; project = codes "home"; base_line = codes "- [ ] milk" }

abbrev base : Dict SyncBase
base = (codes "qi-1", base_row) ∷ []

abbrev home : List Text
home = codes "home" ∷ []

abbrev milk : Text
milk = codes "milk"

abbrev oats : Text
oats = codes "oats"

abbrev soap : Text
soap = codes "soap"

found : (text : Text) → lookup (codes "qi-1") (tasks text) ≡ some (task text)
unfolding lookup ◌==◌
found text = refl

found_base : lookup (codes "qi-1") base ≡ some base_row
unfolding lookup ◌==◌
found_base = refl

home_synced : contains (task milk).project home ≡ true
unfolding contains ◌==◌
home_synced = refl

home_unsynced : contains (task milk).project [] ≡ false
unfolding contains
home_unsynced = refl

oats_changed : (canonicalize line_of home (task oats) == base_row.base_line) ≡ false
unfolding canonicalize ◌==◌
oats_changed = refl

unsynced_kept_example : Written (task milk) (decide line_of [] (tasks milk) [] base)
unsynced_kept_example =
    unsynced_kept line_of [] (tasks milk) [] base (codes "qi-1") (task milk) (found milk)
      home_unsynced

main_edit_kept_example : Written (task oats) (decide line_of home (tasks oats) (tasks milk) base)
main_edit_kept_example =
    main_edit_kept line_of home (tasks oats) (tasks milk) base (codes "qi-1") (task oats)
      (task milk) base_row (found oats) (found milk) found_base home_synced oats_changed

agreed_at :
    (id : Text) (c : Task)
    → lookup id (tasks milk) ≡ some c
    → Agree line_of home c (lookup id (tasks milk)) (lookup id base)
unfolding lookup canonicalize contains ◌==◌
agreed_at id c e = record {
  is_synced = ground arith;
  projected = c;
  base = base_row;
  in_proj = e;
  in_base = ground arith;
  same_project = ground arith;
  same_line = refl;
  base_line = ground arith;
}

in_sync : IsSynced line_of home (tasks milk) (tasks milk) base
unfolding lookup
in_sync = record { agreed = agreed_at; no_other = λ id e. (e, ground arith) }

synced_quiet_example :
    ((decide line_of home (tasks milk) (tasks milk) base).base_upserts ≡ [])
    × ((decide line_of home (tasks milk) (tasks milk) base).base_deletes ≡ [])
    × ((decide line_of home (tasks milk) (tasks milk) base).conflicts ≡ [])
synced_quiet_example = synced_quiet line_of home (tasks milk) (tasks milk) base in_sync
