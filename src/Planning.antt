-- ===== src/Planning.antt =====
-- internal/service/plan_service.go: PlanBlocks. Minutes are natural numbers, as the parser of the
-- schedule gives them. `trim` and `lower` are strings.TrimSpace and strings.ToLower.
pub mod Slots
pub mod Blocks
use qi.Base.{
  ℕ, suc, ◌+◌, ◌-◌, Text, codes, ◌&&◌, ◌==◌, ltb, leb, Option, none, some, List, [], ◌∷◌, ◌++◌,
  length, take, drop, if◌then◌else◌, contains,
}
use qi.Domain.{Task}
use qi.Planning.Slots.{Interval, next_free_slot}

-- internal/calendar/schedule.go
pub record ScheduleEntry : Type 0 where
  pub start_min : ℕ
  pub end_min : ℕ
  pub title : Text
  pub project : Text

pub record PlanInput : Type 0 where
  pub tasks : List Task
  pub existing : List ScheduleEntry
  pub start_min : ℕ
  pub block_min : ℕ
  pub limit : ℕ

-- strings.TrimSuffix
unfoldable pub trim_suffix : Text → Text → Text
trim_suffix s suffix =
    if leb (length suffix) (length s) && drop (length s - length suffix) s == suffix
    then take (length s - length suffix) s
    else s

abbrev pub interval_of : ScheduleEntry → Interval
interval_of e = record { start = e.start_min; end = e.end_min }

abbrev pub block_at : ℕ → ℕ → Text × Text → ScheduleEntry
block_at start block t = record {
  start_min = start;
  end_min = start + block;
  title = t.0;
  project = t.1;
}

unfoldable pub occupied_by : List ScheduleEntry → List Interval
occupied_by [] = []
occupied_by (e ∷ es) = interval_of e ∷ occupied_by es

module _ (trim lower : Text → Text) where
  unfoldable pub normalize_title : Text → Text
  normalize_title s = lower (trim s)

  unfoldable pub split_task_title : Task → Text × Text
  unfolding trim_suffix
  split_task_title t =
      if t.project == []
      then (trim t.text, t.project)
      else (trim (trim_suffix (trim t.text) (codes "#" ++ t.project)), t.project)

  unfoldable pub titles_of : List ScheduleEntry → List Text
  unfolding normalize_title
  titles_of [] = []
  titles_of (e ∷ es) = normalize_title e.title ∷ titles_of es

  -- The loop over the tasks; `count` is len(planned), and the result is what it appends to planned.
  unfoldable pub plan_tasks :
      ℕ → ℕ → List Task → ℕ → List Interval → List Text → ℕ → Option (List ScheduleEntry)
  unfolding split_task_title normalize_title
  plan_tasks block limit [] count occupied scheduled cursor = some []
  plan_tasks block limit (task ∷ tasks) count occupied scheduled cursor =
      let t = split_task_title task in
      let skip = plan_tasks block limit tasks count occupied scheduled cursor in
      let placed : ℕ → Option (List ScheduleEntry) = λ start.
        plan_tasks block limit tasks (suc count)
          (occupied ++ (record { start = start; end = start + block }) ∷ [])
          (normalize_title t.0 ∷ scheduled) (start + block) in
      if ltb 0 limit && leb limit count
      then some []
      else if contains (normalize_title t.0) scheduled
      then skip
      else elim (next_free_slot cursor block occupied) [
        | none ↦ none
        | some start ↦ elim (placed start) [
          | none ↦ none
          | some es ↦ some (block_at start block t ∷ es)
        ]
      ]

  unfoldable pub plan_blocks : PlanInput → Option (List ScheduleEntry)
  unfolding plan_tasks occupied_by titles_of
  plan_blocks inp =
      plan_tasks inp.block_min inp.limit inp.tasks 0 (occupied_by inp.existing)
        (titles_of inp.existing) inp.start_min
