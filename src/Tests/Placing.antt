-- ===== src/Tests/Placing.antt =====
-- A day with one entry, and a task to place.
use qi.Base.{[], ◌∷◌, codes, none, false}
use qi.Planning.{PlanInput}
use qi.Planning.Slots.{Interval}

abbrev meeting : Interval
meeting = record { start = 550; end = 600 }

abbrev day : PlanInput
day = record {
  tasks =
      (record {
        id = [];
        text = codes "Buy milk #home";
        project = codes "home";
        tags = codes "home" ∷ [];
        due = none;
        scheduled = none;
        recurrence = [];
        parent_id = [];
        priority = [];
        completed = false;
        completed_at = none;
        file_path = [];
        line_number = 1;
      })
      ∷ [];
  existing =
      (record { start_min = 550; end_min = 600; title = codes "standup"; project = [] }) ∷ [];
  start_min = 540;
  block_min = 30;
  limit = 3;
}
