-- ===== src/Planning/Blocks.antt =====
-- The blocks that PlanBlocks of internal/service/plan_service.go places.
use qi.Base.{ℕ, suc, ◌+◌, ◌≡◌, Text, false, ◌&&◌, ltb, leb, List, [], ◌∷◌, ◌++◌, contains}
use qi.Planning.{ScheduleEntry, normalize_title, interval_of}
use qi.Planning.Slots.{Interval, IsFirstSlot}

module _ (trim lower : Text → Text) (block limit : ℕ) where
  -- Blocks that were placed one after the other: each in the first slot from the end of the block
  -- before it that overlaps neither an entry of the day nor an earlier block, under a title that
  -- neither of these has, and within the limit if there is one.
  abbrev pub Placed : ℕ → List Interval → List Text → ℕ → List ScheduleEntry → Type 0
  Placed count occupied scheduled cursor [] = Unit
  Placed count occupied scheduled cursor (e ∷ es) =
      (e.end_min ≡ e.start_min + block)
      × IsFirstSlot cursor block occupied e.start_min
      × (contains (normalize_title trim lower e.title) scheduled ≡ false)
      × ((ltb 0 limit && leb limit count) ≡ false)
      × Placed (suc count) (occupied ++ interval_of e ∷ [])
          (normalize_title trim lower e.title ∷ scheduled) e.end_min es
