-- ===== src/Drain/Stopped.antt =====
-- A pass over the remote queue that ends at a row whose write fails.
use qi.Base.{◌≡◌, ℕ, Text, Bool, Option, some, List, ◌∷◌, ◌++◌, ok}
use qi.Drain.{RemoteTask, DrainError, not_written, Services, Write, Passed}
use qi.Drain.Accounted.{taken, Written, passed, performed, routed}

module _ (trim : Text → Text) (parse_date : Text → Option ℕ)
    (is_client : Option (Text → Bool)) where
  module _ {W : Type 0} (services : Services W) where
    -- Where a pass stopped: the rows before were written or rejected, and this row's write failed.
    pub record Stop (rs : List RemoteTask) (w : W) (y : DrainError) (end : W) : Type 0 where
      pub before : List RemoteTask
      pub row : RemoteTask
      pub later : List RemoteTask
      pub act : Write
      pub reached : W
      pub reason : Text
      pub splits : rs ≡ before ++ row ∷ later
      pub wrote :
          Written trim parse_date is_client services
            (taken trim parse_date is_client before)
            w
            reached
      pub act_of : routed trim parse_date is_client row ≡ ok act
      pub failed : performed trim parse_date is_client services act reached ≡ (end, some reason)
      pub named : y ≡ not_written row.id reason

    abbrev passing : List RemoteTask → W → Passed W
    passing rs w = passed trim parse_date is_client services rs w
