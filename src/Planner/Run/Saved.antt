-- ===== src/Planner/Run/Saved.antt =====
-- The session that a run saves at the approval gate is one that can be resumed.
use qi.Planner.Session.Fresh.{Fresh}
