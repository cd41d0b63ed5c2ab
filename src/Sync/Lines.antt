-- ===== src/Sync/Lines.antt =====
-- The lines of a rendered file.
use qi.Base.{ℕ, suc, Text, ◌==◌, Option, List, [], ◌∷◌, if◌then◌else◌}
use qi.Domain.{Task}
use qi.Sync.Render.{line}

-- How often a line stands in a list of tasks.
module _ (format : Task → Option Text) (synced : List Text) where
  unfoldable pub count : Text → List Task → ℕ
  count l [] = 0
  count l (t ∷ ts) = let rest = count l ts in if line format synced t == l then suc rest else rest
