-- ===== src/Sync/Render.antt =====
-- internal/sync/render.go: renderFile and needsWrite.
use qi.Base.{
  ℕ, suc, Text, Bool, true, false, not, ◌==◌, ltb, text_ltb, Option, none, some, List, [], ◌∷◌,
  ◌++◌, if◌then◌else◌, contains,
}
use qi.Domain.{Task}
use qi.Sync.Decide.{canonicalize}

-- priorPos: the position of the first task with the id.
unfoldable pub position : ℕ → Text → List Task → Option ℕ
position i id [] = none
position i id (t ∷ ts) =
    let later = position (suc i) id ts in
    if t.id == [] then later else if t.id == id then some i else later

module _ (format : Task → Option Text) (synced : List Text) where
  abbrev pub line : Task → Text
  line t = canonicalize format synced t

  -- The loop that drops empty lines and repeated ones.
  unfoldable pub distinct : List Text → List Task → List Task
  unfolding canonicalize
  distinct seen [] = []
  distinct seen (t ∷ ts) =
      let skip = distinct seen ts in
      let keep = t ∷ distinct (line t ∷ seen) ts in
      if line t == [] then skip else if contains (line t) seen then skip else keep

  -- The comparison of the stable sort.
  unfoldable pub before : List Task → Task → Task → Bool
  unfolding canonicalize position
  before prior a b = elim (position 0 a.id prior) [
    | some i ↦ elim (position 0 b.id prior) [ some j ↦ ltb i j | none ↦ true ]
    | none ↦ elim (position 0 b.id prior) [ some j ↦ false | none ↦ text_ltb (line a) (line b) ]
  ]

  unfoldable pub insert_task : List Task → Task → List Task → List Task
  unfolding before
  insert_task prior t [] = t ∷ []
  insert_task prior t (u ∷ us) =
      let later = u ∷ insert_task prior t us in if before prior u t then later else t ∷ u ∷ us

  -- sort.SliceStable
  unfoldable pub sort_tasks : List Task → List Task → List Task
  unfolding insert_task
  sort_tasks prior [] = []
  sort_tasks prior (t ∷ ts) = insert_task prior t (sort_tasks prior ts)

  -- The last loop: the bytes, and the number of lines.
  unfoldable pub join_lines : List Task → Text × ℕ
  unfolding canonicalize
  join_lines [] = ([], 0)
  join_lines (t ∷ ts) =
      let (rest, n) = join_lines ts in
      if line t == [] then (rest, n) else (line t ++ 10 ∷ rest, suc n)

  unfoldable pub render_file : List Task → List Task → Text × ℕ
  unfolding distinct sort_tasks join_lines
  render_file prior desired = join_lines (sort_tasks prior (distinct [] desired))

-- `none` is a file that cannot be read.
unfoldable pub needs_write : Option Text → Text → Bool
needs_write none content = not (content == [])
needs_write (some existing) content = not (existing == content)
