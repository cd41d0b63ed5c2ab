-- ===== src/Planner/Session/Fresh.antt =====
-- Identifiers that a loop meets once each, and the map of the calls that are indexed by theirs.
use qi.Base.{
  ◌≡◌, refl, ◌∙◌, arith, Text, true, false, ◌||◌, eq_iff, eq_refl, some, is_some, List, [], ◌∷◌,
  All, Dict, lookup, insert, lookup-insert, contains,
}
use qi.Planner.{ToolCall, ToolResult, PendingCall}

abbrev pub call_ids : List ToolCall → List Text
call_ids [] = []
call_ids (c ∷ cs) = c.id ∷ call_ids cs

abbrev pub result_ids : List ToolResult → List Text
result_ids [] = []
result_ids (r ∷ rs) = r.call_id ∷ result_ids rs

abbrev pub pending_ids : List PendingCall → List Text
pending_ids [] = []
pending_ids (p ∷ ps) = p.call_id ∷ pending_ids ps

-- None of them was seen, and none comes twice.
abbrev pub Fresh : List Text → List Text → Type 0
Fresh seen [] = Unit
Fresh seen (k ∷ ks) = contains k seen ≡ false × Fresh (k ∷ seen) ks

pub contains_head : (k : Text) (ks : List Text) → contains k (k ∷ ks) ≡ true
unfolding contains
contains_head k ks = ground (arith, eq_refl k)

-- `seen` may change by what does not come.
pub Fresh-change :
    (s t ks : List Text)
    → Fresh s ks
    → ((j : Text) → contains j ks ≡ true → contains j t ≡ true → contains j s ≡ true)
    → Fresh t ks
unfolding contains
Fresh-change s t [] h same = tt
Fresh-change s t (k ∷ ks) (new, rest) same = (
  ground (arith, same k, eq_refl k, new),
  Fresh-change (k ∷ s) (k ∷ t) ks rest (λ j in_ks in_t. ground (arith, same j, in_ks, in_t)),
)

pub Fresh-apart :
    (s ks : List Text) (j : Text) → Fresh s ks → contains j s ≡ true → contains j ks ≡ false
unfolding contains
Fresh-apart s [] j h k = refl
Fresh-apart s (i ∷ ks) j (new, rest) k =
    ground (arith, eq_iff i j, Fresh-apart (i ∷ s) ks j rest (ground arith), new)

-- The map `calls` after the loop.
abbrev pub index_calls : Dict ToolCall → List ToolCall → Dict ToolCall
index_calls m [] = m
index_calls m (c ∷ cs) = index_calls (insert c.id c m) cs

pub index_old :
    (m : Dict ToolCall) (cs : List ToolCall) (id : Text)
    → contains id (call_ids cs) ≡ false
    → lookup id (index_calls m cs) ≡ lookup id m
unfolding contains
index_old m [] id h = refl
index_old m (c ∷ cs) id h =
    index_old (insert c.id c m) cs id (ground arith) ∙ (lookup-insert c.id id c m ∙ ground arith)

pub index_known :
    (m : Dict ToolCall) (cs : List ToolCall) (id : Text)
    → is_some (lookup id (index_calls m cs)) ≡ (is_some (lookup id m) || contains id (call_ids cs))
unfolding contains
index_known m [] id = ground arith
index_known m (c ∷ cs) id =
    ground (arith, index_known (insert c.id c m) cs id, lookup-insert c.id id c m)

pub index_found :
    (m : Dict ToolCall) (cs : List ToolCall) (seen : List Text)
    → Fresh seen (call_ids cs)
    → All (λ c. lookup c.id (index_calls m cs) ≡ some c) cs
index_found m [] seen h = tt
index_found m (c ∷ cs) seen (new, rest) = (
  index_old (insert c.id c m) cs c.id
        (Fresh-apart (c.id ∷ seen) (call_ids cs) c.id rest (contains_head c.id seen))
      ∙ (lookup-insert c.id c.id c m ∙ (rw (eq_refl c.id) refl)),
  index_found (insert c.id c m) cs (c.id ∷ seen) rest,
)
