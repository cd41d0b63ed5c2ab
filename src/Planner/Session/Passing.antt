-- ===== src/Planner/Session/Passing.antt =====
-- When the loops of validateStoredSession pass.
use qi.Base.{
  ◌≡◌, refl, ◌∙◌, arith, Text, true, false, ◌||◌, ◌==◌, eq_refl, Option, none, some, is_some, List,
  [], ◌∷◌, All, Dict, lookup, insert, lookup-insert, contains, ok,
}
use qi.Planner.{ToolCall, ToolResult, PendingCall, sanitize_tool_name}
use qi.Planner.Session.{valid_call_id, check_calls, check_results, check_pendings, check_complete}
use qi.Planner.Session.Fresh.{Fresh, call_ids, result_ids, pending_ids, index_calls}

module _ (trim : Text → Text) (canonical : Text → Option Text) where
  abbrev pub IsStorable : ToolCall → Type 0
  IsStorable c =
      (valid_call_id c.id ≡ true)
      × ((trim c.name == []) ≡ false)
      × (is_some (canonical c.input) ≡ true)

  pub check_calls_ok :
      (m : Dict ToolCall) (seen : List Text) (cs : List ToolCall)
      → All IsStorable cs
      → ((id : Text) → is_some (lookup id m) ≡ contains id seen)
      → Fresh seen (call_ids cs)
      → check_calls trim canonical m cs ≡ ok (index_calls m cs)
  unfolding check_calls contains
  check_calls_ok m seen [] all same h = refl
  check_calls_ok m seen (c ∷ cs) ((valid, named, decoded), all) same (new, rest) =
      let ih =
        check_calls_ok (insert c.id c m) (c.id ∷ seen) cs all
          (λ id. ground (arith, lookup-insert c.id id c m, same id)) rest in
      ground (arith, ih, same c.id)

pub check_results_ok :
    (m : Dict ToolCall) (parts : List Text) (rs : List ToolResult)
    → All (λ r. (valid_call_id r.call_id ≡ true) × (is_some (lookup r.call_id m) ≡ true)) rs
    → Fresh parts (result_ids rs)
    → (all : List Text) × (check_results m parts rs ≡ ok all)
      × ((j : Text) → contains j all ≡ (contains j parts || contains j (result_ids rs)))
unfolding check_results contains
check_results_ok m parts [] good h = (parts, refl, λ j. ground arith)
check_results_ok m parts (r ∷ rs) ((valid, known), good) (new, rest) =
    let (all, ih, same) = check_results_ok m (r.call_id ∷ parts) rs good rest in
    (all, ground (arith, ih), λ j. ground (arith, same j))

abbrev pub approval_ids : List PendingCall → List Text
approval_ids [] = []
approval_ids (p ∷ ps) = p.approval_id ∷ approval_ids ps

module _ (trim : Text → Text) where
  abbrev pub IsBound : Dict ToolCall → PendingCall → Type 0
  IsBound m p =
      (c : ToolCall) × (lookup p.call_id m ≡ some c)
      × (valid_call_id p.call_id ≡ true)
      × ((sanitize_tool_name p.tool_name == c.name) ≡ true)

  abbrev pub IsNamed : PendingCall → Type 0
  IsNamed p = (trim p.approval_id == [] || trim p.tool_name == []) ≡ false

  check_pending_step :
      (m : Dict ToolCall) (parts approvals : List Text) (p : PendingCall) (ps : List PendingCall)
      (c : ToolCall)
      → lookup p.call_id m ≡ some c
      → valid_call_id p.call_id ≡ true
      → (sanitize_tool_name p.tool_name == c.name) ≡ true
      → IsNamed p
      → contains p.call_id parts ≡ false
      → contains p.approval_id approvals ≡ false
      → check_pendings trim m parts approvals (p ∷ ps)
        ≡ check_pendings trim m (p.call_id ∷ parts) (p.approval_id ∷ approvals) ps
  unfolding check_pendings
  check_pending_step m parts approvals p ps c there valid tool named once new = ground arith

  pub check_pendings_ok :
      (m : Dict ToolCall) (parts approvals : List Text) (ps : List PendingCall)
      → All (IsBound m) ps
      → All IsNamed ps
      → Fresh parts (pending_ids ps)
      → Fresh approvals (approval_ids ps)
      → (all : List Text) × (check_pendings trim m parts approvals ps ≡ ok all)
        × ((j : Text) → contains j all ≡ (contains j parts || contains j (pending_ids ps)))
  unfolding check_pendings contains
  check_pendings_ok m parts approvals [] bound named h k = (parts, refl, λ j. ground arith)
  check_pendings_ok m parts approvals (p ∷ ps) ((c, there, valid, tool), bound) (n, named) (once, h)
        (new, k) =
      let (all, ih, same) =
        check_pendings_ok m (p.call_id ∷ parts) (p.approval_id ∷ approvals) ps bound named h k in
      (
        all,
        check_pending_step m parts approvals p ps c there valid tool n once new ∙ ih,
        λ j. ground (arith, same j),
      )

pub check_complete_ok :
    (parts : List Text) (m : Dict ToolCall)
    → ((id : Text) → is_some (lookup id m) ≡ true → contains id parts ≡ true)
    → check_complete parts m ≡ none
unfolding check_complete lookup
check_complete_ok parts [] h = refl
check_complete_ok parts ((id, c) ∷ m) h =
    ground (arith, check_complete_ok parts m (λ j k. ground (arith, h j, k)), h id, eq_refl id)
