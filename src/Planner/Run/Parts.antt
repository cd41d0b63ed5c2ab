-- ===== src/Planner/Run/Parts.antt =====
-- What the calls of a turn leave: their ids, those that wait, and the results of the others.
use qi.Base.{
  ◌≡◌, refl, arith, Text, true, false, ◌&&◌, not, eq_iff, Option, some, List, [], ◌∷◌, All,
  contains, Bool-cases, Option-cases, Result-cases, inl, inr, ok,
}
use qi.Planner.{ToolCall, ToolResult, PendingCall}
use qi.Planner.Session.{valid_call_id}
use qi.Planner.Session.Fresh.{Fresh, Fresh-change, call_ids, result_ids, pending_ids}
use qi.Planner.Loop.{canonical_from, resolved_results, is_call_of}

module _ (canonical : Text → Option Text)
    (again : (x y : Text) → canonical x ≡ some y → canonical y ≡ some y) where
  abbrev pub IsCanonical : ToolCall → Type 0
  IsCanonical c = (valid_call_id c.id ≡ true) × (canonical c.input ≡ some c.input)

  canonical_from_cons :
      (seen : List Text) (c : ToolCall) (cs out : List ToolCall)
      → canonical_from canonical seen (c ∷ cs) ≡ ok out
      → (input : Text) × (more : List ToolCall) × (valid_call_id c.id ≡ true)
        × (contains c.id seen ≡ false)
        × (canonical c.input ≡ some input)
        × (canonical_from canonical (c.id ∷ seen) cs ≡ ok more)
        × (out ≡ record c { input = input } ∷ more)
  unfolding canonical_from
  canonical_from_cons seen c cs out h = elim (Bool-cases (valid_call_id c.id)) [
    | inr bad ↦ ground arith
    | inl valid ↦ elim (Bool-cases (contains c.id seen)) [
      | inl twice ↦ ground arith
      | inr new ↦ elim (Option-cases (canonical c.input)) [
        | inl e ↦ ground arith
        | inr (input, e) ↦ elim (Result-cases (canonical_from canonical (c.id ∷ seen) cs)) [
          | inr (x, k) ↦ ground arith
          | inl (more, k) ↦ (input, more, valid, new, e, k, ground arith)
        ]
      ]
    ]
  ]

  pub canonical_from_ok :
      (seen : List Text) (cs out : List ToolCall)
      → canonical_from canonical seen cs ≡ ok out
      → Fresh seen (call_ids out) × All IsCanonical out
  unfolding canonical_from
  canonical_from_ok seen [] [] h = (tt, tt)
  canonical_from_ok seen [] (o ∷ out) h = absurd (cc h)
  canonical_from_ok seen (c ∷ cs) out h =
      let (input, more, valid, new, e, k, same) = canonical_from_cons seen c cs out h in
      let (fresh, good) = canonical_from_ok (c.id ∷ seen) cs more k in
      rw same ((new, fresh), ((valid, again c.input input e), good))

pub is_call_of_ids :
    (id : Text) (ps : List PendingCall) → is_call_of id ps ≡ contains id (pending_ids ps)
unfolding is_call_of contains
is_call_of_ids id [] = refl
is_call_of_ids id (p ∷ ps) = ground (arith, is_call_of_ids id ps)

pub resolved_ids :
    (rs : List ToolResult) (ps : List PendingCall) (j : Text)
    → contains j (result_ids (resolved_results rs ps))
      ≡ (contains j (result_ids rs) && not (contains j (pending_ids ps)))
unfolding resolved_results contains
resolved_ids [] ps j = refl
resolved_ids (r ∷ rs) ps j =
    ground (arith, resolved_ids rs ps j, is_call_of_ids r.call_id ps, eq_iff r.call_id j)

pub resolved-Fresh :
    (rs : List ToolResult) (ps : List PendingCall) (seen : List Text)
    → Fresh seen (result_ids rs)
    → Fresh seen (result_ids (resolved_results rs ps))
unfolding resolved_results contains
resolved-Fresh [] ps seen h = tt
resolved-Fresh (r ∷ rs) ps seen (new, rest) =
    let ih = resolved-Fresh rs ps (r.call_id ∷ seen) rest in
    elim (Bool-cases (is_call_of r.call_id ps)) [
      | inl e ↦ rw e (
          Fresh-change (r.call_id ∷ seen) seen (result_ids (resolved_results rs ps)) ih
            (λ j a b. ground arith))
      | inr e ↦ rw e (new, ih)
    ]

pub resolved-All :
    (P : ToolResult → Type 0) (rs : List ToolResult) (ps : List PendingCall)
    → All P rs
    → All P (resolved_results rs ps)
unfolding resolved_results
resolved-All P [] ps h = tt
resolved-All P (r ∷ rs) ps (one, more) = elim (Bool-cases (is_call_of r.call_id ps)) [
  | inl e ↦ rw e (resolved-All P rs ps more)
  | inr e ↦ rw e (one, resolved-All P rs ps more)
]
