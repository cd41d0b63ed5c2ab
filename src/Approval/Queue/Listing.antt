-- ===== src/Approval/Queue/Listing.antt =====
-- internal/approval/queue.go: the listing.
use qi.Base.{false, true, Bool, Option, none, some, [], ◌∷◌, ltb, if◌then◌else◌, Dict, ◌==◌, List}
use qi.Approval.{Status, Pending, pending, approved, denied, executed, failed, other_status}
use qi.Approval.Queue.{Queue}

unfoldable pub status_eq : Status → Status → Bool
status_eq pending pending = true
status_eq approved approved = true
status_eq denied denied = true
status_eq executed executed = true
status_eq failed failed = true
status_eq (other_status s) (other_status t) = s == t
status_eq _ _ = false

-- The loop over the live entries; `none` is the empty filter.
unfoldable pub select : Option Status → Dict Pending → List Pending
unfolding status_eq
select filter [] = []
select filter ((id, p) ∷ m) =
    let rest = select filter m in
    elim filter [ none ↦ p ∷ rest | some s ↦ if status_eq p.status s then p ∷ rest else rest ]

-- sort.Slice by creation time. Entries of one instant come in an order that Go leaves open.
unfoldable pub insert_by_age : Pending → List Pending → List Pending
insert_by_age p [] = p ∷ []
insert_by_age p (r ∷ rs) =
    let later = r ∷ insert_by_age p rs in
    if ltb r.created_at p.created_at then later else p ∷ r ∷ rs

unfoldable pub sort_by_age : List Pending → List Pending
unfolding insert_by_age
sort_by_age [] = []
sort_by_age (p ∷ ps) = insert_by_age p (sort_by_age ps)

unfoldable pub list : {A : Type 0} → Option Status → Queue A → List Pending
unfolding select sort_by_age
list filter q = sort_by_age (select filter q.items)
