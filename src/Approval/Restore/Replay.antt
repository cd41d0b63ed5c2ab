-- ===== src/Approval/Restore/Replay.antt =====
-- What a replayed log restores under each id, as a function of the entries of that id alone.
use qi.Base.{
  sym, ap, ◌∙◌, Text, Bool, true, false, ◌&&◌, ◌||◌, not, Option, none, some, List, [], ◌∷◌, ◌++◌,
  ◌≡◌, refl, arith, lookup, insert, lookup-insert, lookup-eq, if◌then◌else◌, Dict, ◌==◌, eq_iff,
  is_some, contains, Bool-cases, inl, inr,
}
use qi.Approval.{AuditEntry, Pending}
use qi.Approval.Queue.{Queue, new_queue, has_id}
use qi.Approval.Restore.{
  Accumulator, Restored, dropped, live, past, note, gather, restore_accumulator, place, restore_id,
  restore_ids, restore, RestoreStats,
}

-- The accumulator of one id after one entry.
unfoldable pub observe : Text → Option Accumulator → AuditEntry → Option Accumulator
observe id a e = if e.id == [] then a else if e.id == id then some (note e a) else a

unfoldable pub accumulate : Text → Option Accumulator → List AuditEntry → Option Accumulator
accumulate id a [] = a
accumulate id a (e ∷ es) = accumulate id (observe id a e) es

pub accumulate-append :
    (id : Text) (a : Option Accumulator) (es : List AuditEntry) (e : AuditEntry)
    → accumulate id a (es ++ e ∷ []) ≡ observe id (accumulate id a es) e
unfolding accumulate
accumulate-append id a [] e = refl
accumulate-append id a (d ∷ es) e = accumulate-append id (observe id a d) es e

observe-skip :
    (e : AuditEntry) (j : Text) (a : Option Accumulator) → (e.id == []) ≡ true → observe j a e ≡ a
unfolding observe
observe-skip e j a skip = rw skip

observe-insert :
    (e : AuditEntry) (j : Text) (by_id : Dict Accumulator)
    → (e.id == []) ≡ false
    → lookup j (insert e.id (note e (lookup e.id by_id)) by_id) ≡ observe j (lookup j by_id) e
unfolding observe
observe-insert e j by_id keep =
    ground (arith, lookup-insert e.id j (note e (lookup e.id by_id)) by_id, lookup-eq e.id j by_id)

lookup-gather :
    (es : List AuditEntry) (j : Text) (by_id : Dict Accumulator) (order : List Text)
    → lookup j (gather by_id order es).0 ≡ accumulate j (lookup j by_id) es
unfolding gather accumulate
lookup-gather [] j by_id order = refl
lookup-gather (e ∷ es) j by_id order = elim (Bool-cases (e.id == [])) [
  | inl skip ↦
      rw (skip, gather)
        (lookup-gather es j by_id order
          ∙ ap (λ a. accumulate j a es) (sym (observe-skip e j (lookup j by_id) skip)))
  | inr keep ↦
      rw (keep, gather)
        (lookup-gather es j _ _ ∙ ap (λ a. accumulate j a es) (observe-insert e j by_id keep))
]

contains-append :
    (j : Text) (ks : List Text) (k : Text) → contains j (ks ++ k ∷ []) ≡ contains j ks || k == j
unfolding contains
contains-append j [] k = ground arith
contains-append j (i ∷ ks) k = ground (arith, contains-append j ks k)

contains-step :
    (e : AuditEntry) (k : Text) (by_id : Dict Accumulator) (order : List Text)
    → contains k order ≡ is_some (lookup k by_id)
    → contains e.id order ≡ is_some (lookup e.id by_id)
    → contains k (if is_some (lookup e.id by_id) then order else order ++ e.id ∷ [])
      ≡ is_some (lookup k (insert e.id (note e (lookup e.id by_id)) by_id))
contains-step e k by_id order h own = ground (
  arith,
  lookup-insert e.id k (note e (lookup e.id by_id)) by_id,
  lookup-eq e.id k by_id,
  contains-append k order e.id,
)

-- The ids in the order are those that have an accumulator.
contains-gather :
    (es : List AuditEntry) (j : Text) (by_id : Dict Accumulator) (order : List Text)
    → ((k : Text) → contains k order ≡ is_some (lookup k by_id))
    → contains j (gather by_id order es).1 ≡ is_some (lookup j (gather by_id order es).0)
unfolding gather
contains-gather [] j by_id order h = h j
contains-gather (e ∷ es) j by_id order h = elim (Bool-cases (e.id == [])) [
  | inl skip ↦ rw (skip, gather) (contains-gather es j by_id order h)
  | inr keep ↦
      rw (keep, gather)
        (contains-gather es j _ _ (λ k. contains-step e k by_id order (h k) (h e.id)))
]

-- The entry of an id in the live entries and in the history.
abbrev pub Slot : Type 0
Slot = Option Pending × Option Pending

unfoldable pub slot : {A : Type 0} → Queue A → Text → Slot
slot q j = (lookup j q.items, lookup j q.history)

abbrev pub taken : Slot → Bool
taken (a, b) = is_some a || is_some b

unfoldable pub slot_of : Restored → Slot
slot_of dropped = (none, none)
slot_of (live p) = (some p, none)
slot_of (past p) = (none, some p)

has_id-slot : {A : Type 0} (q : Queue A) (j : Text) → has_id q j ≡ taken (slot q j)
unfolding has_id slot
has_id-slot q j = refl

slot-place :
    {A : Type 0} (id : Text) (r : Restored) (q : Queue A) (n : RestoreStats) (j : Text)
    → taken (slot q id) ≡ false
    → slot (place id r (q, n)).0 j ≡ (if id == j then slot_of r else slot q j)
unfolding place slot slot_of
slot-place id dropped q n j free = ground (arith, lookup-eq id j q.items, lookup-eq id j q.history)
slot-place id (live p) q n j free =
    ground (arith, lookup-insert id j p q.items, lookup-eq id j q.history)
slot-place id (past p) q n j free =
    ground (arith, lookup-insert id j p q.history, lookup-eq id j q.items)

slot-eq : {A : Type 0} (id j : Text) (q : Queue A) → (id == j) ≡ true → slot q id ≡ slot q j
unfolding slot
slot-eq id j q h = ap (λ k. (lookup k q.items, lookup k q.history)) ((eq_iff id j).0 h)

-- A second visit of an id changes nothing.
settled :
    (r : Restored) (again : Bool) (old : Slot)
    → (if again && not (taken (if not (taken old) then slot_of r else old))
        then slot_of r
        else if not (taken old)
        then slot_of r
        else old)
      ≡ (if not (taken old) then slot_of r else old)
unfolding slot_of
settled dropped again old = ground arith
settled (live p) again old = ground arith
settled (past p) again old = ground arith

module _ (params_hash : Text → Text) {A : Type 0} where
  slot-restore_id :
      (id : Text) (a : Option Accumulator) (q : Queue A) (n : RestoreStats) (j : Text)
      → slot (restore_id params_hash id a (q, n)).0 j ≡ (
          if id == j && not (taken (slot q j))
          then slot_of (restore_accumulator params_hash id a)
          else slot q j)
  unfolding restore_id
  slot-restore_id id a q n j = elim (Bool-cases (has_id q id)) [
    | inl there ↦ rw (there, restore_id) (ground (arith, has_id-slot q id, slot-eq id j q))
    | inr free ↦
        rw (free, restore_id)
          (ground (
            arith,
            slot-place id (restore_accumulator params_hash id a) q n j,
            has_id-slot q id,
            slot-eq id j q,
          ))
  ]

  slot-restore_ids :
      (by_id : Dict Accumulator) (ids : List Text) (q : Queue A) (n : RestoreStats) (j : Text)
      → slot (restore_ids params_hash by_id ids (q, n)).0 j ≡ (
          if contains j ids && not (taken (slot q j))
          then slot_of (restore_accumulator params_hash j (lookup j by_id))
          else slot q j)
  unfolding restore_ids contains
  slot-restore_ids by_id [] q n j = refl
  slot-restore_ids by_id (id ∷ ids) q n j =
      let s = restore_id params_hash id (lookup id by_id) (q, n) in
      let step = slot-restore_id id (lookup id by_id) q n j in
      slot-restore_ids by_id ids s.0 s.1 j
      ∙ (ap (λ (old : Slot). if contains j ids && not (taken old) then slot_of r else old) step
          ∙ elim (Bool-cases (id == j)) [
            | inl same ↦
                rw
                  (
                    same,
                    ap (λ k. restore_accumulator params_hash k (lookup k by_id))
                        ((eq_iff id j).0 same),
                  )
                  (settled r (contains j ids) (slot q j))
            | inr other ↦ rw other
          ])
    where
      r : Restored
      r = restore_accumulator params_hash j (lookup j by_id)

  -- What a restart on an empty queue has under each id.
  pub slot-restore :
      (entries : List AuditEntry) (audit : Option A) (j : Text)
      → slot (restore params_hash entries (new_queue audit)).0 j
        ≡ slot_of (restore_accumulator params_hash j (accumulate j none entries))
  unfolding restore new_queue slot slot_of restore_accumulator lookup contains
  slot-restore entries audit j =
      slot-restore_ids (gather [] [] entries).0 (gather [] [] entries).1 (new_queue audit) _ j
      ∙ (rw (contains-gather entries j [] [] (λ k. refl), lookup-gather entries j [] [])
          (unused (accumulate j none entries)))
    where
      unused :
          (a : Option Accumulator)
          → (if is_some a && not (taken (slot (new_queue audit) j))
              then slot_of (restore_accumulator params_hash j a)
              else slot (new_queue audit) j)
            ≡ slot_of (restore_accumulator params_hash j a)
      unused none = refl
      unused (some a) = refl
