-- ===== src/Planning/Slots.antt =====
-- internal/service/plan_service.go: nextFreeSlot, and its loop.
use qi.Base.{
  ℕ, zero, suc, ◌+◌, ◌<◌, ◌≤◌, ◌≡◌, ◌≢◌, arith, Bool, ◌&&◌, ltb, Option, none, some, List, [], ◌∷◌,
  length, if◌then◌else◌, Bool-cases, inl, inr,
}

pub record Interval : Type 0 where
  pub start : ℕ
  pub end : ℕ

unfoldable pub overlaps : ℕ → ℕ → Interval → Bool
overlaps c block iv = ltb c iv.end && ltb iv.start (c + block)

-- The inner loop: the first interval that is in the way.
unfoldable pub blocking : ℕ → ℕ → List Interval → Option Interval
unfolding overlaps
blocking c block [] = none
blocking c block (iv ∷ ivs) =
    let rest = blocking c block ivs in if overlaps c block iv then some iv else rest

-- The outer loop; `none` when the fuel runs out.
unfoldable pub search : ℕ → ℕ → ℕ → List Interval → Option ℕ
search zero c block occupied = none
search (suc n) c block occupied = elim (blocking c block occupied) [
  | none ↦ some c
  | some iv ↦ search n iv.end block occupied
]

-- Each round leaves one interval behind.
unfoldable pub next_free_slot : ℕ → ℕ → List Interval → Option ℕ
unfolding search
next_free_slot cursor block occupied = search (suc (length occupied)) cursor block occupied

-- How many intervals end after a minute.
ahead : ℕ → List Interval → ℕ
ahead c [] = 0
ahead c (iv ∷ ivs) = let rest = ahead c ivs in if ltb c iv.end then suc rest else rest

pub blocking_overlaps :
    (c block : ℕ) (ivs : List Interval) (iv : Interval)
    → blocking c block ivs ≡ some iv
    → (c < iv.end) × (iv.start < c + block)
unfolding blocking overlaps
blocking_overlaps c block [] iv e = cc
blocking_overlaps c block (i ∷ ivs) iv e = elim (Bool-cases (overlaps c block i)) [
  | inl o ↦ ground arith
  | inr o ↦ ground (arith, blocking_overlaps c block ivs iv)
]

-- A slot that starts at the cursor or later, is free, and has no free slot between.
pub record IsFirstSlot (cursor block : ℕ) (occupied : List Interval) (start : ℕ) : Type 0 where
  pub after : cursor ≤ start
  pub free : blocking start block occupied ≡ none
  pub earliest : (d : ℕ) → cursor ≤ d → d < start → blocking d block occupied ≢ none
