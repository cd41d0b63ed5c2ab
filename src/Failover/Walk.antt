-- ===== src/Failover/Walk.antt =====
-- Generate over a chain of providers: the entries that it passes, and the one that answers.
use qi.Base.{
  Result, ℕ, suc, ◌+◌, ◌≡◌, refl, sym, ap, arith, true, false, none, some, List, [], ◌∷◌, ◌++◌,
  drop, length, Option-cases, Result-cases, Bool-cases, inl, inr, ok, err,
}
use mathlib.Core.List.{append-nil, append_assoc}
use mathlib.Core.Path.{subst}
use qi.Failover.{
  Failure, should_failover, GenerateRequest, FallbackEntry, FallbackLlm, Generator, Answer,
  response, refused, all_failed, all_exhausted, panicked, Walked, switch_to, exhausted,
  generate_from, generate, stop,
}

module _ {Q R W : Type 0} where
  -- Each of these entries was called with the request and its own model, in order, and failed in a
  -- way that fails over.
  pub data Passed (req : GenerateRequest Q)
      : List (FallbackEntry Q R W) → List Failure → W → W → Type 0 where
    none_passed : {w : W} → Passed req [] [] w w
    passes :
        {e : FallbackEntry Q R W} {es : List (FallbackEntry Q R W)} {x : Failure}
        {xs : List Failure} {llm : Generator Q R W} {w w' w'' : W}
        → e.llm ≡ some llm
        → llm (record req { model = e.model }) w ≡ (w', err x)
        → should_failover x ≡ true
        → Passed req es xs w' w''
        → Passed req (e ∷ es) (x ∷ xs) w w''

  -- Where the loop ends, on the entries that are left after failures: at an entry whose answer is
  -- returned, at a nil LLM, or behind the last entry.
  pub data Ends (req : GenerateRequest Q)
      : List (FallbackEntry Q R W) → List Failure → W → W → Answer R → Type 0 where
    answers :
        {e : FallbackEntry Q R W} {es : List (FallbackEntry Q R W)} {xs : List Failure}
        {llm : Generator Q R W} {w w' : W} {v : R}
        → e.llm ≡ some llm
        → llm (record req { model = e.model }) w ≡ (w', ok v)
        → Ends req (e ∷ es) xs w w' (response v)
    refuses :
        {e : FallbackEntry Q R W} {es : List (FallbackEntry Q R W)} {xs : List Failure}
        {llm : Generator Q R W} {w w' : W} {x : Failure}
        → e.llm ≡ some llm
        → llm (record req { model = e.model }) w ≡ (w', err x)
        → should_failover x ≡ false
        → Ends req (e ∷ es) xs w w' (refused x)
    panics :
        {e : FallbackEntry Q R W} {es : List (FallbackEntry Q R W)} {xs : List Failure} {w : W}
        → e.llm ≡ none
        → Ends req (e ∷ es) xs w w panicked
    fails :
        {x : Failure} {xs : List Failure} {w : W} → Ends req [] (x ∷ xs) w w (all_failed (x ∷ xs))
    was_exhausted : {w : W} → Ends req [] [] w w all_exhausted

  Ends-exhausted :
      (req : GenerateRequest Q) (xs : List Failure) (w : W) → Ends req [] xs w w (exhausted xs)
  unfolding exhausted
  Ends-exhausted req [] w = was_exhausted
  Ends-exhausted req (x ∷ xs) w = fails

  -- A walk over the entries, from failures of before.
  pub record Walk (req : GenerateRequest Q) (es : List (FallbackEntry Q R W)) (active : ℕ)
      (errs : List Failure) (w : W) (r : Walked Q R W) : Type 0 where
    pub before : List (FallbackEntry Q R W)
    pub left : List (FallbackEntry Q R W)
    pub failures : List Failure
    pub reached : W
    pub splits : es ≡ before ++ left
    pub passed : Passed req before failures w reached
    pub position : r.active ≡ active + length before
    pub ends : Ends req left (errs ++ failures) reached r.world r.answer

  switch_to-same :
      (e : FallbackEntry Q R W) (es : List (FallbackEntry Q R W)) (x : Failure) (r : Walked Q R W)
      → ((switch_to e es x r).active ≡ r.active)
        × ((switch_to e es x r).world ≡ r.world)
        × ((switch_to e es x r).answer ≡ r.answer)
  unfolding switch_to
  switch_to-same e [] x r = (refl, refl, refl)
  switch_to-same e (next ∷ es) x r = (refl, refl, refl)

  -- A walk that ends at its first entry, or on no entries at all.
  Walk-here :
      (req : GenerateRequest Q) (es : List (FallbackEntry Q R W)) (active : ℕ) (errs : List Failure)
      (w : W) (r : Walked Q R W)
      → r.active ≡ active
      → Ends req es errs w r.world r.answer
      → Walk req es active errs w r
  Walk-here req es active errs w r at end = record {
    before = [];
    left = es;
    failures = [];
    reached = w;
    splits = refl;
    passed = none_passed;
    position = omega (arith, at);
    ends = rw (append-nil errs) end;
  }

  Walk-passes :
      (req : GenerateRequest Q) (e : FallbackEntry Q R W) (es : List (FallbackEntry Q R W))
      (active : ℕ) (errs : List Failure) (w w' : W) (x : Failure) (llm : Generator Q R W)
      (r : Walked Q R W)
      → e.llm ≡ some llm
      → llm (record req { model = e.model }) w ≡ (w', err x)
      → should_failover x ≡ true
      → Walk req es (suc active) (errs ++ x ∷ []) w' r
      → Walk req (e ∷ es) active errs w (switch_to e es x r)
  Walk-passes req e es active errs w w' x llm r there called fails_over k =
      let (same_active, same_world, same_answer) = switch_to-same e es x r in
      record {
        before = e ∷ k.before;
        left = k.left;
        failures = x ∷ k.failures;
        reached = k.reached;
        splits = ap (λ l. e ∷ l) k.splits;
        passed = passes there called fails_over k.passed;
        position = omega (arith, same_active, k.position);
        ends =
            rw (same_world, same_answer)
              (subst (λ l. Ends req k.left l k.reached r.world r.answer)
                (append_assoc errs (x ∷ []) k.failures) k.ends);
      }

  generate_missing :
      (req : GenerateRequest Q) (e : FallbackEntry Q R W) (es : List (FallbackEntry Q R W))
      (active : ℕ) (errs : List Failure) (w : W)
      → e.llm ≡ none
      → generate_from req (e ∷ es) active errs w ≡ stop active w panicked
  unfolding generate_from
  generate_missing req e es active errs w missing = ground arith

  module _ (req : GenerateRequest Q) (e : FallbackEntry Q R W) (es : List (FallbackEntry Q R W))
      (active : ℕ) (errs : List Failure) (w : W) (llm : Generator Q R W)
      (there : e.llm ≡ some llm) where
    generate_answered :
        (v : R)
        → (llm (record req { model = e.model }) w).1 ≡ ok v
        → generate_from req (e ∷ es) active errs w
          ≡ stop active (llm (record req { model = e.model }) w).0 (response v)
    unfolding generate_from
    generate_answered v done = ground arith

    generate_refused :
        (x : Failure)
        → (llm (record req { model = e.model }) w).1 ≡ err x
        → should_failover x ≡ false
        → generate_from req (e ∷ es) active errs w
          ≡ stop active (llm (record req { model = e.model }) w).0 (refused x)
    unfolding generate_from
    generate_refused x failure local = ground arith

    generate_passed :
        (x : Failure)
        → (llm (record req { model = e.model }) w).1 ≡ err x
        → should_failover x ≡ true
        → generate_from req (e ∷ es) active errs w
          ≡ switch_to e es x (
              generate_from req es
                (suc active)
                (errs ++ x ∷ [])
                (llm (record req { model = e.model }) w).0)
    unfolding generate_from
    generate_passed x failure over = ground arith

  generate_from-Walk :
      (req : GenerateRequest Q) (es : List (FallbackEntry Q R W)) (active : ℕ) (errs : List Failure)
      (w : W)
      → Walk req es active errs w (generate_from req es active errs w)
  unfolding generate_from
  generate_from-Walk req [] active errs w =
      Walk-here req [] active errs w _ refl (Ends-exhausted req errs w)
  generate_from-Walk req (e ∷ es) active errs w =
      let walk : Walked Q R W → Type 0 = λ r. Walk req (e ∷ es) active errs w r in
      elim (Option-cases e.llm) [
        | inl missing ↦
            subst walk (sym (generate_missing req e es active errs w missing))
              (Walk-here req (e ∷ es) active errs w (stop active w panicked) refl (panics missing))
        | inr (llm, there) ↦
            let called : W × Result Failure R = llm (record req { model = e.model }) w in
            elim (Result-cases called.1) [
              | inl (v, done) ↦
                  subst walk (sym (generate_answered req e es active errs w llm there v done)) (
                    Walk-here req (e ∷ es) active errs w (stop active called.0 (response v)) refl
                      (answers there (ap (λ o. (called.0, o)) done)))
              | inr (x, failure) ↦ elim (Bool-cases (should_failover x)) [
                | inr local ↦
                    subst walk
                      (sym (generate_refused req e es active errs w llm there x failure local))
                      (Walk-here req (e ∷ es) active errs w (stop active called.0 (refused x)) refl
                        (refuses there (ap (λ o. (called.0, o)) failure) local))
                | inl over ↦
                    subst walk
                      (sym (generate_passed req e es active errs w llm there x failure over))
                      (Walk-passes req e es active errs w called.0 x llm _ there
                        (ap (λ o. (called.0, o)) failure) over
                        (generate_from-Walk req es (suc active) (errs ++ x ∷ []) called.0))
              ]
            ]
      ]

  -- A call of Generate starts at the active entry and calls one entry after the other, each with its
  -- own model, while they fail in a way that fails over. The active entry ends up at the one behind
  -- those that were passed, and the answer comes from it: its response, its failure that does not fail
  -- over, or the panic on its nil LLM. When no entry is left, the answer is the list of the failures,
  -- or that the chain was exhausted before if there are none.
  pub generate_lem :
      (f : FallbackLlm Q R W) (req : GenerateRequest Q) (w : W)
      → Walk req (drop f.active f.entries) f.active [] w (generate f req w)
  unfolding generate
  generate_lem f req w = generate_from-Walk req (drop f.active f.entries) f.active [] w
