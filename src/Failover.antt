-- ===== src/Failover.antt =====
-- internal/ai/fallback.go and errors.go: the chain of providers that takes the next one when one
-- fails. An error is what errors.Is and errors.As answer about it; what a provider does is a
-- function on the state of the world. `onSwitch` is the list of the calls it gets.
pub mod Walk
pub mod State
use qi.Base.{
  ℕ, suc, Text, Bool, true, false, ◌||◌, nat_eq, Option, none, some, List, [], ◌∷◌, ◌++◌, drop,
  Result, ok, err, is_some, if◌then◌else◌,
}

pub record ProviderError : Type 0 where
  pub provider : Text
  pub status_code : ℕ
  pub body : Text

pub record Failure : Type 0 where
  pub canceled : Bool
  pub deadline_exceeded : Bool
  pub provider_error : Option ProviderError
  pub url_error : Bool
  pub text : Text

unfoldable pub should_failover : Failure → Bool
should_failover e =
    if e.canceled || e.deadline_exceeded
    then false
    else if is_some e.provider_error
    then true
    else e.url_error

unfoldable pub is_exhausted : Failure → Bool
is_exhausted e = elim e.provider_error [
  | none ↦ false
  | some pe ↦ nat_eq pe.status_code 429 || nat_eq pe.status_code 402
]

-- The model, and the rest of the request.
pub record GenerateRequest (Q : Type 0) : Type 0 where
  pub model : Text
  pub rest : Q

abbrev pub Generator : Type 0 → Type 0 → Type 0 → Type 0
Generator Q R W = GenerateRequest Q → W → W × Result Failure R

-- `none` is a nil LLM.
pub record FallbackEntry (Q R W : Type 0) : Type 0 where
  pub name : Text
  pub provider : Text
  pub llm : Option (Generator Q R W)
  pub model : Text
  pub config_id : Text

pub record FallbackLlm (Q R W : Type 0) : Type 0 where
  pub entries : List (FallbackEntry Q R W)
  pub active : ℕ

-- A call of Generate on a nil LLM panics.
pub data Answer (R : Type 0) : Type 0 where
  response : R → Answer R
  refused : Failure → Answer R
  all_failed : List Failure → Answer R
  all_exhausted : Answer R
  -- A call of Generate on a nil LLM panics.
  panicked : Answer R

pub record Walked (Q R W : Type 0) : Type 0 where
  pub active : ℕ
  pub world : W
  pub switches : List (FallbackEntry Q R W × FallbackEntry Q R W × Failure)
  pub answer : Answer R

-- The end of the loop.
unfoldable pub exhausted : {R : Type 0} → List Failure → Answer R
exhausted [] = all_exhausted
exhausted (x ∷ xs) = all_failed (x ∷ xs)

module _ {Q R W : Type 0} where
  unfoldable pub new_fallback_llm : List (FallbackEntry Q R W) → Option (FallbackLlm Q R W)
  new_fallback_llm [] = none
  new_fallback_llm (e ∷ es) = some (record { entries = e ∷ es; active = 0 })

  abbrev pub stop : ℕ → W → Answer R → Walked Q R W
  stop active w a = record { active = active; world = w; switches = []; answer = a }

  -- What onSwitch is called with when there is a next entry.
  unfoldable pub switch_to :
      FallbackEntry Q R W → List (FallbackEntry Q R W) → Failure → Walked Q R W → Walked Q R W
  switch_to e [] x r = r
  switch_to e (next ∷ es) x r = record r { switches = (e, next, x) ∷ r.switches }

  -- The loop, on the entries from the active one on.
  unfoldable pub generate_from :
      GenerateRequest Q → List (FallbackEntry Q R W) → ℕ → List Failure → W → Walked Q R W
  unfolding should_failover switch_to exhausted
  generate_from req [] active errs w = stop active w (exhausted errs)
  generate_from req (e ∷ es) active errs w = elim e.llm [
    | none ↦ stop active w panicked
    | some llm ↦
        let (w', outcome) = llm (record req { model = e.model }) w in
        elim outcome [
          | ok v ↦ stop active w' (response v)
          | err x ↦
              let rest = switch_to e es x (generate_from req es (suc active) (errs ++ x ∷ []) w') in
              if should_failover x then rest else stop active w' (refused x)
        ]
  ]

  unfoldable pub generate : FallbackLlm Q R W → GenerateRequest Q → W → Walked Q R W
  unfolding generate_from
  generate f req w = generate_from req (drop f.active f.entries) f.active [] w
