-- ===== src/Failover/State/Resume.antt =====
-- Saving the position in a chain of providers and building the chain again from it.
use mathlib.Core.Path.{subst}
use qi.Base.{
  ℕ, suc, ◌≡◌, refl, arith, Text, eq_refl, leb, none, some, List, [], ◌∷◌, length, ok, err,
  if◌then◌else◌, Option-cases, Result-cases, inl, inr,
}
use qi.Failover.{FallbackEntry, FallbackLlm}
use qi.Failover.State.{
  ProviderStateEntry, ProviderState, out_of_range, entry_eq, match_entries, state_entries,
  validate_state, state_from_entries, provider_state, new_from_state, provider_state_version,
  at_start,
}

match_entries_refl : (n : ℕ) (ss : List ProviderStateEntry) → match_entries n ss ss ≡ none
unfolding match_entries entry_eq
match_entries_refl n [] = refl
match_entries_refl n (s ∷ ss) =
    ground (
      arith,
      match_entries_refl (suc n) ss,
      eq_refl s.provider,
      eq_refl s.model,
      eq_refl s.config_id,
    )

length-state_entries :
    {Q R W : Type 0} (es : List (FallbackEntry Q R W)) (ss : List ProviderStateEntry)
    → state_entries es ≡ ok ss
    → length ss ≡ length es
unfolding state_entries
length-state_entries [] ss h = ground arith
length-state_entries (e ∷ es) ss h = elim (Option-cases e.llm) [
  | inl missing ↦ ground arith
  | inr (llm, there) ↦ elim (Result-cases (state_entries es)) [
    | inr (x, failed) ↦ ground arith
    | inl (ts, done) ↦ ground (arith, length-state_entries es ts done)
  ]
]

module _ (trim lower : Text → Text) where
  validate_state_active :
      (ss : List ProviderStateEntry) (active : ℕ)
      → validate_state trim lower
          (record { version = provider_state_version; entries = ss; active = 0 })
        ≡ none
      → validate_state trim lower
          (record { version = provider_state_version; entries = ss; active = active })
        ≡ (if leb (length ss) active then some (out_of_range active) else none)
  unfolding validate_state
  validate_state_active ss active h = ground arith

  module _ {Q R W : Type 0} where
    state_from_entries-ok :
        (es : List (FallbackEntry Q R W)) (s : ProviderState)
        → state_from_entries trim lower es ≡ ok s
        → (ss : List ProviderStateEntry) × (s ≡ at_start ss)
          × (length ss ≡ length es)
          × (validate_state trim lower (at_start ss) ≡ none)
    unfolding state_from_entries
    state_from_entries-ok es s h = elim (Result-cases (state_entries es)) [
      | inr (x, failed) ↦ ground arith
      | inl (ss, done) ↦ elim (Option-cases (validate_state trim lower (at_start ss))) [
        | inr (x, refused) ↦ ground arith
        | inl valid ↦ (ss, ground (arith, done, valid, h), length-state_entries es ss done, valid)
      ]
    ]

    resume :
        (f : FallbackLlm Q R W) (ss : List ProviderStateEntry)
        → state_from_entries trim lower f.entries ≡ ok (at_start ss)
        → length ss ≡ length f.entries
        → validate_state trim lower (at_start ss) ≡ none
        → new_from_state trim lower f.entries (record (at_start ss) { active = f.active })
          ≡ (if leb (length f.entries) f.active then err (out_of_range f.active) else ok f)
    unfolding new_from_state
    resume f ss done same_length valid =
        rw (validate_state_active ss f.active valid, new_from_state)
          (ground (arith, done, same_length, match_entries_refl 0 ss))

    -- A chain whose position can be saved is built again from its entries and the saved position
    -- as it was, if it had an entry left; if it was exhausted, the saved position is refused as out
    -- of range.
    pub new_from_state-provider_state :
        (f : FallbackLlm Q R W) (s : ProviderState)
        → provider_state trim lower f ≡ ok s
        → new_from_state trim lower f.entries s
          ≡ (if leb (length f.entries) f.active then err (out_of_range f.active) else ok f)
    unfolding provider_state
    new_from_state-provider_state f s h =
        elim (Result-cases (state_from_entries trim lower f.entries)) [
          | inr (x, failed) ↦ ground arith
          | inl (t, done) ↦
              let (ss, fresh, same_length, valid) = state_from_entries-ok f.entries t done in
              let saved : record (at_start ss) { active = f.active } ≡ s =
                ground (arith, done, h, fresh) in
              subst
                (λ (u : ProviderState).
                  new_from_state trim lower f.entries u
                  ≡ (if leb (length f.entries) f.active then err (out_of_range f.active) else ok f))
                saved (resume f ss (rw fresh at done) same_length valid)
        ]
