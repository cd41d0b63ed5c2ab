-- ===== src/Drain/Totals.antt =====
-- What a pass over the remote queue did, by how it ended.
use qi.Base.{
  ◌≡◌, ℕ, arith, Text, Bool, Option, none, some, List, [], ◌⊎◌, length, Option-cases, inl, inr,
}
use qi.Drain.{
  DrainFailure, DrainError, not_acked, Services, Drained, Passed, after_pass, reject_failures,
}

module _ (trim : Text → Text) (parse_date : Text → Option ℕ)
    (is_client : Option (Text → Bool)) where
  module _ {W : Type 0} (services : Services W) where
    abbrev pub after : Passed W → Drained W
    after p = after_pass trim parse_date is_client services p

    abbrev pub rejecting : ℕ → List DrainFailure → W → Drained W
    rejecting n fs w = reject_failures trim parse_date is_client services n fs w

    pub after_failed : (p : Passed W) (x : DrainError) → p.error ≡ some x → (after p).error ≡ some x
    unfolding after_pass
    after_failed p x h = ground arith

    pub after_unacked :
        (p : Passed W) (x : Text)
        → p.error ≡ none
        → (services.ack p.written p.world).1 ≡ some x
        → (after p).error ≡ some (not_acked x)
    unfolding after_pass
    after_unacked p x h k = ground arith

    pub after_acked :
        (p : Passed W)
        → p.error ≡ none
        → (services.ack p.written p.world).1 ≡ none
        → after p ≡ rejecting (length p.written) p.failures (services.ack p.written p.world).0
    unfolding after_pass
    after_acked p h k = ground arith

    pub after_ok :
        (p : Passed W)
        → (after p).error ≡ none
        → (p.error ≡ none)
          × ((services.ack p.written p.world).1 ≡ none)
          × (after p ≡ rejecting (length p.written) p.failures (services.ack p.written p.world).0)
    after_ok p h = elim (Option-cases p.error) [
      | inr (x, e) ↦ absurd (cc (after_failed p x e))
      | inl e ↦ elim (Option-cases (services.ack p.written p.world).1) [
        | inr (x, k) ↦ absurd (cc (after_unacked p x e k))
        | inl k ↦ (e, k, after_acked p e k)
      ]
    ]

    -- The deadletters of a pass that ends without an error.
    abbrev pub Deadlettered : List DrainFailure → W → W → Type 0
    Deadlettered fs w w' = ((fs ≡ []) × (w' ≡ w)) ⊎ (services.deadletter fs w ≡ (w', none))
