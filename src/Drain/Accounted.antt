-- ===== src/Drain/Accounted.antt =====
-- Which rows of a pass are written, acked and deadlettered.
use qi.Base.{
  ◌≡◌, refl, sym, ap, ◌∙◌, ℕ, ◌+◌, arith, Text, Bool, Option, none, some, List, [], ◌∷◌, length,
  Result, ok, err, Result-cases, Option-cases, inl, inr,
}
use qi.Drain.{
  RemoteTask, Rejection, DrainFailure, not_written, Services, Write, Passed, route, perform, pass,
  with_failure, with_written,
}

abbrev pub take_row : Text → Result Rejection Write → List (Text × Write) → List (Text × Write)
take_row id (ok act) rest = (id, act) ∷ rest
take_row id (err x) rest = rest

abbrev pub reject_row : Text → Result Rejection Write → List DrainFailure → List DrainFailure
reject_row id (ok act) rest = rest
reject_row id (err x) rest = record { id = id; reason = x } ∷ rest

abbrev pub ids_of : List (Text × Write) → List Text
ids_of [] = []
ids_of ((id, act) ∷ acts) = id ∷ ids_of acts

pub length-ids_of : (acts : List (Text × Write)) → length (ids_of acts) ≡ length acts
length-ids_of [] = refl
length-ids_of ((id, act) ∷ acts) = omega (arith, length-ids_of acts)

module _ (trim : Text → Text) (parse_date : Text → Option ℕ)
    (is_client : Option (Text → Bool)) where
  abbrev pub routed : RemoteTask → Result Rejection Write
  routed r = route trim parse_date is_client r

  -- The rows that are taken, and those that are rejected, in their order.
  abbrev pub taken : List RemoteTask → List (Text × Write)
  taken [] = []
  taken (r ∷ rs) = take_row r.id (routed r) (taken rs)

  abbrev pub rejected_rows : List RemoteTask → List DrainFailure
  rejected_rows [] = []
  rejected_rows (r ∷ rs) = reject_row r.id (routed r) (rejected_rows rs)

  -- Every row is the one or the other.
  pub all_rows : (rs : List RemoteTask) → length (taken rs) + length (rejected_rows rs) ≡ length rs
  all_rows [] = omega arith
  all_rows (r ∷ rs) = elim (Result-cases (routed r)) [
    | inl (act, e) ↦ rw e (omega (arith, all_rows rs))
    | inr (x, e) ↦ rw e (omega (arith, all_rows rs))
  ]

  module _ {W : Type 0} (services : Services W) where
    -- Every write succeeds, one after the other, and leaves this world.
    pub data Written : List (Text × Write) → W → W → Type 0 where
      done : {w : W} → Written [] w w
      next :
          {id : Text} {act : Write} {acts : List (Text × Write)} {w w' w'' : W}
          → perform trim parse_date is_client services act w ≡ (w', none)
          → Written acts w' w''
          → Written ((id, act) ∷ acts) w w''

    abbrev pub passed : List RemoteTask → W → Passed W
    passed rs w = pass trim parse_date is_client services rs w

    abbrev pub performed : Write → W → W × Option Text
    performed act w = perform trim parse_date is_client services act w

    pub pass_rejected :
        (r : RemoteTask) (rs : List RemoteTask) (w : W) (x : Rejection)
        → routed r ≡ err x
        → passed (r ∷ rs) w ≡ with_failure trim parse_date is_client services r x (passed rs w)
    unfolding pass
    pass_rejected r rs w x e = ground arith

    pub pass_written :
        (r : RemoteTask) (rs : List RemoteTask) (w : W) (act : Write)
        → routed r ≡ ok act
        → (performed act w).1 ≡ none
        → passed (r ∷ rs) w
          ≡ with_written trim parse_date is_client services r (passed rs (performed act w).0)
    unfolding pass
    pass_written r rs w act e h = ground arith

    pub pass_stopped :
        (r : RemoteTask) (rs : List RemoteTask) (w : W) (act : Write) (x : Text)
        → routed r ≡ ok act
        → (performed act w).1 ≡ some x
        → passed (r ∷ rs) w ≡ record {
          world = (performed act w).0;
          written = [];
          failures = [];
          error = some (not_written r.id x);
        }
    unfolding pass
    pass_stopped r rs w act x e h = ground arith

    pub pass_ok :
        (rs : List RemoteTask) (w : W)
        → (passed rs w).error ≡ none
        → ((passed rs w).written ≡ ids_of (taken rs))
          × ((passed rs w).failures ≡ rejected_rows rs)
          × Written (taken rs) w (passed rs w).world
    unfolding pass
    pass_ok [] w h = (refl, refl, done)
    pass_ok (r ∷ rs) w h = elim (Result-cases (routed r)) [
      | inr (x, e) ↦
          let same = pass_rejected r rs w x e in
          let (ids, fails, all) = pass_ok rs w (sym (ap (λ p. p.error) same) ∙ h) in
          rw (same, e) (ids, ap (λ fs. record { id = r.id; reason = x } ∷ fs) fails, all)
      | inl (act, e) ↦ elim (Option-cases (performed act w).1) [
        | inr (x, failed) ↦ absurd (cc (ap (λ p. p.error) (pass_stopped r rs w act x e failed)))
        | inl wrote ↦
            let same = pass_written r rs w act e wrote in
            let (ids, fails, all) =
              pass_ok rs (performed act w).0 (sym (ap (λ p. p.error) same) ∙ h) in
            rw (same, e)
              (ap (λ ks. r.id ∷ ks) ids, fails, next (ap (λ o. ((performed act w).0, o)) wrote) all)
      ]
    ]
