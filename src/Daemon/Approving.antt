-- ===== src/Daemon/Approving.antt =====
-- The call that an approval executes.
use mathlib.Core.Path.{subst}
use qi.Base.{
  ℕ, Text, ◌≡◌, refl, arith, Option, some, List, [], ◌∷◌, ok, err, ◌∙◌, sym, ap, Result-cases, inl,
  inr, lookup,
}
use qi.Policy
use qi.Policy.{Verdict}
use qi.Approval.{Pending, approved, QueueError}
use qi.Approval.Queue.{append_audit, commit, Queue, Host, approve, pending_for_transition}
use qi.Approval.Queue.Calls.{Call, step, run}
use qi.Approval.Queue.Inversion.{pending_for_transition-ok}
use qi.Approval.Queue.Changes.{Change, same, created, moved, SameCall}
use qi.Approval.Queue.Transitions.{step-Change}
use qi.Tools.Execute.{Reply, execute}
use qi.Daemon.{Codec, Server}
use qi.Daemon.Methods.{approve_id, finish_approval}

SameCall-refl : (p : Pending) → SameCall p p
SameCall-refl p = record {
  id = refl;
  caller = refl;
  call_id = refl;
  tool_name = refl;
  params = refl;
  created_at = refl;
}

SameCall-trans : (p r t : Pending) → SameCall p r → SameCall r t → SameCall p t
SameCall-trans p r t a b = record {
  id = a.id ∙ b.id;
  caller = a.caller ∙ b.caller;
  call_id = a.call_id ∙ b.call_id;
  tool_name = a.tool_name ∙ b.tool_name;
  params = a.params ∙ b.params;
  created_at = a.created_at ∙ b.created_at;
}

module _ {A : Type 0} (host : Host A) where
  Change-SameCall :
      (before after : Option Pending) (p : Pending)
      → Change before after
      → before ≡ some p
      → (r : Pending) × (after ≡ some r) × SameCall p r
  Change-SameCall before after p (same e) b = (p, e ∙ b, SameCall-refl p)
  Change-SameCall before after p (created r absent there fresh) b = cc
  Change-SameCall before after p (moved r t old new m c) b =
      let r_is_p : r ≡ p = ground arith in (t, new, subst (λ u. SameCall u t) r_is_p c)

  -- An entry keeps its call through any calls on the queue.
  run-SameCall :
      (q : Queue A) (cs : List Call) (id : Text) (p : Pending)
      → lookup id q.items ≡ some p
      → (r : Pending) × (lookup id (run host q cs).items ≡ some r) × SameCall p r
  unfolding run
  run-SameCall q [] id p there = (p, there, SameCall-refl p)
  run-SameCall q (c ∷ cs) id p there =
      let (r, next, first) = Change-SameCall _ _ p (step-Change host q c id) there in
      let (t, last, rest) = run-SameCall (step host q c) cs id r next in
      (t, last, SameCall-trans p r t first rest)

  approve-ok :
      (now : ℕ) (id : Text) (q : Queue A) (p : Pending)
      → (approve host now id q).1 ≡ ok p
      → (r : Pending) × (lookup id q.items ≡ some r) × SameCall r p
  unfolding approve commit append_audit
  approve-ok now id q p h = elim (Result-cases (pending_for_transition q id approved)) [
    | inr (x, e) ↦ absurd (refused x e)
    | inl (r, e) ↦
        let (there, kind) = pending_for_transition-ok q id approved r e in (r, there, accepted r e)
  ]
    where
      refused : (x : QueueError) → pending_for_transition q id approved ≡ err x → ⊥
      refused x e = ground arith

      accepted : (r : Pending) → pending_for_transition q id approved ≡ ok r → SameCall r p
      accepted r e = record {
        id = ground arith;
        caller = ground arith;
        call_id = ground arith;
        tool_name = ground arith;
        params = ground arith;
        created_at = ground arith;
      }

module _ {A W : Type 0} (host : Host A) (codec : Codec) (decider : Policy.Request → Verdict)
    (describe : Reply → Text) where
  finish_world :
      (later : ℕ) (id : Text) (reply : Reply) (q : Queue A) (s : Server A W)
      → (finish_approval host codec decider describe later id reply q s).0.world ≡ s.world
  unfolding finish_approval
  finish_world later id reply q s = ground arith

  accepted_world :
      (now later : ℕ) (id : Text) (q : Queue A) (p : Pending) (s : Server A W)
      → (approve host now id q).1 ≡ ok p
      → (approve_id host codec decider describe now later id q s).0.world
        ≡ (execute s.registry p.tool_name p.params s.world).1
  unfolding approve_id
  accepted_world now later id q p s e =
      rw (e, approve_id)
        (finish_world later id (execute s.registry p.tool_name p.params s.world).0
          (approve host now id q).0
          (record s { world = (execute s.registry p.tool_name p.params s.world).1 }))

  -- Approving an entry that was enqueued as `p`, after any calls on the queue: if the queue accepts
  -- the approval, the world outside is what executing the tool and the parameters of `p` makes of
  -- it; if it does not, the world stays as it is.
  pub approve_executes :
      (now later : ℕ) (id : Text) (q : Queue A) (cs : List Call) (p : Pending) (s : Server A W)
      → lookup id q.items ≡ some p
      → (approve_id host codec decider describe now later id (run host q cs) s).0.world
        ≡ elim (approve host now id (run host q cs)).1 [
          | ok r ↦ (execute s.registry p.tool_name p.params s.world).1
          | err e ↦ s.world
        ]
  unfolding approve_id
  approve_executes now later id q cs p s there =
      elim (Result-cases (approve host now id (run host q cs)).1) [
        | inr (x, e) ↦ rw (e, approve_id) refl
        | inl (r, e) ↦
            let (u, now_there, first) = run-SameCall host q cs id p there in
            let (v, found, second) = approve-ok host now id (run host q cs) r e in
            let v_is_u : v ≡ u = ground (arith, found, now_there) in
            let tool : p.tool_name ≡ r.tool_name =
              first.tool_name
              ∙ (sym (ap (λ (w : Pending). w.tool_name) v_is_u) ∙ second.tool_name) in
            let params : p.params ≡ r.params =
              first.params ∙ (sym (ap (λ (w : Pending). w.params) v_is_u) ∙ second.params) in
            accepted_world now later id (run host q cs) r s e ∙ rw (e, tool, params) refl
      ]
