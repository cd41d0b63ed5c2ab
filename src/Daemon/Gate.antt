-- ===== src/Daemon/Gate.antt =====
-- What a call of a tool may do before anybody approved it.
use qi.Base.{
  ◌||◌, ℕ, Text, true, false, not, ◌==◌, ◌≡◌, ◌≢◌, refl, arith, some, List, [], if◌then◌else◌,
  Bool-cases, inl, inr, lookup,
}
use qi.Policy
use qi.Policy.{Verdict, decide, caller_cli, allow, confirm, deny}
use qi.Approval.Queue.{Host}
use qi.Tools.{Tool}
use qi.Tools.Registry.{lookup_tool}
use qi.Tools.Execute.{Reply}
use qi.Daemon.{Codec, CallParams, Server}
use qi.Daemon.Methods.{call_tool, tools_call, decide_call, queue_call}

-- The default policy denies a call without a caller, allows the command line everything and
-- everybody the tools that are not mutating, and has the rest confirmed.
pub decide_rules :
    (req : Policy.Request)
    → (decide req).decision ≡ (
        if req.caller == []
        then deny
        else if req.caller == caller_cli || not req.tool.mutating
        then allow
        else confirm)
unfolding decide
decide_rules req = ground arith

not_allowed :
    (p : CallParams) (t : Tool)
    → (p.caller == caller_cli) ≡ false
    → t.mutating ≡ true
    → (decide (record { caller = p.caller; tool = t; params = p.arguments })).decision ≢ allow
not_allowed p t other mutating e =
    ground (arith, decide_rules (record { caller = p.caller; tool = t; params = p.arguments }))

module _ {A W : Type 0} (host : Host A) (codec : Codec) (describe : Reply → Text) where
  decide_call_gated :
      (now : ℕ) (draws : List Text) (p : CallParams) (v : Verdict) (s : Server A W)
      → v.decision ≢ allow
      → ((decide_call host codec decide describe now draws p v s).0.world ≡ s.world)
        × ((decide_call host codec decide describe now draws p v s).0.registry ≡ s.registry)
  unfolding decide_call queue_call
  decide_call_gated now draws p v s h = ground arith

  -- Under the default policy a call of a registered mutating tool by any caller but the command
  -- line changes neither the world outside nor the catalog, whatever it answers.
  pub tools_call_gated :
      (now : ℕ) (draws : List Text) (raw : Text) (p : CallParams) (t : Tool) (s : Server A W)
      → codec.decode_call raw ≡ some p
      → lookup p.name s.registry.tools ≡ some t
      → t.mutating ≡ true
      → (p.caller == caller_cli) ≡ false
      → ((tools_call host codec decide describe now draws raw s).0.world ≡ s.world)
        × ((tools_call host codec decide describe now draws raw s).0.registry ≡ s.registry)
  unfolding tools_call call_tool lookup_tool
  tools_call_gated now draws raw p t s decoded there mutating other =
      elim (Bool-cases (raw == [])) [
        | inl absent ↦ rw (absent, tools_call) (refl, refl)
        | inr present ↦ elim (Bool-cases (p.name == [])) [
          | inl unnamed ↦ rw (present, decoded, unnamed, tools_call) (refl, refl)
          | inr named ↦
              rw (present, decoded, named, there, tools_call, call_tool)
                (decide_call_gated now draws p _ s (not_allowed p t other mutating))
        ]
      ]
