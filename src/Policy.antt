-- ===== src/Policy.antt =====
-- internal/policy/policy.go: whether a call runs, waits for the user, or is refused.
use qi.Base.{Text, codes, ◌==◌, [], if◌then◌else◌}
use qi.Tools.{Tool}

pub data Decision : Type 0 where
  allow confirm deny : Decision

pub record Verdict : Type 0 where
  pub decision : Decision
  pub reason : Text

pub record Request : Type 0 where
  pub caller : Text
  pub tool : Tool
  pub params : Text

abbrev pub caller_cli : Text
caller_cli = codes "cli"

abbrev pub needs_approval : Text
needs_approval = codes "mutation by non-cli caller requires approval"

unfoldable pub decide : Request → Verdict
decide req =
    if req.caller == []
    then record { decision = deny; reason = codes "missing caller identity" }
    else if req.caller == caller_cli
    then record { decision = allow; reason = codes "cli call is user-driven" }
    else if req.tool.mutating
    then record { decision = confirm; reason = needs_approval }
    else record { decision = allow; reason = codes "read-only tool" }
