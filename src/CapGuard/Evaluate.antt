-- ===== src/CapGuard/Evaluate.antt =====
-- capmesh/cap_guard.py: `evaluate_cap_guard_policy`.
use client_capmesh.Prelude.{
  String, Bool, true, false, ◌&&◌, Option, List, [], ◌∷◌, elem, any, select, map, Result, ok, err,
  value_error, if◌then◌else◌,
}
use client_capmesh.Model.{Capability}
use client_capmesh.CapGuard.Policy.{
  Isolation, no_isolation, cire, camber, pending, failed, Action, allow, deny, quarantine, high,
  critical, Control, malware_scan, signature, provenance, prompt_injection_scan, risk_tier_policy,
  control_name, default_checks, Policy, decide_isolation_mode,
}
use client_capmesh.CapGuard.Checks.{
  CheckResult, ScanResult, scan_check, status_check, injection_check, risk_tier_check,
}

pub record Verdict : Type 0 where
  pub action : Action
  pub isolation_mode : Isolation
  pub capability_uri : String
  pub risk_tier : String
  pub checks : List CheckResult
  pub fail_closed : Bool

abbrev pub is_unisolated : Isolation → Bool
is_unisolated no_isolation = true
is_unisolated cire = false
is_unisolated camber = false

abbrev pub is_allow : Action → Bool
is_allow allow = true
is_allow deny = false
is_allow quarantine = false

-- `CapGuardVerdict.__post_init__`
unfoldable pub make_verdict : Verdict → Result Verdict
make_verdict v =
    if is_allow v.action
      && (elem v.risk_tier ("high" ∷ "critical" ∷ []) && is_unisolated v.isolation_mode)
    then err value_error
    else ok v

abbrev pub is_failed : CheckResult → Bool
is_failed c = elim c.state [ failed ↦ true | _ ↦ false ]

abbrev pub is_pending : CheckResult → Bool
is_pending c = elim c.state [ pending ↦ true | _ ↦ false ]

abbrev pub is_high : CheckResult → Bool
is_high c = elim c.severity [ high ↦ true | _ ↦ false ]

-- c.severity in ("high", "critical") or c.fail_closed
abbrev pub is_hard : CheckResult → Bool
is_hard c = elim c.severity [ high ↦ true | critical ↦ true | _ ↦ c.fail_closed ]

module _ (capability : Capability) (scan : Option ScanResult) (policy : Policy)
    (injection : Option Bool) where
  -- the branches of the loop over the enabled controls
  unfoldable pub run_check : Control → CheckResult
  run_check malware_scan = scan_check scan policy
  run_check signature = status_check signature capability.signature_status
  run_check provenance = status_check provenance capability.provenance_status
  run_check prompt_injection_scan = injection_check injection
  run_check risk_tier_policy = risk_tier_check capability.risk_tier

  unfoldable pub results : List CheckResult
  results =
      map run_check
        (select (λ (c : Control). elem (control_name c) policy.enabled_checks) default_checks)

  unfoldable pub blocking : List CheckResult
  unfolding results
  blocking = select (λ (c : CheckResult). elem (control_name c.name) policy.blocking_checks) results

  -- the four rules
  unfoldable pub decide_action : List CheckResult → Action
  decide_action checks =
      let failures = select is_failed checks in
      if any is_hard failures
      then deny
      else if any is_failed checks
      then (if policy.deny_on_high_findings && any is_high failures then deny else quarantine)
      else if any is_pending checks
      then quarantine
      else allow

  unfoldable pub evaluate_cap_guard_policy : Result Verdict
  evaluate_cap_guard_policy = make_verdict (record {
    action = decide_action blocking;
    isolation_mode = decide_isolation_mode capability.risk_tier policy;
    capability_uri = capability.uri;
    risk_tier = capability.risk_tier;
    checks = results;
    fail_closed = any (λ (c : CheckResult). c.fail_closed) (select is_failed blocking);
  })
