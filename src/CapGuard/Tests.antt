-- ===== src/CapGuard/Tests.antt =====
-- Runs of `evaluate_cap_guard_policy` and the theorems about it at the sample tool.
use client_capmesh.CapGuard.Checks.{result, closed, CheckResult}
use client_capmesh.Prelude.{
  ◌≡◌, ◌≢◌, refl, true, false, some, none, inl, Memᴰ, ok, codes, lower, strip, codes_eq, List, [],
  elem, all, meets, ◌∷◌, err, value_error,
}
use client_capmesh.Access.Samples.{tool}
use client_capmesh.CapGuard.Policy.{
  default_policy, malware_scan, signature, allow, deny, quarantine, camber, no_isolation, passed,
  make_policy, risk_tiers, pending, cire, low, provenance, prompt_injection_scan, risk_tier_policy,
}
use client_capmesh.CapGuard.Evaluate.{Verdict, evaluate_cap_guard_policy, run_check}
use client_capmesh.CapGuard.Safety.{allow-passed, broken_scan-denied, allow-isolated}
use client_capmesh.CapGuard.Defaults.{
  default_total, default_allow, unused_fields, IsClean, IsDangerous, reset,
}
use client_capmesh.CapGuard.Samples.{clean_scan, broken_scan, verdict}

abbrev tool_checks : List CheckResult
tool_checks =
    result malware_scan passed low
    ∷ result signature passed low
    ∷ result provenance passed low
    ∷ result prompt_injection_scan passed low
    ∷ result risk_tier_policy passed low
    ∷ []

-- the verdict on the tool, a capability of high risk
abbrev allowed : Verdict
allowed = record {
  action = allow;
  isolation_mode = camber;
  capability_uri = tool.uri;
  risk_tier = "high";
  checks = tool_checks;
  fail_closed = false;
}

tool_allowed : verdict (some clean_scan) default_policy (some true) ≡ ok allowed
unfolding verdict
tool_allowed = refl

-- without a scan and without an injection result the tool waits
not_scanned :
    verdict none default_policy none
    ≡ ok (record allowed {
      action = quarantine;
      checks =
          result malware_scan pending low
          ∷ result signature passed low
          ∷ result provenance passed low
          ∷ result prompt_injection_scan pending low
          ∷ result risk_tier_policy passed low
          ∷ [];
    })
unfolding verdict
not_scanned = refl

-- the verdict after a scan that did not finish
abbrev refused : Verdict
refused = record allowed {
  action = deny;
  checks =
      closed malware_scan
      ∷ result signature passed low
      ∷ result provenance passed low
      ∷ result prompt_injection_scan passed low
      ∷ result risk_tier_policy passed low
      ∷ [];
  fail_closed = true;
}

-- a policy that leaves the tool without isolation is refused by the verdict's own check
no_camber :
    verdict (some clean_scan) (record default_policy { camber_tiers = [] }) (some true)
    ≡ err value_error
unfolding verdict
no_camber = refl

default_policy_made : make_policy default_policy ≡ ok default_policy
unfolding make_policy elem all meets
default_policy_made = refl

allow-passed_example :
    (run_check tool (some clean_scan) default_policy (some true) signature).state ≡ passed
unfolding verdict
allow-passed_example =
    allow-passed tool (some clean_scan) default_policy (some true) allowed signature refl refl
      (Memᴰ.tail (Memᴰ.head refl)) (Memᴰ.tail (Memᴰ.head refl))

broken_scan-denied_example : (refused.action ≡ deny) × (refused.fail_closed ≡ true)
unfolding verdict
broken_scan-denied_example =
    broken_scan-denied tool (some broken_scan) default_policy (some true) broken_scan refused refl
      (inl refl) (Memᴰ.head refl) (Memᴰ.head refl) refl

allow-isolated_example : allowed.isolation_mode ≢ no_isolation
unfolding verdict
allow-isolated_example =
    allow-isolated tool (some clean_scan) default_policy (some true) allowed refl refl
      (Memᴰ.head refl)

default_total_example :
    (v : Verdict) × (evaluate_cap_guard_policy tool none default_policy (some false) ≡ ok v)
default_total_example = default_total tool none (some false)

default_allow_example :
    IsClean (some clean_scan)
    × (codes_eq (lower (strip (codes tool.signature_status))) (codes "verified") ≡ true)
    × (codes_eq (lower (strip (codes tool.provenance_status))) (codes "verified") ≡ true)
    × (some true ≡ some true)
    × Memᴰ tool.risk_tier risk_tiers
    × (IsDangerous tool.risk_tier → allowed.isolation_mode ≡ camber)
    × (tool.risk_tier ≡ "medium" → allowed.isolation_mode ≡ cire)
unfolding verdict
default_allow_example = default_allow tool (some clean_scan) (some true) allowed refl refl

unused_fields_example :
    evaluate_cap_guard_policy tool
      (some broken_scan)
      (reset tool (some broken_scan) (some true) default_policy false false true (some 60))
      (some true)
    ≡ evaluate_cap_guard_policy tool (some broken_scan) default_policy (some true)
unused_fields_example =
    unused_fields tool (some broken_scan) (some true) default_policy false false true (some 60)
