-- ===== src/CapGuard/Samples.antt =====
-- A reviewed tool, a clean scan, and evaluation at them.
use client_capmesh.Prelude.{
  Bool, Option, none, some, [], Result, true, false, elem, any, select, strip, lower, contains,
  codes_eq,
}
use client_capmesh.Access.Samples.{tool}
use client_capmesh.CapGuard.Policy.{Policy, decide_isolation_mode}
use client_capmesh.CapGuard.Checks.{
  ScanResult, scan_check, completed_scan, stated_or_counted, count_of, status_check,
  injection_check, risk_tier_check,
}
use client_capmesh.CapGuard.Evaluate.{
  Verdict, evaluate_cap_guard_policy, make_verdict, run_check, results, blocking, decide_action,
}

abbrev pub clean_scan : ScanResult
clean_scan = record {
  passed = true;
  error = none;
  findings = [];
  critical_count = none;
  high_count = none;
}

-- a scan that did not finish
abbrev pub broken_scan : ScanResult
broken_scan = record clean_scan { passed = false; error = some "timeout" }

-- The verdict on the tool; to unfold it is to unfold all of the code, for tests.
unfoldable pub verdict : Option ScanResult → Policy → Option Bool → Result Verdict
unfolding evaluate_cap_guard_policy make_verdict run_check results blocking decide_action scan_check
    completed_scan stated_or_counted count_of status_check injection_check risk_tier_check
    decide_isolation_mode elem any select strip lower contains codes_eq
verdict scan policy injection = evaluate_cap_guard_policy tool scan policy injection
