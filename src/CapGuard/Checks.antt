-- ===== src/CapGuard/Checks.antt =====
-- capmesh/cap_guard.py: the result of each control.
use client_capmesh.Prelude.{
  ℕ, String, Bool, true, false, ◌&&◌, ◌||◌, not, Option, none, some, List, ◌==◌, elem, select,
  length, codes, strip, lower, codes_eq, contains, present, if◌then◌else◌, ltb,
}
use client_capmesh.CapGuard.Policy.{
  CheckState, pending, passed, failed, Severity, low, medium, high, critical, Control, malware_scan,
  prompt_injection_scan, risk_tier_policy, risk_tiers, Policy,
}

pub record CheckResult : Type 0 where
  pub name : Control
  pub state : CheckState
  pub severity : Severity
  pub fail_closed : Bool

abbrev pub result : Control → CheckState → Severity → CheckResult
result name state severity = record {
  name = name;
  state = state;
  severity = severity;
  fail_closed = false;
}

-- a failure of a fail-closed control
abbrev pub closed : Control → CheckResult
closed name = record { name = name; state = failed; severity = critical; fail_closed = true }

-- The dict of a scan: `findings` holds the severity of each finding. The counts are taken not to be
-- negative; the source would treat a negative one like one above 0.
pub record ScanResult : Type 0 where
  pub passed : Bool
  pub error : Option String
  pub findings : List String
  pub critical_count : Option ℕ
  pub high_count : Option ℕ

unfoldable pub count_of : String → List String → ℕ
count_of severity findings = length (select (λ f. f == severity) findings)

-- the count in the dict, or else that of the findings
unfoldable pub stated_or_counted : Option ℕ → String → List String → ℕ
stated_or_counted none severity findings = count_of severity findings
stated_or_counted (some n) severity findings = n

unfoldable pub completed_scan : ScanResult → Policy → CheckResult
completed_scan scan policy =
    let crit = stated_or_counted scan.critical_count "critical" scan.findings in
    let hi = stated_or_counted scan.high_count "high" scan.findings in
    if not scan.passed && (ltb 0 crit || ltb 0 hi)
    then result malware_scan failed (if ltb 0 crit then critical else high)
    else if not scan.passed
    then closed malware_scan
    else if ltb 0 (count_of "medium" scan.findings) && policy.quarantine_on_medium_findings
    then result malware_scan failed medium
    else result malware_scan passed low

unfoldable pub scan_check : Option ScanResult → Policy → CheckResult
unfolding completed_scan
scan_check none policy = result malware_scan pending low
scan_check (some scan) policy =
    if present scan.error then closed malware_scan else completed_scan scan policy

-- The status is a column that is never NULL, so it is no Option.
unfoldable pub status_check : Control → String → CheckResult
status_check name status =
    let norm = lower (strip (codes status)) in
    if codes_eq norm (codes "verified")
    then result name passed low
    else if contains (codes "fail") norm
        || (contains (codes "invalid") norm || contains (codes "reject") norm)
    then result name failed high
    else result name pending low

unfoldable pub injection_check : Option Bool → CheckResult
injection_check none = result prompt_injection_scan pending low
injection_check (some true) = result prompt_injection_scan passed low
injection_check (some false) = result prompt_injection_scan failed critical

unfoldable pub risk_tier_check : String → CheckResult
risk_tier_check risk_tier =
    if elem risk_tier risk_tiers
    then result risk_tier_policy passed low
    else result risk_tier_policy failed high
