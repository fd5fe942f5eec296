-- ===== src/CapGuard/Safety.antt =====
-- What a verdict of `evaluate_cap_guard_policy` (capmesh/cap_guard.py) guarantees.
use client_capmesh.Prelude.{
  Bool, ◌≡◌, ◌≢◌, refl, true, false, Option, some, List, [], ◌∷◌, Memᴰ, arith, elem-Memᴰ, present,
  Result, ok, any-false_Memᴰ, Memᴰ-select, ◌⊎◌, Memᴰ-map, any, select, any-Memᴰ,
}
use client_capmesh.Model.{Capability}
use client_capmesh.CapGuard.Policy.{
  malware_scan, signature, provenance, prompt_injection_scan, risk_tier_policy, Policy, Control,
  allow, control_name, passed, default_checks, no_isolation, deny, malware_scan,
}
use client_capmesh.CapGuard.Checks.{
  CheckResult, ScanResult, scan_check, status_check, injection_check, risk_tier_check,
  stated_or_counted, closed,
}
use client_capmesh.CapGuard.Evaluate.{
  Verdict, decide_action, blocking, evaluate_cap_guard_policy, make_verdict, run_check, is_failed,
  is_pending, is_hard,
}

default_checks_all : (k : Control) → Memᴰ k default_checks
default_checks_all malware_scan = Memᴰ.head refl
default_checks_all signature = Memᴰ.tail (Memᴰ.head refl)
default_checks_all provenance = Memᴰ.tail (Memᴰ.tail (Memᴰ.head refl))
default_checks_all prompt_injection_scan = Memᴰ.tail (Memᴰ.tail (Memᴰ.tail (Memᴰ.head refl)))
default_checks_all risk_tier_policy = Memᴰ.tail (Memᴰ.tail (Memᴰ.tail (Memᴰ.tail (Memᴰ.head refl))))

module _ (c : Capability) (scan : Option ScanResult) (policy : Policy)
    (injection : Option Bool) where
  abbrev evaluated : Result Verdict
  evaluated = evaluate_cap_guard_policy c scan policy injection

  evaluated_action :
      (v : Verdict)
      → evaluated ≡ ok v
      → v.action ≡ decide_action c scan policy injection (blocking c scan policy injection)
  unfolding evaluate_cap_guard_policy make_verdict
  evaluated_action v h = ground arith

  name-run_check : (k : Control) → (run_check c scan policy injection k).name ≡ k
  unfolding run_check scan_check status_check injection_check risk_tier_check
  name-run_check malware_scan = ground arith
  name-run_check signature = ground arith
  name-run_check provenance = ground arith
  name-run_check prompt_injection_scan = ground arith
  name-run_check risk_tier_policy = ground arith

  blocking-Memᴰ :
      (k : Control)
      → Memᴰ (control_name k) policy.enabled_checks
      → Memᴰ (control_name k) policy.blocking_checks
      → Memᴰ (run_check c scan policy injection k) (blocking c scan policy injection)
  unfolding blocking
  blocking-Memᴰ k e b =
      Memᴰ-select _ _
        (Memᴰ-map (run_check c scan policy injection) _
          (Memᴰ-select _ default_checks (default_checks_all k) (elem-Memᴰ _ e)))
        (rw name-run_check (elem-Memᴰ _ b))

  allow_passed :
      (checks : List CheckResult) {r : CheckResult}
      → decide_action c scan policy injection checks ≡ allow
      → Memᴰ r checks
      → r.state ≡ passed
  unfolding decide_action
  allow_passed checks {r} h m =
      let f : is_failed r ≡ false = any-false_Memᴰ is_failed checks (ground arith) m in
      let p : is_pending r ≡ false = any-false_Memᴰ is_pending checks (ground arith) m in
      ground (arith, f, p)

  hard_denied :
      (checks : List CheckResult) {r : CheckResult}
      → Memᴰ r checks
      → is_failed r ≡ true
      → is_hard r ≡ true
      → decide_action c scan policy injection checks ≡ deny
  unfolding decide_action
  hard_denied checks m f h =
      let found : any is_hard (select is_failed checks) ≡ true =
        any-Memᴰ is_hard _ (Memᴰ-select is_failed checks m f) h in
      rw found

  -- An allowed capability has passed every control that its policy enables and makes blocking.
  pub allow-passed :
      (v : Verdict) (k : Control)
      → evaluate_cap_guard_policy c scan policy injection ≡ ok v
      → v.action ≡ allow
      → Memᴰ (control_name k) policy.enabled_checks
      → Memᴰ (control_name k) policy.blocking_checks
      → (run_check c scan policy injection k).state ≡ passed
  allow-passed v k h a e b =
      allow_passed (blocking c scan policy injection) (ground (arith, evaluated_action v h))
        (blocking-Memᴰ k e b)

  -- A scan that ran and reported an error, or that failed without a counted high or critical
  -- finding, denies the capability wherever the malware scan is enabled and blocking, whatever the
  -- other controls say and whatever the rest of the policy, its field `fail_closed` included, although
  -- the docstring of `CapGuardPolicy` says that such a scan only quarantines where that is False.
  pub broken_scan-denied :
      (s : ScanResult) (v : Verdict)
      → scan ≡ some s
      → (present s.error ≡ true)
        ⊎ ((s.passed ≡ false)
            × (stated_or_counted s.critical_count "critical" s.findings ≡ 0)
            × (stated_or_counted s.high_count "high" s.findings ≡ 0))
      → Memᴰ "malwareScan" policy.enabled_checks
      → Memᴰ "malwareScan" policy.blocking_checks
      → evaluate_cap_guard_policy c scan policy injection ≡ ok v
      → (v.action ≡ deny) × (v.fail_closed ≡ true)
  unfolding evaluate_cap_guard_policy make_verdict run_check scan_check
  broken_scan-denied s v e broken en bl h =
      let m = blocking-Memᴰ malware_scan en bl in
      let shape : scan_check scan policy ≡ closed malware_scan = rw e (ground arith) in
      let m' : Memᴰ (closed malware_scan) (blocking c scan policy injection) = rw shape at m in
      let d = hard_denied (blocking c scan policy injection) m' refl refl in
      let f : any (λ (r : CheckResult). r.fail_closed)
            (select is_failed (blocking c scan policy injection))
          ≡ true =
        any-Memᴰ _ _ (Memᴰ-select is_failed _ m' refl) refl in
      ground (arith, d, f)

  -- An allowed verdict never runs a capability of high or critical risk without isolation.
  pub allow-isolated :
      (v : Verdict)
      → evaluate_cap_guard_policy c scan policy injection ≡ ok v
      → v.action ≡ allow
      → Memᴰ c.risk_tier ("high" ∷ "critical" ∷ [])
      → v.isolation_mode ≢ no_isolation
  unfolding evaluate_cap_guard_policy make_verdict
  allow-isolated v h a m e = ground (arith, elem-Memᴰ _ m)
