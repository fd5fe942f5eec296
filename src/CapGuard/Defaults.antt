-- ===== src/CapGuard/Defaults.antt =====
-- `evaluate_cap_guard_policy` (capmesh/cap_guard.py) under the production policy, and the fields of
-- the policy that it does not use.
use client_capmesh.Prelude.{
  String, Bool, ◌≡◌, ◌≢◌, refl, true, false, Option, none, some, List, [], ◌∷◌, Memᴰ, arith, elem,
  elem-Memᴰ, Memᴰ-of-elem, present, ok, any, select, codes_eq, lower, strip, codes, ℕ, ◌∙◌, ap,
}
use mathlib.Core.Path.{fun_ext}
use client_capmesh.Model.{Capability}
use client_capmesh.CapGuard.Policy.{
  Policy, default_policy, malware_scan, signature, provenance, prompt_injection_scan,
  risk_tier_policy, decide_isolation_mode, default_names, control_name, allow, risk_tiers, camber,
  cire, no_isolation, Control, passed,
}
use client_capmesh.CapGuard.Checks.{
  CheckResult, ScanResult, count_of, scan_check, status_check, injection_check, risk_tier_check,
}
use client_capmesh.CapGuard.Evaluate.{
  Verdict, decide_action, blocking, evaluate_cap_guard_policy, make_verdict, run_check, is_hard,
  is_high, is_failed, results,
}
use client_capmesh.CapGuard.Safety.{allow-passed}

abbrev pub IsDangerous : String → Type 0
IsDangerous tier = Memᴰ tier ("high" ∷ "critical" ∷ [])

make_verdict_ok :
    (v : Verdict)
    → (elem v.risk_tier ("high" ∷ "critical" ∷ []) ≡ true → v.isolation_mode ≢ no_isolation)
    → make_verdict v ≡ ok v
unfolding make_verdict
make_verdict_ok v h = ground (arith, h)

default_camber :
    (tier : String)
    → elem tier ("high" ∷ "critical" ∷ []) ≡ true
    → decide_isolation_mode tier default_policy ≡ camber
unfolding decide_isolation_mode
default_camber tier h = rw h

default_cire : decide_isolation_mode "medium" default_policy ≡ cire
unfolding decide_isolation_mode elem
default_cire = refl

-- What a scan that passes the control has shown.
pub record IsClean (scan : Option ScanResult) : Type 0 where
  pub report : ScanResult
  pub ran : scan ≡ some report
  pub no_error : present report.error ≡ false
  pub clean : report.passed ≡ true
  pub no_medium : count_of "medium" report.findings ≡ 0

scan_check_passed :
    (scan : Option ScanResult) → (scan_check scan default_policy).state ≡ passed → IsClean scan
unfolding scan_check
scan_check_passed none h = absurd (ground arith)
scan_check_passed (some s) h = record {
  report = s;
  ran = refl;
  no_error = ground arith;
  clean = ground arith;
  no_medium = ground arith;
}

status_check_passed :
    (name : Control) (status : String)
    → (status_check name status).state ≡ passed
    → codes_eq (lower (strip (codes status))) (codes "verified") ≡ true
unfolding status_check
status_check_passed name status h = ground arith

injection_check_passed :
    (injection : Option Bool) → (injection_check injection).state ≡ passed → injection ≡ some true
unfolding injection_check
injection_check_passed injection h = ground arith

risk_tier_check_passed :
    (tier : String) → (risk_tier_check tier).state ≡ passed → elem tier risk_tiers ≡ true
unfolding risk_tier_check
risk_tier_check_passed tier h = ground arith

default_names_all : (k : Control) → Memᴰ (control_name k) default_names
default_names_all malware_scan = Memᴰ.head refl
default_names_all signature = Memᴰ.tail (Memᴰ.head refl)
default_names_all provenance = Memᴰ.tail (Memᴰ.tail (Memᴰ.head refl))
default_names_all prompt_injection_scan = Memᴰ.tail (Memᴰ.tail (Memᴰ.tail (Memᴰ.head refl)))
default_names_all risk_tier_policy = Memᴰ.tail (Memᴰ.tail (Memᴰ.tail (Memᴰ.tail (Memᴰ.head refl))))

module _ (c : Capability) (scan : Option ScanResult) (injection : Option Bool) where
  -- Under the production policy the evaluation never raises: a verdict is returned for every
  -- capability, scan and injection result.
  pub default_total :
      (v : Verdict) × (evaluate_cap_guard_policy c scan default_policy injection ≡ ok v)
  unfolding evaluate_cap_guard_policy
  default_total = (_, make_verdict_ok _ (λ d e. cc (default_camber c.risk_tier d)))

  isolation_of :
      (v : Verdict)
      → evaluate_cap_guard_policy c scan default_policy injection ≡ ok v
      → v.isolation_mode ≡ decide_isolation_mode c.risk_tier default_policy
  unfolding evaluate_cap_guard_policy make_verdict
  isolation_of v h = ground arith

  default_passed :
      (v : Verdict) (k : Control)
      → evaluate_cap_guard_policy c scan default_policy injection ≡ ok v
      → v.action ≡ allow
      → (run_check c scan default_policy injection k).state ≡ passed
  default_passed v k h a =
      allow-passed c scan default_policy injection v k h a (default_names_all k)
        (default_names_all k)

  -- Under the production policy a capability is allowed only if a scan ran without error, passed,
  -- and found nothing of medium severity, its signature and its provenance read `verified`, the
  -- injection scan was clean, and its risk tier is one of the four; and then a tier of high or
  -- critical risk runs in Camber, and a medium one in CIRE.
  pub default_allow :
      (v : Verdict)
      → evaluate_cap_guard_policy c scan default_policy injection ≡ ok v
      → v.action ≡ allow
      → IsClean scan
        × (codes_eq (lower (strip (codes c.signature_status))) (codes "verified") ≡ true)
        × (codes_eq (lower (strip (codes c.provenance_status))) (codes "verified") ≡ true)
        × (injection ≡ some true)
        × Memᴰ c.risk_tier risk_tiers
        × (IsDangerous c.risk_tier → v.isolation_mode ≡ camber)
        × (c.risk_tier ≡ "medium" → v.isolation_mode ≡ cire)
  unfolding run_check
  default_allow v h a =
      let iso = isolation_of v h in
      (
        scan_check_passed scan (default_passed v malware_scan h a),
        status_check_passed signature c.signature_status (default_passed v signature h a),
        status_check_passed provenance c.provenance_status (default_passed v provenance h a),
        injection_check_passed injection (default_passed v prompt_injection_scan h a),
        Memᴰ-of-elem _ _
            (risk_tier_check_passed c.risk_tier (default_passed v risk_tier_policy h a)),
        λ d. iso ∙ default_camber c.risk_tier (elem-Memᴰ _ d),
        λ e. iso ∙ (ap (λ t. decide_isolation_mode t default_policy) e ∙ default_cire),
      )

-- a high severity is a hard failure, so the later test for one finds none
high-hard : (checks : List CheckResult) → any is_hard checks ≡ false → any is_high checks ≡ false
unfolding any
high-hard [] h = refl
high-hard (r ∷ rs) h = ground (arith, high-hard rs)

module _ (c : Capability) (scan : Option ScanResult) (injection : Option Bool) (p : Policy)
    (closed deny_high downgrade : Bool) (age : Option ℕ) where
  -- the policy with the four fields set anew
  abbrev pub reset : Policy
  reset = record p {
    fail_closed = closed;
    deny_on_high_findings = deny_high;
    allow_cire_downgrade = downgrade;
    max_scan_age_seconds = age;
  }

  scan_check-reset : (s : Option ScanResult) → scan_check s reset ≡ scan_check s p
  unfolding scan_check
  scan_check-reset none = refl
  scan_check-reset (some s) = refl

  run_check-reset :
      (k : Control) → run_check c scan reset injection k ≡ run_check c scan p injection k
  unfolding run_check
  run_check-reset malware_scan = scan_check-reset scan
  run_check-reset signature = refl
  run_check-reset provenance = refl
  run_check-reset prompt_injection_scan = refl
  run_check-reset risk_tier_policy = refl

  results-reset : results c scan reset injection ≡ results c scan p injection
  unfolding results
  results-reset = rw (fun_ext run_check-reset)

  blocking-reset : blocking c scan reset injection ≡ blocking c scan p injection
  unfolding blocking
  blocking-reset = rw (fun_ext run_check-reset)

  isolation-reset : decide_isolation_mode c.risk_tier reset ≡ decide_isolation_mode c.risk_tier p
  unfolding decide_isolation_mode
  isolation-reset = refl

  decide_action-reset :
      (checks : List CheckResult)
      → decide_action c scan reset injection checks ≡ decide_action c scan p injection checks
  unfolding decide_action
  decide_action-reset checks = ground (arith, high-hard (select is_failed checks))

  -- A policy's verdict does not change with its fields `fail_closed`, `deny_on_high_findings`,
  -- `allow_cire_downgrade` and `max_scan_age_seconds`, whatever values they are given.
  pub unused_fields :
      evaluate_cap_guard_policy c scan reset injection
      ≡ evaluate_cap_guard_policy c scan p injection
  unfolding evaluate_cap_guard_policy
  unused_fields = rw (
    results-reset,
    blocking-reset,
    isolation-reset,
    decide_action-reset (blocking c scan p injection),
  )
