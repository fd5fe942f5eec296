-- ===== src/CapGuard/Policy.antt =====
-- capmesh/cap_guard.py: the vocabularies, `CapGuardPolicy` with its validation, and the isolation
-- mode of a risk tier.
use client_capmesh.Prelude.{
  ℕ, String, Bool, true, false, not, Option, none, some, List, [], ◌∷◌, elem, meets, all, Result,
  ok, err, value_error, if◌then◌else◌, leb,
}

-- ISOLATION_MODES
pub data Isolation : Type 0 where
  no_isolation cire camber : Isolation

-- CHECK_STATES
pub data CheckState : Type 0 where
  pending passed failed : CheckState

-- GUARD_ACTIONS
pub data Action : Type 0 where
  allow deny quarantine : Action

-- SEVERITIES
pub data Severity : Type 0 where
  low medium high critical : Severity

-- the controls of DEFAULT_CHECKS
pub data Control : Type 0 where
  malware_scan signature provenance prompt_injection_scan risk_tier_policy : Control

abbrev pub control_name : Control → String
control_name malware_scan = "malwareScan"
control_name signature = "signature"
control_name provenance = "provenance"
control_name prompt_injection_scan = "promptInjectionScan"
control_name risk_tier_policy = "riskTierPolicy"

-- DEFAULT_CHECKS, in canonical order
abbrev pub default_checks : List Control
default_checks =
    malware_scan ∷ signature ∷ provenance ∷ prompt_injection_scan ∷ risk_tier_policy ∷ []

abbrev pub default_names : List String
default_names =
    "malwareScan" ∷ "signature" ∷ "provenance" ∷ "promptInjectionScan" ∷ "riskTierPolicy" ∷ []

abbrev pub risk_tiers : List String
risk_tiers = "low" ∷ "medium" ∷ "high" ∷ "critical" ∷ []

pub record Policy : Type 0 where
  pub enabled_checks : List String
  pub blocking_checks : List String
  pub fail_closed : Bool
  pub camber_tiers : List String
  pub cire_tiers : List String
  pub allow_cire_downgrade : Bool
  pub deny_on_high_findings : Bool
  pub quarantine_on_medium_findings : Bool
  pub max_scan_age_seconds : Option ℕ

-- CapGuardPolicy()
abbrev pub default_policy : Policy
default_policy = record {
  enabled_checks = default_names;
  blocking_checks = default_names;
  fail_closed = true;
  camber_tiers = "high" ∷ "critical" ∷ [];
  cire_tiers = "medium" ∷ [];
  allow_cire_downgrade = false;
  deny_on_high_findings = true;
  quarantine_on_medium_findings = true;
  max_scan_age_seconds = none;
}

abbrev pub is_positive : Option ℕ → Bool
is_positive none = true
is_positive (some n) = leb 1 n

-- `__post_init__`: the policy is built only if it passes. A negative age is refused as 0 is.
unfoldable pub make_policy : Policy → Result Policy
make_policy p =
    if not (all (λ c. elem c default_names) p.enabled_checks)
    then err value_error
    else if not (all (λ c. elem c p.enabled_checks) p.blocking_checks)
    then err value_error
    else if not (all (λ t. elem t risk_tiers) p.camber_tiers)
    then err value_error
    else if not (all (λ t. elem t risk_tiers) p.cire_tiers)
    then err value_error
    else if meets p.camber_tiers p.cire_tiers
    then err value_error
    else if not (is_positive p.max_scan_age_seconds)
    then err value_error
    else ok p

unfoldable pub decide_isolation_mode : String → Policy → Isolation
decide_isolation_mode risk_tier p =
    if elem risk_tier p.camber_tiers
    then camber
    else if elem risk_tier p.cire_tiers
    then cire
    else if not (elem risk_tier risk_tiers)
    then camber
    else no_isolation
