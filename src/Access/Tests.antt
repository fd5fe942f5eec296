-- ===== src/Access/Tests.antt =====
-- Runs of `evaluate_access` and the theorems about it at the sample tenant.
use client_capmesh.Access.Isolation.{membership-on_record, IsScopeOf}
use client_capmesh.Access.Grants.{tenant_of, is_null, is_current}
use client_capmesh.Access.Cache.{IsCoherent, cache_transparent, nil-IsCoherent}
use client_capmesh.Access.Audit.{decision_row, evaluate_access-decisions}
use client_capmesh.Access.Rights.{read_rights, rights, role_has_right}
use client_capmesh.Access.Records.{IsRecorded}
use client_capmesh.Access.Strength.{reserved-IsRecorded, open_grant-reads}
use client_capmesh.Access.Refs.{is_disabled, subject_refs}
use client_capmesh.Access.Denial.{
  deny_wins, allowed-step_up, allowed-integrity, allowed-principal, allowed-live,
}
use client_capmesh.Prelude.{◌≡◌, refl, true, false, none, some, inr, Memᴰ, [], ◌∷◌, ◌⊎◌, or_else}
use client_capmesh.Model.{
  by_role_assignment, by_share, Capability, World, no_matching_grant, explicit_deny,
  by_all_users_store, RoleAssignment,
}
use client_capmesh.Access.Evaluate.{
  evaluate_access, allow, Request, decide, deny, blocked_states, blocked_lifecycles,
}
use client_capmesh.Access.Samples.{
  env, alice, admin, tool, membership, denial, promotion, world, ask, verdict,
}

-- alice is a member of the organization
member_loads : (evaluate_access env world (ask alice "load") true).0 ≡ allow by_role_assignment
unfolding verdict
member_loads = refl

no_member :
    (evaluate_access env (record world { role_assignments = [] }) (ask alice "load") true).0
    ≡ deny no_matching_grant
unfolding verdict
no_member = refl

admin_denied : (evaluate_access env world (ask admin "load") true).0 ≡ deny explicit_deny
unfolding verdict
admin_denied = refl

stale :
    (evaluate_access env
      (record world {
        role_assignments = record membership { expires_at = some "2026-08-01T00:00:00Z" } ∷ [];
      })
      (ask alice "load")
      true).0
    ≡ deny no_matching_grant
unfolding verdict
stale = refl

deny_wins_example : (evaluate_access env world (ask admin "load") true).0.allowed ≡ false
unfolding verdict
deny_wins_example =
    deny_wins env world (ask admin "load") true denial (Memᴰ.head refl) refl
      (Memᴰ.tail (Memᴰ.tail (Memᴰ.head refl))) (Memᴰ.head refl) (Memᴰ.head refl)

allowed-principal_example :
    (alice.authenticated ≡ true)
    × (alice.disabled ≡ false)
    × (is_disabled env world alice ≡ false)
    × Memᴰ "load" rights
unfolding verdict
allowed-principal_example = allowed-principal env world (ask alice "load") true refl

allowed-live_example :
    ¬ (Memᴰ tool.approval_state blocked_states) × ¬ (Memᴰ tool.lifecycle blocked_lifecycles)
unfolding verdict
allowed-live_example = allowed-live env world (ask alice "load") true tool refl refl

allowed-step_up_example : admin.step_up_authenticated ≡ true
unfolding verdict
allowed-step_up_example =
    allowed-step_up env world (ask admin "manage") true tool refl refl (Memᴰ.head refl)
      (Memᴰ.head refl)

allowed-integrity_example :
    (tool.approval_state ≡ "approved")
    × (tool.signature_status ≡ "verified")
    × (tool.provenance_status ≡ "verified")
    × (tool.risk_review_status ≡ "approved")
unfolding verdict
allowed-integrity_example =
    allowed-integrity env world (ask alice "load") true tool refl refl promotion refl refl
      (Memᴰ.head refl) refl refl (Memᴰ.tail (Memᴰ.head refl))

-- the tool is shared with alice, for audits
abbrev shared_world : World
shared_world = record world {
  shares =
      record {
        id = "shr_1";
        tenant_id = "asg";
        capability_uri = tool.uri;
        from_identity_id = "id_root";
        subject_type = "user";
        subject_id = "alice";
        rights = "audit" ∷ [];
        state = "active";
        expires_at = some "2027-01-01T00:00:00Z";
        revoked_at = none;
      }
      ∷ [];
}

reserved-IsRecorded_example : IsRecorded env shared_world (ask alice "audit") by_share
unfolding verdict
reserved-IsRecorded_example =
    reserved-IsRecorded env shared_world (ask alice "audit")
      (Memᴰ.tail (Memᴰ.tail (Memᴰ.head refl))) true refl

abbrev open_tool : Capability
open_tool = record tool { visibility = "public" }

abbrev ask_open : Request
ask_open = record {
  principal = alice;
  right = "call";
  capability = some open_tool;
  resource_uri = none;
}

abbrev open_world : World
open_world = record world { role_assignments = []; capabilities = open_tool ∷ [] }

open_grant-reads_example :
    Memᴰ "call" read_rights
    × ((alice.authenticated ≡ true) ⊎ (open_tool.visibility ≡ "public"))
    × ((evaluate_access env open_world ask_open true).0.reason ≡ by_all_users_store
        → tenant_of env open_tool ≡ or_else alice.tenant_id env.default_tenant)
unfolding verdict
open_grant-reads_example =
    open_grant-reads env open_world ask_open open_tool refl true refl (inr (inr refl))

evaluate_access-decisions_example :
    (evaluate_access env world (ask alice "load") true).1 ≡ record world {
      policy_decisions = decision_row env (ask alice "load") (allow by_role_assignment) ∷ [];
      org_cache = (evaluate_access env world (ask alice "load") true).1.org_cache;
    }
unfolding verdict
evaluate_access-decisions_example = evaluate_access-decisions env world (ask alice "load") true

cache_transparent_example :
    ((evaluate_access env world (ask alice "load") true).0
      ≡ (decide env world (ask alice "load") []).0)
    × IsCoherent
        (evaluate_access env world (ask alice "load") true).1.organizations
        (evaluate_access env world (ask alice "load") true).1.org_cache
cache_transparent_example =
    cache_transparent env world (ask alice "load") true (nil-IsCoherent world.organizations)
      (Memᴰ.tail (Memᴰ.head refl))

-- alice as a principal of another tenant
abbrev visitor : Request
visitor = ask (record alice { tenant_id = "guest" }) "load"

membership-on_record_example :
    (row : RoleAssignment) × Memᴰ row world.role_assignments
    × (row.tenant_id ≡ "asg")
    × (is_null row.revoked_at ≡ true)
    × (is_current env.now (subject_refs env visitor.principal) row ≡ true)
    × (role_has_right row.role "load" ≡ true)
    × IsScopeOf env world visitor tool refl (nil-IsCoherent world.organizations) row
unfolding verdict
membership-on_record_example =
    membership-on_record env world visitor tool refl (nil-IsCoherent world.organizations) true refl
