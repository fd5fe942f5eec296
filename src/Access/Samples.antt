-- ===== src/Access/Samples.antt =====
-- A small tenant on which the tests and the witnesses run: an organization's store with one
-- capability, a member of the organization, an administrator and an outsider.
use client_capmesh.Access.Grants.{
  tuple_match, active_role_grant, all_users_store_grant, cached_org, default_visibility_grant,
  is_current, manifest_grant, member_has_right, names_subject, namespace_member_grant,
  org_id_for_store, org_membership_grant, org_scope_matches, owner_grant,
  role_assignment_scope_matches, role_loop, scope_matches, share_grant, share_has_right,
  store_is_org, store_owner_grant, stored_org,
}
use client_capmesh.Access.Rights.{
  requires_step_up, global_role_has_right, role_has_right, role_rights,
}
use client_capmesh.Access.Refs.{
  is_disabled, latest, has_formal_promotion_record, resource_refs, subject_refs, identity_of,
  names_principal,
}
use client_capmesh.Prelude.{
  String, true, false, none, some, [], ◌∷◌, elem, any, all, find, select, meets, subset, partition,
}
use client_capmesh.Model.{
  Env, Principal, Capability, RoleAssignment, Relationship, PromotionRequest, World,
}
use client_capmesh.Access.Evaluate.{
  Request, evaluate_access, decide, barrier, is_blocked, needs_integrity, has_integrity,
  request_tenant, capability_verdict, capability_verdicts, grant_verdict, later_verdict,
  record_policy_decision, request_uri, visibility_verdict, Verdict,
}

abbrev pub env : Env
env = record {
  default_tenant = "asg";
  production = true;
  stable_id = λ prefix parts. prefix;
  now = "2026-08-01T00:00:00Z";
}

abbrev pub alice : Principal
alice = record {
  subject = "alice";
  tenant_id = "asg";
  identity_id = some "idn_alice";
  email = none;
  app_id = none;
  groups = [];
  roles = "member" ∷ [];
  scopes = [];
  authenticated = true;
  disabled = false;
  step_up_authenticated = false;
}

abbrev pub admin : Principal
admin = record alice {
  subject = "root";
  roles = "platform_admin" ∷ [];
  step_up_authenticated = true;
}

abbrev pub tool : Capability
tool = record {
  uri = "cap://org/asg/acme/tool@1.0.0";
  visibility = "internal";
  discovery_mode = "public";
  owner = "asg";
  required_scopes = [];
  allow_groups = [];
  allow_users = [];
  risk_tier = "high";
  lifecycle = "published";
  tenant_id = "asg";
  store_id = some "store_acme";
  namespace_id = none;
  created_by = none;
  submitted_by = none;
  promoted_from_uri = some "cap://user/asg/idn_alice/tool@1.0.0";
  approval_state = "approved";
  share_state = "not_shared";
  signature_status = "verified";
  provenance_status = "verified";
  risk_review_status = "approved";
  capability_type = "tool";
  name = "tool";
  version = "1.0.0";
  plugin = none;
  updated_at = "2026-07-01T00:00:00Z";
}

abbrev pub membership : RoleAssignment
membership = record {
  id = "rol_1";
  tenant_id = "asg";
  subject_type = "user";
  subject_id = "alice";
  role = "member";
  scope_type = "org";
  scope_id = "org_acme";
  source = "manual";
  created_by = "root";
  expires_at = some "2027-01-01T00:00:00Z";
  revoked_at = none;
}

abbrev pub denial : Relationship
denial = record {
  tenant_id = "asg";
  object = "tenant:asg";
  relation = "deny_load";
  user = "user:root";
  source = "manual";
}

abbrev pub promotion : PromotionRequest
promotion = record {
  id = "prq_1";
  tenant_id = "asg";
  capability_uri = tool.uri;
  source_store_id = none;
  target_namespace_id = some "ns_1";
  requested_by = some "alice";
  state = "approved";
  gates = some [];
  decided_at = none;
}

abbrev pub world : World
world = record {
  capabilities = tool ∷ [];
  identities = [];
  stores =
      record {
        id = "store_acme";
        tenant_id = "asg";
        kind = "org";
        owner_identity_id = none;
        owner_app_id = none;
        uri_prefix = "cap://org/asg/acme";
        disabled_at = none;
      }
      ∷ [];
  organizations =
      record {
        id = "org_acme";
        tenant_id = "asg";
        slug = "acme";
        store_id = some "store_acme";
        status = "active";
      }
      ∷ [];
  namespaces = [];
  namespace_members = [];
  role_assignments = membership ∷ [];
  relationship_tuples = denial ∷ [];
  shares = [];
  promotion_requests = promotion ∷ [];
  approval_steps = [];
  policy_decisions = [];
  audit_events = [];
  org_cache = [];
}

-- a request about the tool
abbrev pub ask : Principal → String → Request
ask p right = record { principal = p; right = right; capability = some tool; resource_uri = none }

-- The verdict on a request; to unfold it is to unfold all of the code, for tests.
unfoldable pub verdict : World → Request → Verdict
unfolding evaluate_access elem any all find select meets subset partition decide barrier is_disabled
    latest is_blocked requires_step_up needs_integrity has_formal_promotion_record has_integrity
    tuple_match request_tenant resource_refs subject_refs identity_of capability_verdict
    capability_verdicts grant_verdict later_verdict record_policy_decision request_uri
    visibility_verdict active_role_grant all_users_store_grant cached_org default_visibility_grant
    is_current manifest_grant member_has_right names_subject namespace_member_grant org_id_for_store
    org_membership_grant org_scope_matches owner_grant role_assignment_scope_matches role_loop
    scope_matches share_grant share_has_right store_is_org store_owner_grant stored_org
    names_principal global_role_has_right role_has_right role_rights
verdict w q = (evaluate_access env w q true).0
