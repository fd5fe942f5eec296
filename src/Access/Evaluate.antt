-- ===== src/Access/Evaluate.antt =====
-- capmesh/access_control.py: `evaluate_access`, its chain of `elif`s cut into the part that denies
-- and the part that grants, and `record_policy_decision`.
use client_capmesh.Prelude.{
  String, Bool, true, false, ◌&&◌, ◌||◌, not, Option, none, some, List, [], ◌∷◌, ◌++◌, ◌==◌, ◌+++◌,
  present, or_else, or_default, elem, if◌then◌else◌, any,
}
use client_capmesh.Model.{
  Env, Principal, Capability, CacheEntry, Reason, no_matching_grant, principal_disabled,
  capability_inactive, step_up_required, integrity_invalid, explicit_deny, by_principal_role,
  by_role_assignment, by_share, by_relationship, by_namespace_member, by_store_owner, by_manifest,
  by_owner, by_all_users_store, by_org_membership, by_visibility, unsupported_right, World,
}
use client_capmesh.Access.Rights.{rights, use_rights, requires_step_up, global_role_has_right}
use client_capmesh.Access.Refs.{
  subject_refs, resource_refs, is_disabled, has_formal_promotion_record,
}
use client_capmesh.Access.Grants.{
  manifest_grant, tuple_match, active_role_grant, namespace_member_grant, store_owner_grant,
  all_users_store_grant, share_grant, owner_grant, org_membership_grant, default_visibility_grant,
}

pub record Request : Type 0 where
  pub principal : Principal
  pub right : String
  pub capability : Option Capability
  pub resource_uri : Option String

pub record Verdict : Type 0 where
  pub allowed : Bool
  pub reason : Reason

abbrev pub allow : Reason → Verdict
allow reason = record { allowed = true; reason = reason }

abbrev pub deny : Reason → Verdict
deny reason = record { allowed = false; reason = reason }

abbrev pub blocked_states : List String
blocked_states = "rejected" ∷ "recalled" ∷ "demoted" ∷ "yanked" ∷ []

abbrev pub blocked_lifecycles : List String
blocked_lifecycles = "disabled" ∷ "deleted" ∷ "retired" ∷ "recalled" ∷ "yanked" ∷ []

capability_tenant : Option Capability → String
capability_tenant none = ""
capability_tenant (some c) = c.tenant_id

-- principal.tenant_id or getattr(capability, "tenant_id", None) or DEFAULT_TENANT
unfoldable pub request_tenant : Env → Request → String
unfolding capability_tenant
request_tenant env q =
    or_else q.principal.tenant_id (or_else (capability_tenant q.capability) env.default_tenant)

-- capability.uri if capability else resource_uri or ""
unfoldable pub request_uri : Request → String
request_uri q = elim q.capability [ none ↦ or_default q.resource_uri "" | some c ↦ c.uri ]

unfoldable pub is_blocked : Option Capability → Bool
is_blocked none = false
is_blocked (some c) = elem c.approval_state blocked_states || elem c.lifecycle blocked_lifecycles

-- integrity_required
unfoldable pub needs_integrity : Env → World → String → Option Capability → Bool
needs_integrity env w right none = false
needs_integrity env w right (some c) =
    env.production
    && (present c.promoted_from_uri
        && (has_formal_promotion_record env w c && elem right use_rights))

unfoldable pub has_integrity : Option Capability → Bool
has_integrity none = true
has_integrity (some c) =
    c.approval_state == "approved"
    && (c.signature_status == "verified"
        && (c.provenance_status == "verified" && c.risk_review_status == "approved"))

abbrev pub deny_relations : String → List String
deny_relations right = ("deny_" +++ right) ∷ "deny" ∷ []

abbrev pub grant_relations : String → List String
grant_relations right = right ∷ ("grant_" +++ right) ∷ "owner" ∷ []

-- the branches of the chain that end in "deny", in their order
unfoldable pub barrier : Env → World → Request → Option Reason
barrier env w q =
    if is_disabled env w q.principal
    then some principal_disabled
    else if is_blocked q.capability
    then some capability_inactive
    else if requires_step_up q.right q.capability && not q.principal.step_up_authenticated
    then some step_up_required
    else if needs_integrity env w q.right q.capability && not (has_integrity q.capability)
    then some integrity_invalid
    else if tuple_match w (request_tenant env q) (resource_refs env q.capability q.resource_uri)
        (deny_relations q.right) (subject_refs env q.principal)
    then some explicit_deny
    else none

-- the branches after `org_membership_grant`
unfoldable pub visibility_verdict : Env → World → Request → Capability → Verdict
visibility_verdict env w q c =
    if default_visibility_grant env w c q.principal q.right
    then allow by_visibility
    else deny no_matching_grant

-- the branches `elif capability and ...`
unfoldable pub capability_verdict :
    Env → World → Request → Capability → List CacheEntry → Verdict × List CacheEntry
capability_verdict env w q c cache =
    let p = q.principal in
    if namespace_member_grant w c.namespace_id (subject_refs env p) q.right
    then (allow by_namespace_member, cache)
    else if store_owner_grant env w c p q.right
    then (allow by_store_owner, cache)
    else if manifest_grant c p q.right
    then (allow by_manifest, cache)
    else if owner_grant c p q.right
    then (allow by_owner, cache)
    else if all_users_store_grant env w c p q.right
    then (allow by_all_users_store, cache)
    else (let (member, cache') = org_membership_grant env w c p q.right cache in
        if member
        then (allow by_org_membership, cache')
        else (visibility_verdict env w q c, cache'))

unfoldable pub capability_verdicts :
    Env → World → Request → Option Capability → List CacheEntry → Verdict × List CacheEntry
capability_verdicts env w q none cache = (deny no_matching_grant, cache)
capability_verdicts env w q (some c) cache = capability_verdict env w q c cache

-- the branches after `active_role_grant`
unfoldable pub later_verdict : Env → World → Request → List CacheEntry → Verdict × List CacheEntry
unfolding capability_verdicts
later_verdict env w q cache =
    let subjects = subject_refs env q.principal in
    if share_grant env w (request_tenant env q) subjects (request_uri q) q.right
    then (allow by_share, cache)
    else if tuple_match w (request_tenant env q) (resource_refs env q.capability q.resource_uri)
        (grant_relations q.right) subjects
    then (allow by_relationship, cache)
    else capability_verdicts env w q q.capability cache

-- the branches of the chain that may end in "allow", in their order
unfoldable pub grant_verdict : Env → World → Request → List CacheEntry → Verdict × List CacheEntry
grant_verdict env w q cache =
    if any (λ role. global_role_has_right role q.right) q.principal.roles
    then (allow by_principal_role, cache)
    else (let (assigned, cache') =
          active_role_grant env w (request_tenant env q) (subject_refs env q.principal) q.right
            q.capability q.resource_uri cache in
        if assigned then (allow by_role_assignment, cache') else later_verdict env w q cache')

unfoldable pub decide : Env → World → Request → List CacheEntry → Verdict × List CacheEntry
decide env w q cache = elim (barrier env w q) [
  | some reason ↦ (deny reason, cache)
  | none ↦ grant_verdict env w q cache
]

-- The row's foreign key is not modelled: the tenant that it names is taken to be in the database.
unfoldable pub record_policy_decision : Env → Request → Verdict → World → World
record_policy_decision env q v w = record w {
  policy_decisions =
      w.policy_decisions
      ++ record {
        tenant_id = request_tenant env q;
        principal = q.principal.subject;
        action = q.right;
        resource_uri = request_uri q;
        allowed = v.allowed;
        reason = v.reason;
      }
        ∷ [];
}

-- The result is the verdict; the reason that the code returns is None where it allows.
unfoldable pub evaluate_access : Env → World → Request → Bool → Verdict × World
evaluate_access env w q audit =
    if not (elem q.right rights)
    then (deny unsupported_right, w)
    else (let (v, cache) = decide env w q w.org_cache in
        let w' = record w { org_cache = cache } in
        if audit then (v, record_policy_decision env q v w') else (v, w'))
