-- ===== src/Roles/Operations.antt =====
-- capmesh/roles_orgs.py: the operations that change role assignments. An operation returns its result
-- and the database, which has a policy decision for every check of access, also when it raises. A key
-- that is missing from the payload, or null, is none; random keys are arguments; the time that SQLite
-- writes is that of `Env`.
use client_capmesh.Prelude.{
  String, Bool, true, not, ◌&&◌, Option, none, some, List, [], ◌∷◌, ◌++◌, ◌==◌, ◌+++◌, present,
  or_else, or_default, elem, any, update, Result, ok, err, value_error, permission_error,
  if◌then◌else◌,
}
use client_capmesh.Model.{Env, Principal, RoleAssignment, Relationship, AuditEvent, World}
use client_capmesh.Access.{evaluate_access, Verdict}

-- the dict of a request
pub record Payload : Type 0 where
  pub role : Option String
  pub subject_type : Option String
  pub subject_id : Option String
  pub user : Option String
  pub scope_type : Option String
  pub scope_id : Option String
  pub source : Option String
  pub expires_at : Option String
  pub relationship_object : Option String
  pub org : Option String
  pub store_id : Option String
  pub org_id : Option String

-- the keys of ROLE_RIGHTS
abbrev pub role_names : List String
role_names =
    "member" ∷ "vibe_coder" ∷ "publisher" ∷ "namespace_admin" ∷ "org_admin" ∷ "platform_admin"
    ∷ "auditor" ∷ "app_service" ∷ []

-- _ORG_MEMBER_ROLES
abbrev pub org_member_roles : List String
org_member_roles = "member" ∷ "namespace_admin" ∷ "org_admin" ∷ []

module _ (env : Env) (principal : Principal) where
  -- principal.tenant_id or DEFAULT_TENANT
  abbrev pub tenant : String
  tenant = or_else principal.tenant_id env.default_tenant

  -- evaluate_access(con, principal, right=..., resource_uri=...)
  abbrev pub check_right : (right resource_uri : String) → World → Verdict × World
  check_right right resource_uri w =
      evaluate_access env w
        (record {
          principal = principal;
          right = right;
          capability = none;
          resource_uri = some resource_uri;
        })
        true

  -- INSERT OR IGNORE, UNIQUE(tenant_id, object, relation, user)
  unfoldable pub insert_relationship : Relationship → List Relationship → List Relationship
  insert_relationship new rows =
      if any
        (λ (r : Relationship).
          r.tenant_id == new.tenant_id
          && (r.object == new.object && (r.relation == new.relation && r.user == new.user)))
        rows
      then rows
      else rows ++ (new ∷ [])

  -- the row that `assign_role` inserts
  abbrev pub assigned : (assignment_id role : String) → Payload → RoleAssignment
  assigned assignment_id role payload = record {
    id = assignment_id;
    tenant_id = tenant;
    subject_type = or_default payload.subject_type "user";
    subject_id = or_default payload.subject_id "";
    role = role;
    scope_type = or_default payload.scope_type "tenant";
    scope_id = or_default payload.scope_id tenant;
    source = or_default payload.source "manual";
    created_by = principal.subject;
    expires_at = payload.expires_at;
    revoked_at = none;
  }

  -- the tuple that `assign_role` inserts if the payload names an object
  unfoldable pub related : (role : String) → Payload → List Relationship → List Relationship
  unfolding insert_relationship
  related role payload rows =
      if present payload.relationship_object
      then insert_relationship
          (record {
            tenant_id = tenant;
            object = or_default payload.relationship_object "";
            relation = role;
            user =
                or_default payload.subject_type "user"
                +++ (":" +++ or_default payload.subject_id "");
            source = or_default payload.source "manual";
          })
          rows
      else rows

  abbrev pub event :
      (tenant_id event_type target action : String) (payload : List (String × String)) → AuditEvent
  event tenant_id event_type target action payload = record {
    tenant_id = tenant_id;
    event_type = event_type;
    actor = principal.subject;
    target = target;
    action = action;
    decision = "allow";
    payload = payload;
  }

  -- Of the payload in the audit event, the role is kept here.
  unfoldable pub assign_role :
      (assignment_id : String) → Payload → World → Result RoleAssignment × World
  assign_role assignment_id payload w =
      let (v, w') = check_right "manage" ("tenant:" +++ tenant) w in
      let role = or_default payload.role "" in
      if not v.allowed
      then (err permission_error, w')
      else if not (elem role role_names)
      then (err value_error, w')
      else (
        ok (assigned assignment_id role payload),
        record w' {
          role_assignments = w'.role_assignments ++ (assigned assignment_id role payload ∷ []);
          relationship_tuples = related role payload w'.relationship_tuples;
          audit_events =
              w'.audit_events
              ++ (event tenant "role.assigned" assignment_id "assign" (("role", role) ∷ []) ∷ []);
        },
      )

  abbrev pub revoke_row : RoleAssignment → RoleAssignment
  revoke_row row = record row { revoked_at = some env.now }

  -- The row is looked for in the tenant of the principal as it stands, without the default.
  abbrev pub is_assignment : (assignment_id : String) → RoleAssignment → Bool
  is_assignment assignment_id row = row.id == assignment_id && row.tenant_id == principal.tenant_id

  unfoldable pub revoke_role : (assignment_id : String) → World → Result String × World
  revoke_role assignment_id w =
      let (v, w') = check_right "manage" ("role:" +++ assignment_id) w in
      if not v.allowed then (err permission_error, w') else (
        ok assignment_id,
        record w' {
          role_assignments = update (is_assignment assignment_id) revoke_row w'.role_assignments;
          audit_events =
              w'.audit_events
              ++ (event principal.tenant_id "role.revoked" assignment_id "revoke" [] ∷ []);
        },
      )
