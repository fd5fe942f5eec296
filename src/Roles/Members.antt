-- ===== src/Roles/Members.antt =====
-- capmesh/roles_orgs.py: the membership of organizations, an assignment of a role whose scope is an
-- organization.
use client_capmesh.Prelude.{
  ℕ, String, Bool, true, not, ◌&&◌, ◌||◌, none, some, [], ◌∷◌, ◌++◌, ◌==◌, ◌+++◌, truthy,
  or_default, is_some_eq, elem, find, select, update, length, Result, ok, err, value_error,
  permission_error, if◌then◌else◌,
}
use client_capmesh.Model.{Env, Principal, Organization, RoleAssignment, World}
use client_capmesh.Access.{is_null}
use client_capmesh.Roles.Operations.{
  Payload, org_member_roles, tenant, check_right, event, revoke_row,
}

module _ (env : Env) (principal : Principal) where
  -- `_resolve_org`
  unfoldable pub resolve_org : (ref : String) → World → Result Organization
  resolve_org ref w =
      if not (truthy ref)
      then err value_error
      else elim (find
          (λ (o : Organization).
            o.tenant_id == tenant env principal
            && (o.id == ref || (o.slug == ref || is_some_eq o.store_id ref)))
          w.organizations) [ none ↦ err value_error | some o ↦ ok o ]

  -- payload.get("org") or payload.get("storeId") or payload.get("orgId") or ""
  abbrev pub org_ref : Payload → String
  org_ref payload =
      or_default payload.org (or_default payload.store_id (or_default payload.org_id ""))

  -- the `manage` right on the store of the organization, or else on the tenant
  unfoldable pub may_manage_org : Organization → World → Bool × World
  may_manage_org org w =
      let (v, w') =
        check_right env principal "manage" ("store:" +++ or_default org.store_id "None") w in
      let (u, w'') = check_right env principal "manage" ("tenant:" +++ tenant env principal) w' in
      if v.allowed then (true, w') else (u.allowed, w'')

  abbrev pub member_row :
      (assignment_id subject_id role : String) → Payload → Organization → RoleAssignment
  member_row assignment_id subject_id role payload org = record {
    id = assignment_id;
    tenant_id = tenant env principal;
    subject_type = or_default payload.subject_type "user";
    subject_id = subject_id;
    role = role;
    scope_type = "org";
    scope_id = org.id;
    source = or_default payload.source "manual";
    created_by = principal.subject;
    expires_at = payload.expires_at;
    revoked_at = none;
  }

  -- payload.get("subjectId") or payload.get("user") or ""
  abbrev pub subject_of : Payload → String
  subject_of payload = or_default payload.subject_id (or_default payload.user "")

  unfoldable pub add_org_member :
      (assignment_id : String) → Payload → World → Result RoleAssignment × World
  add_org_member assignment_id payload w = elim (resolve_org (org_ref payload) w) [
    | err e ↦ (err e, w)
    | ok org ↦
        (let (allowed, w') = may_manage_org org w in
          let role = or_default payload.role "member" in
          let row = member_row assignment_id (subject_of payload) role payload org in
          if not allowed
          then (err permission_error, w')
          else if not (elem role org_member_roles)
          then (err value_error, w')
          else if not (truthy (subject_of payload))
          then (err value_error, w')
          else (
            ok row,
            record w' {
              role_assignments = w'.role_assignments ++ (row ∷ []);
              audit_events =
                  w'.audit_events
                  ++ (event env principal (tenant env principal) "org.member_added" org.id
                        "add_member"
                        (("subjectId", subject_of payload)
                          ∷ ("role", role)
                          ∷ ("assignmentId", assignment_id)
                          ∷ ("orgSlug", org.slug)
                          ∷ [])
                      ∷ []);
            },
          ))
  ]

  -- the rows that `remove_org_member` revokes
  abbrev pub is_membership :
      Organization → (subject_type subject_id : String) → RoleAssignment → Bool
  is_membership org subject_type subject_id row =
      row.tenant_id == tenant env principal
      && (row.scope_type == "org"
          && (row.scope_id == org.id
              && (row.subject_type == subject_type
                  && (row.subject_id == subject_id && is_null row.revoked_at))))

  -- the result is the number of revoked rows
  unfoldable pub remove_org_member : Payload → World → Result ℕ × World
  remove_org_member payload w = elim (resolve_org (org_ref payload) w) [
    | err e ↦ (err e, w)
    | ok org ↦
        (let (allowed, w') = may_manage_org org w in
          let subject_type = or_default payload.subject_type "user" in
          let member = is_membership org subject_type (subject_of payload) in
          if not allowed
          then (err permission_error, w')
          else if not (truthy (subject_of payload))
          then (err value_error, w')
          else (
            ok (length (select member w'.role_assignments)),
            record w' {
              role_assignments = update member (revoke_row env principal) w'.role_assignments;
              audit_events =
                  w'.audit_events
                  ++ (event env principal (tenant env principal) "org.member_removed" org.id
                        "remove_member"
                        (("subjectId", subject_of payload)
                          ∷ ("subjectType", subject_type)
                          ∷ ("orgSlug", org.slug)
                          ∷ [])
                      ∷ []);
            },
          ))
  ]
