-- ===== src/Roles/Changes.antt =====
-- What the changes of capmesh/roles_orgs.py need, and what they end.
use client_capmesh.Prelude.{
  eq_refl, Memᴰ-update_cases, ◌≢◌, ℕ, String, ◌≡◌, sym, ap, ◌∙◌, true, none, List, [], ◌∷◌, ◌++◌,
  ◌+++◌, Memᴰ, arith, elem, Memᴰ-of-elem, truthy, or_default, select, update, select-update_none,
  length, ok, inl, inr, Bool-cases, Result-cases,
}
use client_capmesh.Model.{Env, Principal, Organization, RoleAssignment, World}
use client_capmesh.Access.Audit.{evaluate_access-decisions}
use client_capmesh.Roles.Operations.{
  Payload, org_member_roles, tenant, check_right, assign_role, revoke_row, is_assignment,
  revoke_role,
}
use client_capmesh.Roles.Members.{
  resolve_org, org_ref, may_manage_org, member_row, subject_of, add_org_member, is_membership,
  remove_org_member,
}

module _ (env : Env) (principal : Principal) where
  check_right-rows :
      (right resource_uri : String) (w : World)
      → (check_right env principal right resource_uri w).1.role_assignments ≡ w.role_assignments
  check_right-rows right resource_uri w =
      ap (λ (w : World). w.role_assignments) (evaluate_access-decisions env w _ true)

  may_manage_org-rows :
      (org : Organization) (w : World)
      → (may_manage_org env principal org w).1.role_assignments ≡ w.role_assignments
  unfolding may_manage_org
  may_manage_org-rows org w =
      let store = "store:" +++ or_default org.store_id "None" in
      let first = check_right env principal "manage" store w in
      let rows = check_right-rows "manage" store w in
      elim (Bool-cases first.0.allowed) [
        | inl e ↦ rw e rows
        | inr e ↦
            rw e (check_right-rows "manage" ("tenant:" +++ tenant env principal) first.1 ∙ rows)
      ]

  module _ (assignment_id : String) (payload : Payload) (w : World) where
    abbrev after_assign : World
    after_assign = (assign_role env principal assignment_id payload w).1

  -- `remove_org_member` that returns was called for a known organization and a named subject. It has
  -- revoked all live assignments of the subject to the organization, none is left, and it returns
  -- how many there were.
  pub remove_org_member-ends :
      (payload : Payload) (w : World) (n : ℕ)
      → (remove_org_member env principal payload w).0 ≡ ok n
      → (org : Organization) × (resolve_org env principal (org_ref env principal payload) w
          ≡ ok org)
        × ((may_manage_org env principal org w).0 ≡ true)
        × (truthy (subject_of env principal payload) ≡ true)
        × (n
            ≡ length (
                select
                  (is_membership env principal org
                    (or_default payload.subject_type "user")
                    (subject_of env principal payload))
                  w.role_assignments))
        × (select
              (is_membership env principal org
                (or_default payload.subject_type "user")
                (subject_of env principal payload))
              (remove_org_member env principal payload w).1.role_assignments
            ≡ [])
  unfolding remove_org_member
  remove_org_member-ends payload w n h =
      elim (Result-cases (resolve_org env principal (org_ref env principal payload) w)) [
        | inr (e, raised) ↦ absurd (ground (arith, h, raised))
        | inl (org, found) ↦
            let subject = subject_of env principal payload in
            let member =
              is_membership env principal org (or_default payload.subject_type "user") subject in
            let may : (may_manage_org env principal org w).0 ≡ true = ground (arith, h, found) in
            let named : truthy subject ≡ true = ground (arith, h, found) in
            let rows = may_manage_org-rows org w in
            let count : length
                  (select member (may_manage_org env principal org w).1.role_assignments)
                ≡ n =
              ground (arith, h, found, may, named) in
            (
              org,
              found,
              may,
              named,
              sym count ∙ ap (λ rs. length (select member rs)) rows,
              rw (remove_org_member, found, may, named)
                  (select-update_none member (revoke_row env principal) _ (λ row. ground arith)),
            )
      ]

  revoked_row :
      (assignment_id : String) (rows : List RoleAssignment) (row : RoleAssignment)
      → Memᴰ row
          (update (is_assignment env principal assignment_id) (revoke_row env principal) rows)
      → row.id ≡ assignment_id
      → row.tenant_id ≡ principal.tenant_id
      → row.revoked_at ≢ none
  revoked_row assignment_id rows row m same_id same_tenant live =
      let (old, mo, cases) =
        Memᴰ-update_cases (is_assignment env principal assignment_id) (revoke_row env principal)
          rows m in
      elim cases [
        | inl (q, same) ↦
            absurd (ground (arith, ap (λ (r : RoleAssignment). r.revoked_at) same, live))
        | inr (q, same) ↦
            let now : is_assignment env principal assignment_id row ≡ true =
              rw (same_id, same_tenant, eq_refl assignment_id, eq_refl principal.tenant_id) in
            absurd (ground (arith, q, now, ap (is_assignment env principal assignment_id) same))
      ]

  -- `add_org_member` that returns was called for a known organization, by a principal that may manage
  -- it, for a named subject and a role of members. It has added the returned row, a live membership
  -- of that subject in that organization, to the role assignments.
  pub add_org_member-joins :
      (assignment_id : String) (payload : Payload) (w : World) (row : RoleAssignment)
      → (add_org_member env principal assignment_id payload w).0 ≡ ok row
      → (org : Organization) × (resolve_org env principal (org_ref env principal payload) w
          ≡ ok org)
        × ((may_manage_org env principal org w).0 ≡ true)
        × Memᴰ row.role org_member_roles
        × (truthy row.subject_id ≡ true)
        × (is_membership env principal org
              (or_default payload.subject_type "user")
              (subject_of env principal payload)
              row
            ≡ true)
        × ((add_org_member env principal assignment_id payload w).1.role_assignments
            ≡ w.role_assignments ++ (row ∷ []))
  unfolding add_org_member
  add_org_member-joins assignment_id payload w row h =
      elim (Result-cases (resolve_org env principal (org_ref env principal payload) w)) [
        | inr (e, raised) ↦ absurd (ground (arith, h, raised))
        | inl (org, found) ↦
            let role = or_default payload.role "member" in
            let subject = subject_of env principal payload in
            let new = member_row env principal assignment_id subject role payload org in
            let may : (may_manage_org env principal org w).0 ≡ true = ground (arith, h, found) in
            let fits : elem role org_member_roles ≡ true = ground (arith, h, found) in
            let named : truthy subject ≡ true = ground (arith, h, found) in
            let rows = may_manage_org-rows org w in
            let same : new ≡ row = ground (arith, h, found, may, fits, named) in
            (
              org,
              found,
              may,
              rw (← same) (Memᴰ-of-elem _ _ fits),
              rw (← same) named,
              rw (← same) (
                  rw (
                    eq_refl (tenant env principal),
                    eq_refl org.id,
                    eq_refl subject,
                    eq_refl (or_default payload.subject_type "user"),
                  )),
              rw (← same)
                  (rw (add_org_member, found, may, fits, named) (ap (λ rs. rs ++ (new ∷ [])) rows)),
            )
      ]

  -- `revoke_role` that returns was called by a principal that may manage the assignment, and no
  -- assignment of the id in the principal's tenant is live after it.
  pub revoke_role-ends :
      (assignment_id : String) (w : World) (id : String)
      → (revoke_role env principal assignment_id w).0 ≡ ok id
      → ((check_right env principal "manage" ("role:" +++ assignment_id) w).0.allowed ≡ true)
        × ((row : RoleAssignment)
            → Memᴰ row (revoke_role env principal assignment_id w).1.role_assignments
            → row.id ≡ assignment_id
            → row.tenant_id ≡ principal.tenant_id
            → row.revoked_at ≢ none)
  unfolding revoke_role
  revoke_role-ends assignment_id w id h =
      let may : (check_right env principal "manage" ("role:" +++ assignment_id) w).0.allowed
          ≡ true =
        ground (arith, h) in
      (
        may,
        λ row m same_id same_tenant.
            let m' : Memᴰ row (
                update (is_assignment env principal assignment_id) (revoke_row env principal)
                  (check_right env principal "manage" ("role:" +++ assignment_id)
                    w).1.role_assignments) =
              rw (revoke_role, may) at m in
            revoked_row assignment_id _ row m' same_id same_tenant,
      )
