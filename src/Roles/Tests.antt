-- ===== src/Roles/Tests.antt =====
-- An administrator who gives, takes and revokes memberships at the sample tenant.
use client_capmesh.Prelude.{
  ◌≡◌, ◌≢◌, refl, true, none, some, [], ◌∷◌, ◌++◌, Memᴰ, ok, err, permission_error, truthy, select,
  length,
}
use client_capmesh.Model.{Organization, RoleAssignment}
use client_capmesh.Access.Samples.{env, alice, admin, world, verdict}
use client_capmesh.Roles.Operations.{
  Payload, check_right, assign_role, org_member_roles, revoke_role,
}
use client_capmesh.Roles.Members.{
  resolve_org, may_manage_org, member_row, add_org_member, is_membership, remove_org_member,
}
use client_capmesh.Roles.Changes.{add_org_member-joins, remove_org_member-ends, revoke_role-ends}

abbrev payload : Payload
payload = record {
  role = none;
  subject_type = none;
  subject_id = some "alice";
  user = none;
  scope_type = none;
  scope_id = none;
  source = none;
  expires_at = none;
  relationship_object = none;
  org = some "acme";
  store_id = none;
  org_id = none;
}

adds :
    (add_org_member env admin "rol_2" payload world).0
    ≡ ok (
        member_row env admin "rol_2" "alice" "member" payload (record {
          id = "org_acme";
          tenant_id = "asg";
          slug = "acme";
          store_id = some "store_acme";
          status = "active";
        }))
unfolding verdict add_org_member may_manage_org resolve_org
adds = refl

removes : (remove_org_member env admin payload world).0 ≡ ok 1
unfolding verdict remove_org_member may_manage_org resolve_org
removes = refl

not_by_alice : (assign_role env alice "rol_2" payload world).0 ≡ err permission_error
unfolding verdict assign_role
not_by_alice = refl

revokes : (revoke_role env admin "rol_1" world).0 ≡ ok "rol_1"
unfolding verdict revoke_role
revokes = refl

-- the payload with the role of a publisher
abbrev publishing : Payload
publishing = record payload { role = some "publisher" }

assigns :
    (assign_role env admin "rol_2" publishing world).0
    ≡ ok (record {
      id = "rol_2";
      tenant_id = "asg";
      subject_type = "user";
      subject_id = "alice";
      role = "publisher";
      scope_type = "tenant";
      scope_id = "asg";
      source = "manual";
      created_by = "root";
      expires_at = none;
      revoked_at = none;
    })
unfolding verdict assign_role
assigns = refl

add_org_member-joins_example :
    (org : Organization) × (resolve_org env admin "acme" world ≡ ok org)
    × ((may_manage_org env admin org world).0 ≡ true)
    × Memᴰ "member" org_member_roles
    × (truthy "alice" ≡ true)
    × (is_membership env admin org "user" "alice" (
          member_row env admin "rol_2" "alice" "member" payload (record {
            id = "org_acme";
            tenant_id = "asg";
            slug = "acme";
            store_id = some "store_acme";
            status = "active";
          }))
        ≡ true)
    × ((add_org_member env admin "rol_2" payload world).1.role_assignments
        ≡ world.role_assignments
          ++ (member_row env admin "rol_2" "alice" "member" payload (record {
            id = "org_acme";
            tenant_id = "asg";
            slug = "acme";
            store_id = some "store_acme";
            status = "active";
          })
              ∷ []))
add_org_member-joins_example =
    add_org_member-joins env admin "rol_2" payload world
      (member_row env admin "rol_2" "alice" "member" payload (record {
        id = "org_acme";
        tenant_id = "asg";
        slug = "acme";
        store_id = some "store_acme";
        status = "active";
      }))
      adds

remove_org_member-ends_example :
    (org : Organization) × (resolve_org env admin "acme" world ≡ ok org)
    × ((may_manage_org env admin org world).0 ≡ true)
    × (truthy "alice" ≡ true)
    × (1 ≡ length (select (is_membership env admin org "user" "alice") world.role_assignments))
    × (select
          (is_membership env admin org "user" "alice")
          (remove_org_member env admin payload world).1.role_assignments
        ≡ [])
remove_org_member-ends_example = remove_org_member-ends env admin payload world 1 removes

revoke_role-ends_example :
    ((check_right env admin "manage" "role:rol_1" world).0.allowed ≡ true)
    × ((row : RoleAssignment)
        → Memᴰ row (revoke_role env admin "rol_1" world).1.role_assignments
        → row.id ≡ "rol_1"
        → row.tenant_id ≡ "asg"
        → row.revoked_at ≢ none)
revoke_role-ends_example = revoke_role-ends env admin "rol_1" world "rol_1" revokes
