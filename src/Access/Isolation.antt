-- ===== src/Access/Isolation.antt =====
-- Design B of capmesh/access_control.py: an organization's capabilities are read by its members.
use client_capmesh.Access.Rights.{role_has_right}
use client_capmesh.Access.Refs.{subject_refs}
use client_capmesh.Access.Grants.{
  tenant_for, is_null, is_current, active_role_grant, org_membership_grant,
  role_assignment_scope_matches, scope_of_capability,
}
use client_capmesh.Prelude.{
  Bool, ◌≡◌, true, some, none, List, Memᴰ, arith, is_some_eq, or_else, String, Memᴰ-of-any,
  Memᴰ-of-select, eq_iff, ◌⊎◌, ◌∷◌, [], Bool-cases, ◌==◌, inl, is_some_eq-some, inr, elem, ◌||◌,
  Memᴰ-of-elem,
}
use client_capmesh.Model.{Env, Capability, World, CacheEntry, by_org_membership, RoleAssignment}
use client_capmesh.Access.Evaluate.{
  Request, evaluate_access, capability_verdict, later_verdict, decide, visibility_verdict,
  request_tenant, grant_verdict, barrier,
}
use client_capmesh.Access.Cache.{
  IsCoherent, org_of, assignment_grants, stored_scope_matches, active_role_grant_lem,
}

module _ (env : Env) (w : World) (q : Request) (c : Capability) (about : q.capability ≡ some c)
    (coherent : IsCoherent w.organizations w.org_cache) where
  capability_member :
      (cache : List CacheEntry)
      → (capability_verdict env w q c cache).0.reason ≡ by_org_membership
      → (org_membership_grant env w c q.principal q.right cache).0 ≡ true
  unfolding capability_verdict visibility_verdict
  capability_member cache r = ground arith

  later_member :
      (cache : List CacheEntry)
      → (later_verdict env w q cache).0.reason ≡ by_org_membership
      → (org_membership_grant env w c q.principal q.right cache).0 ≡ true
  unfolding later_verdict
  later_member cache r = ground (arith, about, capability_member cache)

  -- the cache after the first `active_role_grant`
  abbrev passed_cache : List CacheEntry
  passed_cache =
      (active_role_grant env w (request_tenant env q) (subject_refs env q.principal) q.right
        q.capability q.resource_uri w.org_cache).1

  access_member :
      (audit : Bool)
      → (evaluate_access env w q audit).0.reason ≡ by_org_membership
      → (org_membership_grant env w c q.principal q.right passed_cache).0 ≡ true
  unfolding evaluate_access decide grant_verdict barrier
  access_member audit r = ground (arith, later_member passed_cache)

  abbrev tenant : String
  tenant = tenant_for env c q.principal

  member_granted :
      (cache : List CacheEntry)
      → (org_membership_grant env w c q.principal q.right cache).0 ≡ true
      → (active_role_grant env w tenant
          (subject_refs env q.principal)
          q.right
          (some c)
          none
          cache).0
        ≡ true
  unfolding org_membership_grant
  member_granted cache g = ground arith

  abbrev is_member : RoleAssignment → Bool
  is_member = assignment_grants env w tenant (subject_refs env q.principal) q.right (some c) none

  -- what the scope of an assignment on record may be
  abbrev pub IsScopeOf : RoleAssignment → Type 0
  IsScopeOf row =
      ((row.scope_type ≡ "org")
        × (is_some_eq (org_of w c.store_id (or_else c.tenant_id tenant)) row.scope_id ≡ true))
      ⊎ ((row.scope_type ≡ "tenant") × ((row.scope_id ≡ tenant) ⊎ (row.scope_id ≡ "*"))
          ⊎ ((row.scope_type ≡ "store") × (c.store_id ≡ some row.scope_id)
              ⊎ ((row.scope_type ≡ "namespace") × (c.namespace_id ≡ some row.scope_id)
                  ⊎ Memᴰ row.scope_type ("capability" ∷ "resource" ∷ "object" ∷ [])
                    × (row.scope_id ≡ c.uri))))

  -- by the branches on the type of the scope
  capability_scope : (row : RoleAssignment) → scope_of_capability row c none ≡ true → IsScopeOf row
  unfolding scope_of_capability
  capability_scope row g = elim (Bool-cases (row.scope_type == "store")) [
    | inl e ↦
        let held = is_some_eq-some c.store_id row.scope_id (ground arith) in
        inr (inr (inl ((eq_iff row.scope_type "store").0 e, held)))
    | inr not_store ↦ elim (Bool-cases (row.scope_type == "namespace")) [
      | inl e ↦
          let held = is_some_eq-some c.namespace_id row.scope_id (ground arith) in
          inr (inr (inr (inl ((eq_iff row.scope_type "namespace").0 e, held))))
      | inr not_namespace ↦
          let listed : elem row.scope_type ("capability" ∷ "resource" ∷ "object" ∷ []) ≡ true =
            ground arith in
          let same : (row.scope_id == c.uri) ≡ true = ground arith in
          inr (
            inr (
              inr (
                inr (
                  Memᴰ-of-elem row.scope_type ("capability" ∷ "resource" ∷ "object" ∷ []) listed,
                  (eq_iff row.scope_id c.uri).0 same,
                ))))
    ]
  ]

  member_scope : (row : RoleAssignment) → is_member row ≡ true → IsScopeOf row
  unfolding stored_scope_matches role_assignment_scope_matches
  member_scope row g = elim (Bool-cases (row.scope_type == "org")) [
    | inl e ↦ inl ((eq_iff row.scope_type "org").0 e, ground arith)
    | inr not_org ↦ elim (Bool-cases (row.scope_type == "tenant")) [
      | inl e ↦
          let named : (row.scope_id == tenant || row.scope_id == "*") ≡ true = ground arith in
          inr (
            inl (
              (eq_iff row.scope_type "tenant").0 e,
              ground (arith, named, eq_iff row.scope_id tenant, eq_iff row.scope_id "*"),
            ))
      | inr not_tenant ↦ capability_scope row (ground arith)
    ]
  ]

  member_row :
      (row : RoleAssignment)
      → is_member row ≡ true
      → (is_current env.now (subject_refs env q.principal) row ≡ true)
        × (role_has_right row.role q.right ≡ true)
  member_row row g = (ground arith, ground arith)

  -- A verdict by organization membership rests on a role assignment on record: in the capability's
  -- tenant, not revoked, not expired, naming one of the principal's subjects, whose role has the
  -- right and whose scope takes the capability in: it is the organization that the table has for
  -- the capability's store, or its tenant or every tenant, or its store, its namespace or its uri.
  pub membership-on_record :
      (audit : Bool)
      → (evaluate_access env w q audit).0.reason ≡ by_org_membership
      → (row : RoleAssignment) × Memᴰ row w.role_assignments
        × (row.tenant_id ≡ tenant_for env c q.principal)
        × (is_null row.revoked_at ≡ true)
        × (is_current env.now (subject_refs env q.principal) row ≡ true)
        × (role_has_right row.role q.right ≡ true)
        × IsScopeOf row
  membership-on_record audit r =
      let subjects = subject_refs env q.principal in
      let kept =
        (active_role_grant_lem env w (request_tenant env q) subjects q.right q.capability
          q.resource_uri w.org_cache coherent).1 in
      let found =
        (active_role_grant_lem env w tenant subjects q.right (some c) none passed_cache kept).0 in
      let some_row = rw found at (member_granted passed_cache (access_member audit r)) in
      let (row, selected, grants) = Memᴰ-of-any is_member _ some_row in
      let (stored, live) = Memᴰ-of-select _ w.role_assignments selected in
      (
        row,
        stored,
        ground (arith, live, eq_iff row.tenant_id tenant),
        ground (arith, live),
        (member_row row grants).0,
        (member_row row grants).1,
        member_scope row grants,
      )
