-- ===== src/Access/Strength.antt =====
-- Which grants of `evaluate_access` (capmesh/access_control.py) can give which rights.
use client_capmesh.Access.Records.{
  IsRecorded, share-IsRecorded, principal_role-IsRecorded, role_assignment-IsRecorded,
  relationship-IsRecorded, namespace_member-IsRecorded,
}
use client_capmesh.Prelude.{
  String, Bool, ◌≡◌, true, false, Memᴰ, List, [], ◌∷◌, ◌⊎◌, inl, inr, refl, arith, elem,
  Option-cases, some, eq_iff, or_else, ◌∙◌, Memᴰ-of-elem, Bool-cases, any,
}
use client_capmesh.Model.{
  Env, Capability, World, CacheEntry, Reason, by_namespace_member, by_all_users_store,
  by_org_membership, by_visibility,
}
use client_capmesh.Access.Rights.{read_rights, use_rights, owner_rights, global_role_has_right}
use client_capmesh.Access.Refs.{subject_refs, resource_refs}
use client_capmesh.Access.Grants.{
  active_role_grant, store_owner_grant, manifest_grant, owner_grant, all_users_store_grant,
  org_membership_grant, default_visibility_grant, tenant_of, namespace_member_grant, share_grant,
  tuple_match,
}
use client_capmesh.Access.Evaluate.{
  Request, visibility_verdict, capability_verdict, later_verdict, grant_verdict, decide,
  evaluate_access, request_tenant, request_uri, grant_relations,
}

-- the rights that change what others see, and the right to read the audit trail
abbrev pub reserved_rights : List String
reserved_rights = "publish" ∷ "approve" ∷ "audit" ∷ []

-- A grant that holds for whole groups of users: by a store or by the visibility.
abbrev pub IsOpen : Reason → Type 0
IsOpen r = (r ≡ by_all_users_store) ⊎ ((r ≡ by_org_membership) ⊎ (r ≡ by_visibility))

reserved_not_listed :
    (r : String)
    → Memᴰ r reserved_rights
    → (elem r read_rights ≡ false) × (elem r use_rights ≡ false) × (elem r owner_rights ≡ false)
unfolding elem
reserved_not_listed r (Memᴰ.head e) = rw e (refl, refl, refl)
reserved_not_listed r (Memᴰ.tail (Memᴰ.head e)) = rw e (refl, refl, refl)
reserved_not_listed r (Memᴰ.tail (Memᴰ.tail (Memᴰ.head e))) = rw e (refl, refl, refl)
reserved_not_listed r (Memᴰ.tail (Memᴰ.tail (Memᴰ.tail m))) = elim m [ ]

module _ (env : Env) (w : World) (q : Request) where
  evaluate-eq-grant :
      (audit : Bool)
      → (evaluate_access env w q audit).0.allowed ≡ true
      → (evaluate_access env w q audit).0 ≡ (grant_verdict env w q w.org_cache).0
  unfolding evaluate_access decide
  evaluate-eq-grant audit h = ground arith

  module _ (reserved : Memᴰ q.right reserved_rights) where
    capability_recorded :
        (c : Capability) (cache : List CacheEntry)
        → (capability_verdict env w q c cache).0.allowed ≡ true
        → (namespace_member_grant w c.namespace_id (subject_refs env q.principal) q.right ≡ true)
          × ((capability_verdict env w q c cache).0.reason ≡ by_namespace_member)
    unfolding capability_verdict store_owner_grant manifest_grant owner_grant all_users_store_grant
        org_membership_grant visibility_verdict default_visibility_grant
    capability_recorded c cache h = ground (arith, reserved_not_listed q.right reserved)

    later-IsRecorded :
        (cache : List CacheEntry)
        → (later_verdict env w q cache).0.allowed ≡ true
        → IsRecorded env w q (later_verdict env w q cache).0.reason
    unfolding later_verdict
    later-IsRecorded cache h =
        let tenant = request_tenant env q in
        let subjects = subject_refs env q.principal in
        elim (Bool-cases (share_grant env w tenant subjects (request_uri q) q.right)) [
          | inl e ↦ rw e (share-IsRecorded env w q e)
          | inr no_share ↦
              let resources = resource_refs env q.capability q.resource_uri in
              elim (Bool-cases
                (tuple_match w tenant resources (grant_relations q.right) subjects)) [
                  | inl e ↦ rw (no_share, e) (relationship-IsRecorded env w q e)
                  | inr no_tuple ↦ elim (Option-cases q.capability) [
                    | inl e ↦ absurd (ground (arith, e, no_share, no_tuple))
                    | inr (c, e) ↦
                        let (member, named) =
                          capability_recorded c cache (ground (arith, e, no_share, no_tuple)) in
                        let same : (later_verdict env w q cache).0.reason ≡ by_namespace_member =
                          ground (arith, e, no_share, no_tuple, named) in
                        rw same (namespace_member-IsRecorded env w q c c.namespace_id e refl member)
                  ]
                ]
        ]

    grant-IsRecorded :
        (cache : List CacheEntry)
        → (grant_verdict env w q cache).0.allowed ≡ true
        → IsRecorded env w q (grant_verdict env w q cache).0.reason
    unfolding grant_verdict
    grant-IsRecorded cache h =
        let assigned =
          active_role_grant env w (request_tenant env q) (subject_refs env q.principal) q.right
            q.capability q.resource_uri cache in
        elim (Bool-cases (any (λ role. global_role_has_right role q.right) q.principal.roles)) [
          | inl e ↦ rw e (principal_role-IsRecorded env w q e)
          | inr no_role ↦ elim (Bool-cases assigned.0) [
            | inl e ↦ rw (no_role, e) (role_assignment-IsRecorded env w q cache e)
            | inr e ↦ rw (no_role, e) (later-IsRecorded assigned.1 (ground (arith, no_role, e)))
          ]
        ]

    -- The rights to publish, to approve and to audit come only from a role that the principal
    -- carries, or from a role assignment, a share, a relationship or a membership of the namespace
    -- that is a row of the database, is in force, names a subject of the principal and gives the
    -- right; the reason of the verdict says which it is. A role assignment is for an organization
    -- (which one is not stated here), or for the tenant, the capability, its store or namespace, or
    -- the resource of the request. Owning the capability or its store, the
    -- manifest, the all-users store and the visibility never give them.
    pub reserved-IsRecorded :
        (audit : Bool)
        → (evaluate_access env w q audit).0.allowed ≡ true
        → IsRecorded env w q (evaluate_access env w q audit).0.reason
    reserved-IsRecorded audit h =
        let same = evaluate-eq-grant audit h in
        rw same (grant-IsRecorded w.org_cache (rw (← same) h))

  module _ (c : Capability) (about : q.capability ≡ some c) where
    capability_reads :
        (cache : List CacheEntry)
        → (capability_verdict env w q c cache).0.allowed ≡ true
        → IsOpen (capability_verdict env w q c cache).0.reason
        → (elem q.right read_rights ≡ true)
          × ((q.principal.authenticated ≡ true) ⊎ (c.visibility ≡ "public"))
          × ((capability_verdict env w q c cache).0.reason ≡ by_all_users_store
              → tenant_of env c ≡ or_else q.principal.tenant_id env.default_tenant)
    unfolding capability_verdict all_users_store_grant org_membership_grant visibility_verdict
        default_visibility_grant
    capability_reads cache h o = (
      ground arith,
      ground (arith, eq_iff c.visibility "public"),
      λ a.
          ground
            (arith, eq_iff (tenant_of env c) (or_else q.principal.tenant_id env.default_tenant)),
    )

    later_reads :
        (cache : List CacheEntry)
        → (later_verdict env w q cache).0.allowed ≡ true
        → IsOpen (later_verdict env w q cache).0.reason
        → later_verdict env w q cache ≡ capability_verdict env w q c cache
    unfolding later_verdict
    later_reads cache h o = ground (arith, about)

    grant_reads :
        (cache : List CacheEntry)
        → (grant_verdict env w q cache).0.allowed ≡ true
        → IsOpen (grant_verdict env w q cache).0.reason
        → (cache' : List CacheEntry) × ((grant_verdict env w q cache).0
            ≡ (capability_verdict env w q c cache').0)
    unfolding grant_verdict
    grant_reads cache h o =
        let cache' =
          (active_role_grant env w (request_tenant env q) (subject_refs env q.principal) q.right
            q.capability q.resource_uri cache).1 in
        (cache', ground (arith, later_reads cache'))

    -- What the stores and the visibility give by themselves is reading (discover, load or call), to
    -- authenticated principals unless the capability is public, and through the all-users store
    -- only within the principal's own tenant.
    pub open_grant-reads :
        (audit : Bool)
        → (evaluate_access env w q audit).0.allowed ≡ true
        → IsOpen (evaluate_access env w q audit).0.reason
        → Memᴰ q.right read_rights
          × ((q.principal.authenticated ≡ true) ⊎ (c.visibility ≡ "public"))
          × ((evaluate_access env w q audit).0.reason ≡ by_all_users_store
              → tenant_of env c ≡ or_else q.principal.tenant_id env.default_tenant)
    open_grant-reads audit h o =
        let same = evaluate-eq-grant audit h in
        let (cache', found) = grant_reads w.org_cache (rw (← same) h) (rw (← same) o) in
        let e = same ∙ found in
        let (reads, known, tenant) = capability_reads cache' (rw (← e) h) (rw (← e) o) in
        (Memᴰ-of-elem q.right read_rights reads, known, λ a. tenant (rw (← e) a))
