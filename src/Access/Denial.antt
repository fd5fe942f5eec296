-- ===== src/Access/Denial.antt =====
-- What bars a request in `evaluate_access` (capmesh/access_control.py), whatever would grant it.
use client_capmesh.Prelude.{
  String, Bool, ◌≡◌, true, false, none, some, Memᴰ, List, arith, eq_iff, elem-Memᴰ, Memᴰ-of-elem,
  any-Memᴰ, present,
}
use client_capmesh.Model.{Env, Capability, Relationship, PromotionRequest, World}
use client_capmesh.Access.Rights.{
  rights, use_rights, step_up_rights, step_up_risk_tiers, requires_step_up,
}
use client_capmesh.Access.Refs.{
  subject_refs, resource_refs, is_disabled, has_formal_promotion_record,
}
use client_capmesh.Access.Grants.{tuple_match, matches_tuple, tenant_of}
use client_capmesh.Access.Evaluate.{
  Request, blocked_states, blocked_lifecycles, request_tenant, is_blocked, needs_integrity,
  has_integrity, deny_relations, barrier, decide, evaluate_access,
}

module _ (env : Env) (w : World) (q : Request) (audit : Bool) where
  -- An allowed request has passed every denying branch.
  pub allowed-barrier : (evaluate_access env w q audit).0.allowed ≡ true → barrier env w q ≡ none
  unfolding evaluate_access decide
  allowed-barrier h = ground arith

  tuple_match-Memᴰ :
      (tenant : String) (objects relations users : List String) (row : Relationship)
      → Memᴰ row w.relationship_tuples
      → row.tenant_id ≡ tenant
      → Memᴰ row.object objects
      → Memᴰ row.relation relations
      → Memᴰ row.user users
      → tuple_match w tenant objects relations users ≡ true
  unfolding tuple_match
  tuple_match-Memᴰ tenant objects relations users row m t o r u =
      any-Memᴰ (matches_tuple tenant objects relations users) w.relationship_tuples m (
        ground (
          arith,
          eq_iff row.tenant_id tenant,
          elem-Memᴰ objects o,
          elem-Memᴰ relations r,
          elem-Memᴰ users u,
        ))

  -- A stored relationship `deny` or `deny_<right>` between one of the principal's subjects and one
  -- of the request's resources, in the request's tenant, denies the request, whatever grants it.
  pub deny_wins :
      (row : Relationship)
      → Memᴰ row w.relationship_tuples
      → row.tenant_id ≡ request_tenant env q
      → Memᴰ row.object (resource_refs env q.capability q.resource_uri)
      → Memᴰ row.relation (deny_relations q.right)
      → Memᴰ row.user (subject_refs env q.principal)
      → (evaluate_access env w q audit).0.allowed ≡ false
  unfolding evaluate_access decide barrier
  deny_wins row m t o r u = ground (
    arith,
    tuple_match-Memᴰ (request_tenant env q) (resource_refs env q.capability q.resource_uri)
        (deny_relations q.right) (subject_refs env q.principal) row m t o r u,
  )

  -- An allowed request is by an authenticated principal that is not disabled, and for one of the
  -- ten rights.
  pub allowed-principal :
      (evaluate_access env w q audit).0.allowed ≡ true
      → (q.principal.authenticated ≡ true)
        × (q.principal.disabled ≡ false)
        × (is_disabled env w q.principal ≡ false)
        × Memᴰ q.right rights
  unfolding evaluate_access decide barrier is_disabled
  allowed-principal h =
      (ground arith, ground arith, ground arith, Memᴰ-of-elem q.right rights (ground arith))

  module _ (c : Capability) (about : q.capability ≡ some c)
      (granted : (evaluate_access env w q audit).0.allowed ≡ true) where
    not_blocked : is_blocked (some c) ≡ false
    unfolding barrier
    not_blocked = rw (← about) (ground (arith, allowed-barrier granted))

    -- No role, share, ownership or membership opens a capability whose approval state or lifecycle
    -- is blocked.
    pub allowed-live :
        ¬ (Memᴰ c.approval_state blocked_states) × ¬ (Memᴰ c.lifecycle blocked_lifecycles)
    unfolding is_blocked
    allowed-live = (
      λ m. ground (arith, not_blocked, elem-Memᴰ blocked_states m),
      λ m. ground (arith, not_blocked, elem-Memᴰ blocked_lifecycles m),
    )

    -- Without step-up authentication nobody manages, approves or publishes a capability of high or
    -- critical risk.
    pub allowed-step_up :
        Memᴰ q.right step_up_rights
        → Memᴰ c.risk_tier step_up_risk_tiers
        → q.principal.step_up_authenticated ≡ true
    unfolding barrier requires_step_up
    allowed-step_up r t = ground (
      arith,
      about,
      allowed-barrier granted,
      elem-Memᴰ step_up_rights r,
      elem-Memᴰ step_up_risk_tiers t,
    )

    -- In production a promoted capability with a promotion request in its tenant is discovered,
    -- loaded, called or delegated only when it is approved, its signature and its provenance are
    -- verified and its risk review is approved.
    pub allowed-integrity :
        (request : PromotionRequest)
        → env.production ≡ true
        → present c.promoted_from_uri ≡ true
        → Memᴰ request w.promotion_requests
        → request.tenant_id ≡ tenant_of env c
        → request.capability_uri ≡ c.uri
        → Memᴰ q.right use_rights
        → (c.approval_state ≡ "approved")
          × (c.signature_status ≡ "verified")
          × (c.provenance_status ≡ "verified")
          × (c.risk_review_status ≡ "approved")
    unfolding barrier needs_integrity has_integrity has_formal_promotion_record
    allowed-integrity request prod promoted m t u r =
        let recorded : has_formal_promotion_record env w c ≡ true =
          any-Memᴰ _ w.promotion_requests m (
            ground (
              arith,
              eq_iff request.tenant_id (tenant_of env c),
              eq_iff request.capability_uri c.uri,
            )) in
        let sound : has_integrity (some c) ≡ true =
          ground (arith, about, allowed-barrier granted, recorded, elem-Memᴰ use_rights r) in
        ground (
          arith,
          sound,
          eq_iff c.approval_state "approved",
          eq_iff c.signature_status "verified",
          eq_iff c.provenance_status "verified",
          eq_iff c.risk_review_status "approved",
        )
