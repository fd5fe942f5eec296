-- ===== src/Sharing/Tests.antt =====
-- A share that is given and withdrawn, and the theorems at concrete inputs.
use client_capmesh.Sharing.Escalation.{IsChecked, create_share-allowed}
use client_capmesh.Sharing.Expiry.{create_share-outlives}
use client_capmesh.Sharing.Revocation.{of_share, revoke_share-ends}
use client_capmesh.Access.Samples.{alice, env, world, tool, admin}
use client_capmesh.Roles.Operations.{insert_relationship}
use client_capmesh.Access.{
  Request, resource_refs, evaluate_access, decide, barrier, is_disabled, latest, is_blocked,
  requires_step_up, needs_integrity, has_formal_promotion_record, has_integrity, tuple_match,
  request_tenant, subject_refs, identity_of, capability_verdict, capability_verdicts, grant_verdict,
  later_verdict, record_policy_decision, request_uri, visibility_verdict, active_role_grant,
  all_users_store_grant, cached_org, default_visibility_grant, is_current, manifest_grant,
  member_has_right, names_subject, namespace_member_grant, org_id_for_store, org_membership_grant,
  org_scope_matches, owner_grant, role_assignment_scope_matches, role_loop, scope_matches,
  share_grant, share_has_right, store_is_org, store_owner_grant, stored_org, names_principal,
  global_role_has_right, role_has_right, role_rights, rights,
}
use client_capmesh.Sharing.Shares.{
  ShareRequest, create_share, share_rights, check_rights, shared, insert_rights, revoke_share,
  withdraw, delete_rights, new_share, is_share, about,
}
use client_capmesh.Model.{World, Principal, Env, Share, Capability}
use client_capmesh.Prelude.{
  String, [], refl, any, update, elem, all, find, select, meets, subset, partition, some, none,
  Memᴰ, ◌∷◌, ◌≡◌, ◌&&◌, ok, false, ◌==◌, true,
}

-- an identity that is there already
abbrev known_identity : World → String × World
known_identity w = ("idn_root", w)

abbrev to_bob : ShareRequest
to_bob = record {
  capability_uri = some tool.uri;
  uri = none;
  rights = some ("discover" ∷ []);
  subject_type = none;
  subject_id = some "bob";
  expires_at = some "2026-08-02T00:00:00Z";
}

abbrev bob : Principal
bob = record alice { subject = "bob"; identity_id = none; roles = [] }

-- years after the share is over
abbrev later : Env
later = record env { now = "2030-01-01T00:00:00Z" }

abbrev looks : Request
looks = record {
  principal = bob;
  right = "discover";
  capability = none;
  resource_uri = some tool.uri;
}

abbrev shared_row : Share
shared_row = new_share env admin "shr_1" "idn_root" to_bob

abbrev shared_world : World
shared_world = record world { shares = shared_row ∷ [] }

runs :
    ((create_share env admin known_identity "shr_1" to_bob world).0 ≡ ok shared_row)
    × (barrier later (create_share env admin known_identity "shr_1" to_bob world).1 looks ≡ none)
    × ((revoke_share env admin "shr_1" shared_world).0 ≡ ok "shr_1")
    × (find (λ (s : Share). s.id == "shr_1" && s.tenant_id == "asg") shared_world.shares
        ≡ some shared_row)
unfolding create_share share_rights check_rights shared insert_rights insert_relationship update
    revoke_share withdraw delete_rights evaluate_access elem any all find select meets subset
    partition decide barrier is_disabled latest is_blocked requires_step_up needs_integrity
    has_formal_promotion_record has_integrity tuple_match request_tenant resource_refs subject_refs
    identity_of capability_verdict capability_verdicts grant_verdict later_verdict
    record_policy_decision request_uri visibility_verdict active_role_grant all_users_store_grant
    cached_org default_visibility_grant is_current manifest_grant member_has_right names_subject
    namespace_member_grant org_id_for_store org_membership_grant org_scope_matches owner_grant
    role_assignment_scope_matches role_loop scope_matches share_grant share_has_right store_is_org
    store_owner_grant stored_org names_principal global_role_has_right role_has_right role_rights
runs = (refl, refl, refl, refl)

-- The administrator may discover the tool that is shared.
create_share-allowed_example :
    (c : Capability) × Memᴰ c world.capabilities
    × (c.uri ≡ tool.uri)
    × (c.tenant_id ≡ "asg")
    × ((evaluate_access env world (about admin c "share") true).0.allowed ≡ true)
    × Memᴰ "discover" rights
    × (w' : World) × IsChecked world w'
    × ((evaluate_access env w' (about admin c "discover") true).0.allowed ≡ true)
create_share-allowed_example =
    create_share-allowed env admin known_identity "shr_1" to_bob world {out = shared_row} runs.0
      (Memᴰ.head refl)

-- Bob discovers the tool years after the share is over.
create_share-outlives_example :
    (evaluate_access later
      (create_share env admin known_identity "shr_1" to_bob world).1
      looks
      false).0.allowed
    ≡ true
unfolding resource_refs subject_refs request_tenant
create_share-outlives_example =
    create_share-outlives env admin known_identity "shr_1" to_bob world {out = shared_row} runs.0
      later looks (Memᴰ.head refl) refl (Memᴰ.head refl) (Memᴰ.head refl) runs.1 false

-- The share is withdrawn.
revoke_share-ends_example :
    (any
        (λ (t : Share). is_share "shr_1" t && t.state == "active")
        (revoke_share env admin "shr_1" shared_world).1.shares
      ≡ false)
    × (any
          (of_share env admin shared_row "discover")
          (revoke_share env admin "shr_1" shared_world).1.relationship_tuples
        ≡ false)
revoke_share-ends_example =
    revoke_share-ends env admin "shr_1" shared_world {out = "shr_1"} runs.2 {s = shared_row} runs.3
      (Memᴰ.head refl)
