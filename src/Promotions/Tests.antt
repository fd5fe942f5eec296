-- ===== src/Promotions/Tests.antt =====
-- Decisions on promotion requests that are run, and the theorems at concrete inputs.
use client_capmesh.Promotions.Approved.{requested}
use client_capmesh.Promotions.Production.{approve_request-integrity}
use client_capmesh.Promotions.Follow.{shared_at, related_at, approve_request-follow}
use client_capmesh.Promotions.Closed.{approve_request-denies}
use client_capmesh.Promotions.Risk.{approve_request-risk}
use client_capmesh.Model.{PromotionRequest, Capability, Namespace, Share, Relationship}
use client_capmesh.Promotions.Submit.{
  submit_promotion, submitted, is_target, promotion_target, target_org_status, new_request,
}
use client_capmesh.Access.{
  evaluate_access, decide, barrier, is_disabled, latest, is_blocked, requires_step_up,
  needs_integrity, has_formal_promotion_record, has_integrity, tuple_match, request_tenant,
  resource_refs, subject_refs, identity_of, capability_verdict, capability_verdicts, grant_verdict,
  later_verdict, record_policy_decision, request_uri, visibility_verdict, active_role_grant,
  all_users_store_grant, cached_org, default_visibility_grant, is_current, manifest_grant,
  member_has_right, names_subject, namespace_member_grant, org_id_for_store, org_membership_grant,
  org_scope_matches, owner_grant, role_assignment_scope_matches, role_loop, scope_matches,
  share_grant, share_has_right, store_is_org, store_owner_grant, stored_org, names_principal,
  global_role_has_right, role_has_right, role_rights,
}
use client_capmesh.Promotions.Writes.{
  join_names, override_marker, marked_note, settle, store_gates, promote, has_tuple_clash,
  readdress, follow, remint, audit_event, reread, is_request,
}
use client_capmesh.Promotions.Gates.{
  names_outside, merge, unmet, put, state_of, evaluate_risk_tier_policy,
}
use client_capmesh.Promotions.Review.{
  review, without_adhoc, rstrip_slash, target_namespace, risk_tier_gate,
  evaluate_prompt_injection_scan, final_gates, promoted_uri, is_complete, is_taken, refusal,
  store_of, at_uri, source_capability, address,
}
use client_capmesh.Promotions.Samples.{
  same_text, all_passed, harmless, decision, board, approved_request, pending_request,
  rejected_request, place, rejected_draft, draft, everyone, submission,
}
use client_capmesh.Access.Samples.{env, admin}
use client_capmesh.Promotions.Approve.{
  approve_request, decision_of, decide_row, approve_row, target_store, close_request, reviewed,
  log_override, approval, Decision,
}
use client_capmesh.Prelude.{
  refl, ◌≡◌, ok, update, elem, any, all, find, select, meets, subset, partition, some, Error, err,
  Memᴰ, ◌∷◌, none, ◌⊎◌, [], false, true, String, map,
}

-- An approval, a rejection and a submission, each of which is done.
runs :
    ((approve_request env same_text all_passed harmless admin (decision "prq_1" "approve") board).0
      ≡ ok approved_request)
    × ((approve_request env same_text all_passed harmless admin (decision "prq_1" "reject") board).0
        ≡ ok rejected_request)
    × ((approve_request env same_text all_passed harmless admin
          (decision "prq_1" "reject")
          board).1.capabilities
        ≡ rejected_draft ∷ [])
    × ((submit_promotion env admin "prq_9" submission board).0
        ≡ ok (new_request env admin "prq_9" draft.uri "ns_1" draft))
    × (any (is_request "prq_9") board.promotion_requests ≡ false)
    × (find
          (requested env same_text all_passed harmless admin (decision "prq_1" "reject"))
          board.promotion_requests
        ≡ some (pending_request "prq_1" "ns_1"))
    × (find
          (requested env same_text all_passed harmless admin (decision "prq_2" "approve"))
          board.promotion_requests
        ≡ some (pending_request "prq_2" "ns_all"))
unfolding approve_request decision_of decide_row approve_row review without_adhoc names_outside
    merge unmet put state_of evaluate_risk_tier_policy rstrip_slash target_namespace risk_tier_gate
    evaluate_prompt_injection_scan final_gates promoted_uri is_complete is_taken refusal join_names
    override_marker marked_note settle store_gates promote has_tuple_clash readdress follow remint
    audit_event reread target_store close_request reviewed log_override approval update
    evaluate_access elem any all find select meets subset partition decide barrier is_disabled
    latest is_blocked requires_step_up needs_integrity has_formal_promotion_record has_integrity
    tuple_match request_tenant resource_refs subject_refs identity_of capability_verdict
    capability_verdicts grant_verdict later_verdict record_policy_decision request_uri
    visibility_verdict active_role_grant all_users_store_grant cached_org default_visibility_grant
    is_current manifest_grant member_has_right names_subject namespace_member_grant org_id_for_store
    org_membership_grant org_scope_matches owner_grant role_assignment_scope_matches role_loop
    scope_matches share_grant share_has_right store_is_org store_owner_grant stored_org
    names_principal global_role_has_right role_has_right role_rights submit_promotion submitted
    is_target promotion_target target_org_status
runs = (refl, refl, refl, refl, refl, refl, refl)

-- The targets of the two requests.
target_rows :
    (target_namespace (pending_request "prq_2" "ns_all") board
      ≡ some (place "ns_all" "store_all" "cap://all"))
    × (store_of (place "ns_all" "store_all" "cap://all") board ≡ some everyone)
    × (source_capability (pending_request "prq_2" "ns_all") board ≡ some draft)
unfolding target_namespace find
target_rows = (refl, refl, refl)

-- The rejected capability is closed to the administrator, too.
approve_request-denies_example :
    (evaluate_access env board
      (record {
        principal = admin;
        right = "load";
        capability = some rejected_draft;
        resource_uri = none;
      })
      false).0.allowed
    ≡ false
unfolding decision_of
approve_request-denies_example =
    approve_request-denies env same_text all_passed harmless admin (decision "prq_1" "reject") board
      {d = Decision.reject} {row = pending_request "prq_1" "ns_1"} {out = rejected_request} refl
      refl runs.5 runs.1 {c = rejected_draft} (rw runs.2 (Memᴰ.head refl)) refl env board
      (record {
        principal = admin;
        right = "load";
        capability = some rejected_draft;
        resource_uri = none;
      })
      refl false

-- Nobody approves the draft for everyone without the override.
approve_request-risk_example :
    (e : Error) × ((approve_request env same_text all_passed harmless admin
        (decision "prq_2" "approve")
        board).0
      ≡ err e)
    × ((approve_request env same_text all_passed harmless admin
          (decision "prq_2" "approve")
          board).1.capabilities
        ≡ board.capabilities)
unfolding decision_of
approve_request-risk_example =
    approve_request-risk env same_text all_passed harmless admin (decision "prq_2" "approve") refl
      board runs.6 refl target_rows.0 target_rows.1 target_rows.2 refl (Memᴰ.head refl)

-- The approved draft is sound at its new address.
approve_request-integrity_example :
    (row : PromotionRequest) × (n : Namespace) × (c : Capability) × Memᴰ row
      board.promotion_requests
    × (row.id ≡ "prq_1")
    × Memᴰ n board.namespaces
    × (row.target_namespace_id ≡ some n.id)
    × (find
          (at_uri c.uri)
          (approve_request env same_text all_passed harmless admin
            (decision "prq_1" "approve")
            board).1.capabilities
        ≡ some c)
    × (has_integrity (some c) ≡ true)
    × (c.uri ≡ address env same_text all_passed harmless n c)
    × (c.store_id ≡ some n.store_id)
    × (c.namespace_id ≡ some n.id)
unfolding decision_of
approve_request-integrity_example =
    approve_request-integrity env same_text all_passed harmless admin refl
      (decision "prq_1" "approve") board {out = approved_request} refl runs.0

-- Its shares and relationships follow.
approve_request-follow_example :
    (row : PromotionRequest) × Memᴰ row board.promotion_requests
    × (row.id ≡ "prq_1")
    × ((let end =
            (approve_request env same_text all_passed harmless admin
              (decision "prq_1" "approve")
              board).1 in
          (map (λ (c : Capability). c.uri) end.capabilities
            ≡ map (λ (c : Capability). c.uri) board.capabilities)
          × (end.shares ≡ board.shares)
          × (end.relationship_tuples ≡ board.relationship_tuples))
        ⊎ (let end =
              (approve_request env same_text all_passed harmless admin
                (decision "prq_1" "approve")
                board).1 in
            let tenant_id : String = "asg" in
            let old = row.capability_uri in
            let new = approved_request.capability_uri in
            (any (at_uri old) end.capabilities ≡ false)
            × (any (shared_at old) end.shares ≡ false)
            × (any (related_at tenant_id old) end.relationship_tuples ≡ false)
            × (end.shares
                ≡ update
                    (shared_at old)
                    (λ (s : Share). record s { capability_uri = new })
                    board.shares)
            × (end.relationship_tuples
                ≡ update
                    (related_at tenant_id old)
                    (λ (t : Relationship). record t { object = new })
                    board.relationship_tuples)))
unfolding decision_of
approve_request-follow_example =
    approve_request-follow env same_text all_passed harmless admin (decision "prq_1" "approve")
      board {out = approved_request} refl runs.0
