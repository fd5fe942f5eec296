-- ===== src/Promotions/Submit.antt =====
-- capmesh/promotions.py: `submit_promotion`. The new request's key (`new_id`) is an argument. Title,
-- rationale and version of the request are left out, and the payload of the audit event; where it
-- raises, the policy decision of the check of access stays in the world.
use client_capmesh.Access.{evaluate_access, Request}
use client_capmesh.Promotions.Writes.{reread}
use client_capmesh.Promotions.Review.{at_uri}
use client_capmesh.Promotions.Gates.{default_promotion_gates}
use client_capmesh.Prelude.{
  String, [], true, Option, or_default, find, Bool, Result, none, ◌==◌, false, or_else, ◌++◌, ◌&&◌,
  some, ◌∷◌, if◌then◌else◌, any, not, update, is_some_eq, elem, truthy, ◌||◌, err, value_error,
  permission_error,
}
use client_capmesh.Model.{
  Env, World, Principal, Namespace, Capability, ApprovalStep, Store, Organization, PromotionRequest,
}

-- the dict of a submission
pub record Submission : Type 0 where
  pub capability_uri : Option String
  pub uri : Option String
  pub target_namespace_id : Option String

-- str(payload.get("capabilityUri") or payload.get("uri") or "")
abbrev pub submitted_uri : Submission → String
submitted_uri s = or_default s.capability_uri (or_default s.uri "")

abbrev pub is_some {ℓ} : {A : Type ℓ} → Option A → Bool
is_some none = false
is_some (some a) = true

-- the join of a namespace with its store
unfoldable pub promotion_target :
    (tenant_id namespace_id : String) → World → Option (Namespace × Store)
promotion_target tenant_id namespace_id w =
    elim (find
      (λ (n : Namespace).
        n.id == namespace_id
        && (n.tenant_id == tenant_id
            && any (λ (s : Store). s.id == n.store_id && s.tenant_id == n.tenant_id) w.stores))
      w.namespaces) [
        | none ↦ none
        | some n ↦
            elim (find (λ (s : Store). s.id == n.store_id && s.tenant_id == n.tenant_id) w.stores) [
              | none ↦ none
              | some s ↦ some (n, s)
            ]
      ]

-- the status of the organization that owns the store of a namespace
unfoldable pub target_org_status : (tenant_id namespace_id : String) → World → Option String
target_org_status tenant_id namespace_id w =
    elim (find
      (λ (o : Organization).
        o.tenant_id == tenant_id
        && any
            (λ (n : Namespace).
              n.id == namespace_id
              && (is_some_eq o.store_id n.store_id && n.tenant_id == o.tenant_id))
            w.namespaces)
      w.organizations) [ none ↦ none | some o ↦ some o.status ]

-- the checks of the target, in their order, all of which end in ValueError
unfoldable pub is_target : (tenant_id namespace_id : String) → World → Bool
is_target tenant_id namespace_id w = elim (promotion_target tenant_id namespace_id w) [
  | none ↦ false
  | some (n, s) ↦
      if not (elem s.kind ("org" ∷ "all_users" ∷ []))
      then false
      else if not (n.lifecycle == "active") || is_some s.disabled_at
      then false
      else if s.kind == "org"
      then is_some_eq (target_org_status tenant_id namespace_id w) "active"
      else true
]

module _ (env : Env) (principal : Principal) where
  -- the row that is inserted
  abbrev pub new_request :
      (request_id capability_uri namespace_id : String) → Capability → PromotionRequest
  new_request request_id capability_uri namespace_id c = record {
    id = request_id;
    tenant_id = or_else principal.tenant_id env.default_tenant;
    capability_uri = capability_uri;
    source_store_id = c.store_id;
    target_namespace_id = some namespace_id;
    requested_by = some principal.subject;
    state = "pending";
    gates = some default_promotion_gates;
    decided_at = none;
  }

  abbrev pub new_step : (request_id : String) → ApprovalStep
  new_step request_id = record {
    request_id = request_id;
    step_name = "namespace_admin_review";
    assigned_to = "role:namespace_admin";
    state = "pending";
    decision_by = none;
    decision_note = none;
    decided_at = none;
  }

  -- the writes of a submission
  unfoldable pub submitted :
      (request_id capability_uri namespace_id : String)
      → Capability
      → World
      → Result PromotionRequest × World
  submitted request_id capability_uri namespace_id c w =
      let w' = record w {
        promotion_requests =
            w.promotion_requests ++ (new_request request_id capability_uri namespace_id c ∷ []);
        approval_steps = w.approval_steps ++ (new_step request_id ∷ []);
        capabilities =
            update (at_uri capability_uri)
              (λ (c : Capability). record c {
                submitted_by = some principal.subject;
                approval_state = "pending";
              })
              w.capabilities;
        audit_events =
            w.audit_events
            ++ record {
              tenant_id = or_else principal.tenant_id env.default_tenant;
              event_type = "promotion.submitted";
              actor = principal.subject;
              target = capability_uri;
              action = "submit";
              decision = "allow";
              payload = [];
            }
              ∷ [];
      } in
      (reread request_id w', w')

  -- what the check of access is asked
  abbrev pub submission_request : Submission → Capability → Request
  submission_request payload c = record {
    principal = principal;
    right = "submit";
    capability = some c;
    resource_uri = some (submitted_uri payload);
  }

  unfoldable pub submit_promotion :
      (request_id : String) → Submission → World → Result PromotionRequest × World
  submit_promotion request_id payload w =
      let tenant_id = or_else principal.tenant_id env.default_tenant in
      let capability_uri = submitted_uri payload in
      let namespace_id = or_default payload.target_namespace_id "" in
      if not (truthy capability_uri && truthy namespace_id)
      then (err value_error, w)
      else elim (find (λ (c : Capability). c.uri == capability_uri && c.tenant_id == tenant_id)
          w.capabilities) [
            | none ↦ (err value_error, w)
            | some c ↦
                let (v, w') = evaluate_access env w (submission_request payload c) true in
                if not v.allowed
                then (err permission_error, w')
                else if not (is_target tenant_id namespace_id w')
                then (err value_error, w')
                else submitted request_id capability_uri namespace_id c w'
          ]
