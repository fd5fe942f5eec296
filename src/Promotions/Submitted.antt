-- ===== src/Promotions/Submitted.antt =====
-- What `submit_promotion` (capmesh/promotions.py) guarantees.
use client_capmesh.Prelude.{String, [], ◌≡◌, or_else, ◌++◌, ◌==◌, ◌∷◌, some, none, update}
use client_capmesh.Model.{Env, Principal, World, PromotionRequest, Capability}

module _ (env : Env) (principal : Principal) where
  abbrev pub tenant : String
  tenant = or_else principal.tenant_id env.default_tenant

  -- what a submission stores and returns, column by column
  abbrev pub IsSubmitted :
      (request_id uri namespace_id : String)
      → Capability
      → PromotionRequest
      → (w end : World) → Type 0
  IsSubmitted request_id uri namespace_id c out w end =
      (out ≡ record {
        id = request_id;
        tenant_id = tenant;
        capability_uri = uri;
        source_store_id = c.store_id;
        target_namespace_id = some namespace_id;
        requested_by = some principal.subject;
        state = "pending";
        gates = some (
            ("sourceIntegrity", "pending")
            ∷ ("tests", "pending")
            ∷ ("retrievalEvals", "pending")
            ∷ ("signature", "pending")
            ∷ ("provenance", "pending")
            ∷ ("promptInjectionScan", "pending")
            ∷ ("riskTierPolicy", "pending")
            ∷ []);
        decided_at = none;
      })
      × (end.promotion_requests ≡ w.promotion_requests ++ (out ∷ []))
      × (end.approval_steps
          ≡ w.approval_steps
            ++ (record {
              request_id = request_id;
              step_name = "namespace_admin_review";
              assigned_to = "role:namespace_admin";
              state = "pending";
              decision_by = none;
              decision_note = none;
              decided_at = none;
            }
                ∷ []))
      × (end.capabilities
          ≡ update (λ (x : Capability). x.uri == uri)
              (λ (x : Capability). record x {
                submitted_by = some principal.subject;
                approval_state = "pending";
              })
              w.capabilities)
      × (end.audit_events
          ≡ w.audit_events
            ++ (record {
              tenant_id = tenant;
              event_type = "promotion.submitted";
              actor = principal.subject;
              target = uri;
              action = "submit";
              decision = "allow";
              payload = [];
            }
                ∷ []))
