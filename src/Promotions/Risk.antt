-- ===== src/Promotions/Risk.antt =====
-- The refusal of risky capabilities by `approve_request` (capmesh/promotions.py) with
-- capmesh/risk_policy.py.
use client_capmesh.Promotions.Approved.{requested, asked, asked-tables, reviewed-tables}
use client_capmesh.Promotions.Review.{
  risk_tier_gate, refusal, Payload, target_namespace, store_of, source_capability, Review, review,
}
use client_capmesh.Promotions.Gates.{evaluate_risk_tier_policy, Gates}
use client_capmesh.Promotions.Approve.{
  approve_request, decide_row, decision_of, Decision, approve_row, reviewed,
}
use client_capmesh.Prelude.{
  String, [], refl, elem, Option, List, Bool, or_default, ◌≡◌, some, find, Memᴰ, ◌∷◌, err, or_else,
  false, permission_error, ◌⊎◌, arith, Error, ap, Option-cases, ◌∙◌, inr, Bool-cases, inl,
}
use client_capmesh.Model.{
  Env, World, PromotionRequest, PolicyDecision, Capability, Principal, Namespace, Store,
}

module _ (env : Env) (slugify : String → String)
    (gate_runner : World → PromotionRequest → Option Gates × List PolicyDecision)
    (blocks : Capability → Bool) (principal : Principal) (payload : Payload)
    (approving : decision_of (or_default payload.decision "approve") ≡ some Decision.approve) where
  -- An approval of a request that is there is refused for want of the right, or goes on to the row.
  pub approve_request-cases :
      (w : World) {row : PromotionRequest}
      → find (requested env slugify gate_runner blocks principal payload) w.promotion_requests
        ≡ some row
      → (approve_request env slugify gate_runner blocks principal payload w
          ≡ (err permission_error, (asked env slugify gate_runner blocks principal payload w).1))
        ⊎ (approve_request env slugify gate_runner blocks principal payload w
            ≡ approve_row env slugify gate_runner blocks principal payload row
                (asked env slugify gate_runner blocks principal payload w).1)
  unfolding approve_request decide_row
  approve_request-cases w {row} there =
      let (_, rows, _, _, _, _) = asked-tables env slugify gate_runner blocks principal payload w in
      let found : find (requested env slugify gate_runner blocks principal payload)
            (asked env slugify gate_runner blocks principal payload w).1.promotion_requests
          ≡ some row =
        ap (find (requested env slugify gate_runner blocks principal payload)) rows ∙ there in
      elim (Bool-cases (asked env slugify gate_runner blocks principal payload w).0.allowed) [
        | inl e ↦ inr (ground (arith, approving, found, e))
        | inr e ↦ inl (ground (arith, approving, e))
      ]

  -- high and critical risk are not for everyone
  evaluate_risk_tier_policy-risky :
      (tier : String)
      → Memᴰ tier ("high" ∷ "critical" ∷ [])
      → evaluate_risk_tier_policy (or_else tier "unknown") "all_users" ≡ false
  unfolding evaluate_risk_tier_policy elem
  evaluate_risk_tier_policy-risky tier (Memᴰ.head e) = rw e refl
  evaluate_risk_tier_policy-risky tier (Memᴰ.tail (Memᴰ.head e)) = rw e refl
  evaluate_risk_tier_policy-risky tier (Memᴰ.tail (Memᴰ.tail m)) = elim m [ ]

  module _ (row : PromotionRequest) (w : World) {n : Namespace} {c : Capability} {s : Store}
      (no_override : payload.override_pending_gates ≡ false)
      (target : target_namespace row w ≡ some n) (store : store_of n w ≡ some s)
      (source : source_capability row w ≡ some c) (everyone : s.kind ≡ "all_users")
      (risky : Memᴰ c.risk_tier ("high" ∷ "critical" ∷ [])) where
    risk_tier_gate-fails : risk_tier_gate row w ≡ some false
    unfolding risk_tier_gate
    risk_tier_gate-fails =
        let here : evaluate_risk_tier_policy (or_else c.risk_tier "unknown")
              (or_else s.kind "unknown")
            ≡ false =
          rw everyone (evaluate_risk_tier_policy-risky c.risk_tier risky) in
        ground (arith, target, store, source, here)

    refusal-risk :
        (r : Review)
        → (e : Error) × (refusal env slugify gate_runner blocks payload r row w ≡ some e)
    unfolding refusal
    refusal-risk r = elim (Option-cases (refusal env slugify gate_runner blocks payload r row w)) [
      | inr (e, h) ↦ (e, h)
      | inl h ↦ absurd (ground (arith, h, risk_tier_gate-fails, no_override))
    ]

  -- the rows that the checks read are those before the check of access
  read-back :
      (row : PromotionRequest) (w : World)
      → (let w' =
            reviewed env slugify gate_runner blocks principal row
              (asked env slugify gate_runner blocks principal payload w).1 in
          (w'.namespaces ≡ w.namespaces)
          × (w'.capabilities ≡ w.capabilities)
          × (w'.stores ≡ w.stores))
  read-back row w =
      let (n1, _, c1, s1, _, _) = asked-tables env slugify gate_runner blocks principal payload w in
      let (n2, c2, s2, _, _) =
        reviewed-tables env slugify gate_runner blocks principal row
          (asked env slugify gate_runner blocks principal payload w).1 in
      (n2 ∙ n1, c2 ∙ c1, s2 ∙ s1)

  -- Without `overridePendingGates`, an approval is refused with an error, and no capability changes,
  -- if the request in the tenant's table is for a namespace in the store of everyone and its
  -- capability has high or critical risk; whatever the gates say.
  pub approve_request-risk :
      (w : World)
      → {row : PromotionRequest} {n : Namespace} {c : Capability} {s : Store}
      → find (requested env slugify gate_runner blocks principal payload) w.promotion_requests
        ≡ some row
      → payload.override_pending_gates ≡ false
      → target_namespace row w ≡ some n
      → store_of n w ≡ some s
      → source_capability row w ≡ some c
      → s.kind ≡ "all_users"
      → Memᴰ c.risk_tier ("high" ∷ "critical" ∷ [])
      → (e : Error) × ((approve_request env slugify gate_runner blocks principal payload w).0
          ≡ err e)
        × ((approve_request env slugify gate_runner blocks principal payload w).1.capabilities
            ≡ w.capabilities)
  unfolding approve_row target_namespace
  approve_request-risk w {row} there no_override target store source everyone risky =
      let w' =
        reviewed env slugify gate_runner blocks principal row
          (asked env slugify gate_runner blocks principal payload w).1 in
      let (_, _, c1, _, _, _) = asked-tables env slugify gate_runner blocks principal payload w in
      let (nn, cc, ss) = read-back row w in
      elim (approve_request-cases w there) [
        | inl e ↦ (permission_error, ap (λ p. p.0) e, ap (λ p. p.1.capabilities) e ∙ c1)
        | inr e ↦
            let (error, h) =
              refusal-risk row w' no_override (ap (find _) nn ∙ target) (ap (find _) ss ∙ store)
                (ap (find _) cc ∙ source) everyone risky
                (review env slugify gate_runner blocks row
                  (asked env slugify gate_runner blocks principal payload w).1) in
            let refused : approve_row env slugify gate_runner blocks principal payload row
                  (asked env slugify gate_runner blocks principal payload w).1
                ≡ (err error, w') =
              rw (approve_row, h) refl in
            (error, ap (λ p. p.0) (e ∙ refused), ap (λ p. p.1.capabilities) (e ∙ refused) ∙ cc)
      ]
