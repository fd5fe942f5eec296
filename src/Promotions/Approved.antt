-- ===== src/Promotions/Approved.antt =====
-- What an approval by `approve_request` (capmesh/promotions.py) leaves.
use client_capmesh.Promotions.Writes.{store_gates}
use client_capmesh.Access.{Verdict, evaluate_access}
use client_capmesh.Promotions.Review.{Payload, Review, refusal, review, target_namespace}
use client_capmesh.Promotions.Gates.{Gates}
use client_capmesh.Promotions.Approve.{
  approve_request, Decision, decision_of, decide_row, approval, reviewed, approve_row,
}
use client_capmesh.Prelude.{
  ap, ◌∙◌, String, Option, List, Bool, or_else, ◌≡◌, ok, none, some, ◌+++◌, or_default, true, Memᴰ,
  Option-cases, inl, arith, inr, Bool-cases, find, ◌==◌, ◌&&◌, Memᴰ-of-find, eq_iff, ◌∙◌, sym,
  is_some_eq-some,
}
use client_capmesh.Access.Audit.{evaluate_access-decisions}
use client_capmesh.Model.{
  Env, World, PromotionRequest, PolicyDecision, Capability, Principal, Namespace,
}

module _ (env : Env) (slugify : String → String)
    (gate_runner : World → PromotionRequest → Option Gates × List PolicyDecision)
    (blocks : Capability → Bool) (principal : Principal) where
  abbrev pub tenant_of_principal : String
  tenant_of_principal = or_else principal.tenant_id env.default_tenant

  -- the test of the row that a decision is about
  abbrev pub requested : Payload → PromotionRequest → Bool
  requested payload r = r.id == payload.request_id && r.tenant_id == tenant_of_principal

  -- the check of access of `approve_request`
  abbrev pub asked : Payload → World → Verdict × World
  asked payload w =
      evaluate_access env w
        (record {
          principal = principal;
          right = "approve";
          capability = none;
          resource_uri = some ("promotion:" +++ payload.request_id);
        })
        true

  -- A decision that succeeds is by a principal who is allowed to approve, on a request of that
  -- principal's tenant.
  pub approve_request-ok :
      (payload : Payload) (w : World) {out : PromotionRequest}
      → (approve_request env slugify gate_runner blocks principal payload w).0 ≡ ok out
      → (d : Decision) × (row : PromotionRequest) × (decision_of
            (or_default payload.decision "approve")
          ≡ some d)
        × ((asked payload w).0.allowed ≡ true)
        × Memᴰ row (asked payload w).1.promotion_requests
        × (row.id ≡ payload.request_id)
        × (row.tenant_id ≡ tenant_of_principal)
        × (find (requested payload) (asked payload w).1.promotion_requests ≡ some row)
        × (approve_request env slugify gate_runner blocks principal payload w
            ≡ decide_row env slugify gate_runner blocks principal d payload row (asked payload w).1)
  unfolding approve_request
  approve_request-ok payload w {out} h =
      elim (Option-cases (decision_of (or_default payload.decision "approve"))) [
        | inl e ↦ absurd (ground arith)
        | inr (d, e) ↦ elim (Bool-cases (asked payload w).0.allowed) [
          | inr a ↦ absurd (ground arith)
          | inl a ↦
              elim (Option-cases
                (find (requested payload) (asked payload w).1.promotion_requests)) [
                  | inl f ↦ absurd (ground arith)
                  | inr (row, f) ↦
                      let (m, t) =
                        Memᴰ-of-find _ (asked payload w).1.promotion_requests {x = row} f in
                      (
                        d,
                        row,
                        e,
                        a,
                        m,
                        ground (arith, eq_iff row.id payload.request_id),
                        ground (arith, eq_iff row.tenant_id tenant_of_principal),
                        f,
                        ground (arith, e, a, f),
                      )
                ]
        ]
      ]

  -- The checks of access and of the gates leave the namespaces and the requests' rows.
  pub asked-tables :
      (payload : Payload) (w : World)
      → ((asked payload w).1.namespaces ≡ w.namespaces)
        × ((asked payload w).1.promotion_requests ≡ w.promotion_requests)
        × ((asked payload w).1.capabilities ≡ w.capabilities)
        × ((asked payload w).1.stores ≡ w.stores)
        × ((asked payload w).1.shares ≡ w.shares)
        × ((asked payload w).1.relationship_tuples ≡ w.relationship_tuples)
  asked-tables payload w =
      let e =
        evaluate_access-decisions env w
          (record {
            principal = principal;
            right = "approve";
            capability = none;
            resource_uri = some ("promotion:" +++ payload.request_id);
          })
          true in
      (
        ap (λ (v : World). v.namespaces) e,
        ap (λ (v : World). v.promotion_requests) e,
        ap (λ (v : World). v.capabilities) e,
        ap (λ (v : World). v.stores) e,
        ap (λ (v : World). v.shares) e,
        ap (λ (v : World). v.relationship_tuples) e,
      )

  pub reviewed-tables :
      (row : PromotionRequest) (w : World)
      → ((reviewed env slugify gate_runner blocks principal row w).namespaces ≡ w.namespaces)
        × ((reviewed env slugify gate_runner blocks principal row w).capabilities ≡ w.capabilities)
        × ((reviewed env slugify gate_runner blocks principal row w).stores ≡ w.stores)
        × ((reviewed env slugify gate_runner blocks principal row w).shares ≡ w.shares)
        × ((reviewed env slugify gate_runner blocks principal row w).relationship_tuples
            ≡ w.relationship_tuples)
  unfolding reviewed store_gates
  reviewed-tables row w = (ground arith, ground arith, ground arith, ground arith, ground arith)

  -- A done approval is the writes of `approval` on a request that was not refused.
  pub approve_request-approval :
      (payload : Payload) (w : World) {out : PromotionRequest}
      → decision_of (or_default payload.decision "approve") ≡ some Decision.approve
      → (approve_request env slugify gate_runner blocks principal payload w).0 ≡ ok out
      → (row : PromotionRequest) × (r : Review) × (w' : World) × Memᴰ row w.promotion_requests
        × (row.id ≡ payload.request_id)
        × (row.tenant_id ≡ tenant_of_principal)
        × (refusal env slugify gate_runner blocks payload r row w' ≡ none)
        × (approve_request env slugify gate_runner blocks principal payload w
            ≡ approval env slugify gate_runner blocks principal payload r row w')
        × (w'.namespaces ≡ w.namespaces)
        × (w'.capabilities ≡ w.capabilities)
        × (w'.stores ≡ w.stores)
        × (w'.shares ≡ w.shares)
        × (w'.relationship_tuples ≡ w.relationship_tuples)
  unfolding decide_row approve_row
  approve_request-approval payload w approving done =
      let (d, row, e, _, m, own, tenant, _, same) = approve_request-ok payload w done in
      let is_approval : d ≡ Decision.approve = ground (arith, e, approving) in
      let v = (asked payload w).1 in
      let r = review env slugify gate_runner blocks row v in
      let w' = reviewed env slugify gate_runner blocks principal row v in
      let (n1, p1, c1, s1, h1, t1) = asked-tables payload w in
      let (n2, c2, s2, h2, t2) = reviewed-tables row v in
      let taken : approve_request env slugify gate_runner blocks principal payload w
          ≡ approve_row env slugify gate_runner blocks principal payload row v =
        same
        ∙ ap (λ d. decide_row env slugify gate_runner blocks principal d payload row v)
            is_approval in
      let ok_row = ap (λ p. p.0) (sym taken) ∙ done in
      let free : refusal env slugify gate_runner blocks payload r row w' ≡ none =
        ground (arith, ok_row) in
      (
        row,
        r,
        w',
        rw p1 at m,
        own,
        tenant,
        free,
        taken ∙ ground (arith, free),
        n2 ∙ n1,
        c2 ∙ c1,
        s2 ∙ s1,
        h2 ∙ h1,
        t2 ∙ t1,
      )

  -- the namespace of a request is the row that the request names
  pub target_namespace-Memᴰ :
      (row : PromotionRequest) (w : World) {n : Namespace}
      → target_namespace row w ≡ some n
      → Memᴰ n w.namespaces × (row.target_namespace_id ≡ some n.id)
  unfolding target_namespace
  target_namespace-Memᴰ row w {n} h =
      let (m, e) = Memᴰ-of-find _ w.namespaces {x = n} h in
      (m, is_some_eq-some row.target_namespace_id n.id e)
