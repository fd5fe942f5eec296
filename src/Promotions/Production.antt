-- ===== src/Promotions/Production.antt =====
-- What an approval in production guarantees (`approve_request` of capmesh/promotions.py).
use client_capmesh.Promotions.Approved.{approve_request-approval, target_namespace-Memᴰ}
use client_capmesh.Promotions.Found.{approval-found}
use client_capmesh.Promotions.Gates.{Gates, unmet, gate_names}
use client_capmesh.Access.{has_integrity}
use client_capmesh.Promotions.Review.{
  refusal, is_complete, Payload, Review, is_secure, is_taken, target_namespace, source_capability,
  promoted_uri, address, at_uri,
}
use client_capmesh.Promotions.Writes.{promote}
use client_capmesh.Promotions.Approve.{
  target_store, approval, decide_row, approve_row, decision_of, Decision, approve_request,
}
use client_capmesh.Prelude.{
  refl, inl, String, Option, List, Bool, ◌≡◌, arith, true, none, some, false, eq_iff, ap,
  Option-cases, inl, [], inr, ok, find, sym, ◌∙◌, or_default, Memᴰ,
}
use client_capmesh.Model.{
  Env, World, PromotionRequest, PolicyDecision, Capability, Principal, Namespace,
}

module _ (env : Env) (slugify : String → String)
    (gate_runner : World → PromotionRequest → Option Gates × List PolicyDecision)
    (blocks : Capability → Bool) (principal : Principal) where
  module _ (production : env.production ≡ true) (payload : Payload) (row : PromotionRequest) where
    -- what the refusals leave in production
    passed-checks :
        (r : Review) (w : World)
        → refusal env slugify gate_runner blocks payload r row w ≡ none
        → (is_taken env slugify gate_runner blocks row w ≡ false)
          × (unmet gate_names r.gates ≡ [])
          × (is_secure (source_capability row w) ≡ true)
          × (is_complete env slugify gate_runner blocks row w ≡ true)
    unfolding refusal
    passed-checks r w h = (ground arith, ground arith, ground arith, ground arith)

    -- the capability and the namespace of a request that passed
    passed-rows :
        (w : World)
        → is_complete env slugify gate_runner blocks row w ≡ true
        → (n : Namespace) × (c : Capability) × (target_namespace row w ≡ some n)
          × (source_capability row w ≡ some c)
    unfolding is_complete
    passed-rows w h = elim (Option-cases (target_namespace row w)) [
      | inl e ↦ absurd (ground arith)
      | inr (n, en) ↦ elim (Option-cases (source_capability row w)) [
        | inl e ↦ absurd (ground arith)
        | inr (c, ec) ↦ (n, c, en, ec)
      ]
    ]

    promote-integrity :
        (store_id namespace_id : Option String) (c : Capability)
        → is_secure (some c) ≡ true
        → has_integrity (some (promote store_id namespace_id c)) ≡ true
    unfolding has_integrity promote
    promote-integrity store_id namespace_id c h =
        let signed : c.signature_status ≡ "verified" =
          ground (arith, eq_iff c.signature_status "verified") in
        let traced : c.provenance_status ≡ "verified" =
          ground (arith, eq_iff c.provenance_status "verified") in
        let assessed : c.risk_review_status ≡ "approved" =
          ground (arith, eq_iff c.risk_review_status "approved") in
        rw (signed, traced, assessed) refl

    -- the address that a promoted capability has
    address-promoted_uri :
        (w : World) {n : Namespace} {c : Capability}
        → target_namespace row w ≡ some n
        → source_capability row w ≡ some c
        → promoted_uri env slugify gate_runner blocks row w
          ≡ address env slugify gate_runner blocks n c
    unfolding promoted_uri
    address-promoted_uri w en ec = ground (arith, en, ec)

    -- the capability that an approval leaves
    approval-integrity :
        (r : Review) (w : World) {out : PromotionRequest}
        → refusal env slugify gate_runner blocks payload r row w ≡ none
        → (approval env slugify gate_runner blocks principal payload r row w).0 ≡ ok out
        → (n : Namespace) × (c : Capability) × (target_namespace row w ≡ some n)
          × (find
                (at_uri c.uri)
                (approval env slugify gate_runner blocks principal payload r row w).1.capabilities
              ≡ some c)
          × (has_integrity (some c) ≡ true)
          × (c.uri ≡ address env slugify gate_runner blocks n c)
          × (c.store_id ≡ some n.store_id)
          × (c.namespace_id ≡ row.target_namespace_id)
    unfolding promote target_store has_integrity
    approval-integrity r w h done =
        let (free, _, safe, whole) = passed-checks r w h in
        let (n, c, en, ec) = passed-rows w whole in
        let safe_c : is_secure (some c) ≡ true = ap is_secure (sym ec) ∙ safe in
        let uri = promoted_uri env slugify gate_runner blocks row w in
        (
          n,
          record (promote (target_store row w) row.target_namespace_id c) { uri = uri },
          en,
          approval-found env slugify gate_runner blocks principal payload r row w done free ec,
          promote-integrity (target_store row w) row.target_namespace_id c safe_c,
          address-promoted_uri w en ec,
          rw (target_store, en) refl,
          refl,
        )

  -- In production, an approval that `approve_request` reports as done is of a request in the table,
  -- for a namespace n in the table. Afterwards a row of the capability table stands under the address
  -- that its type, plugin, name and version have in n; it has the store and the namespace of n, and
  -- it is approved, with a verified signature, a verified provenance and an approved risk review.
  -- `overridePendingGates` makes no difference to this.
  pub approve_request-integrity :
      env.production ≡ true
      → (payload : Payload) → (w : World) → {out : PromotionRequest}
      → decision_of (or_default payload.decision "approve") ≡ some Decision.approve
      → (approve_request env slugify gate_runner blocks principal payload w).0 ≡ ok out
      → (row : PromotionRequest) × (n : Namespace) × (c : Capability) × Memᴰ row
          w.promotion_requests
        × (row.id ≡ payload.request_id)
        × Memᴰ n w.namespaces
        × (row.target_namespace_id ≡ some n.id)
        × (find
              (at_uri c.uri)
              (approve_request env slugify gate_runner blocks principal payload w).1.capabilities
            ≡ some c)
        × (has_integrity (some c) ≡ true)
        × (c.uri ≡ address env slugify gate_runner blocks n c)
        × (c.store_id ≡ some n.store_id)
        × (c.namespace_id ≡ some n.id)
  unfolding decide_row approve_row
  approve_request-integrity production payload w approving done =
      let (row, r, w', m, own, _, h, same, tables, _, _, _, _) =
        approve_request-approval env slugify gate_runner blocks principal payload w approving
          done in
      let (n, c, en, found, sound, uri, store, namespace) =
        approval-integrity production payload row r w' h (ap (λ p. p.0) (sym same) ∙ done) in
      let (mn, named) = target_namespace-Memᴰ env slugify gate_runner blocks principal row w' en in
      let end : find (at_uri c.uri)
            (approve_request env slugify gate_runner blocks principal payload w).1.capabilities
          ≡ some c =
        ap (λ p. find (at_uri c.uri) p.1.capabilities) same ∙ found in
      (row, n, c, m, own, rw tables at mn, named, end, sound, uri, store, namespace ∙ named)
