-- ===== src/Promotions/Follow.antt =====
-- What moves with a capability that `approve_request` (capmesh/promotions.py) gives a new uri.
use client_capmesh.Promotions.Approved.{approve_request-approval}
use client_capmesh.Promotions.Found.{approval-capabilities}
use client_capmesh.Promotions.Review.{Payload, Review, promoted_uri, is_empty, final_gates, at_uri}
use client_capmesh.Promotions.Gates.{Gates}
use client_capmesh.Promotions.Writes.{
  remint, settle, store_gates, audit_event, promote, readdress, follow, reread, marked_note,
  is_request,
}
use client_capmesh.Promotions.Approve.{
  target_store, approval, log_override, decision_of, Decision, approve_request,
}
use client_capmesh.Prelude.{
  String, Bool, ◌==◌, Option, map, map-update, refl, ◌&&◌, List, Result, ◌≡◌, false, ok, update,
  arith, or_else, find, if◌then◌else◌, some, Option-cases, inl, inr, ◌∙◌, ap, Memᴰ-of-find,
  Memᴰ-update_cases, or_default, Memᴰ, ◌⊎◌, any, true, any-update_none, Bool-cases, sym,
}
use client_capmesh.Model.{
  Env, Share, Relationship, World, PromotionRequest, PolicyDecision, Capability, Principal,
}

abbrev pub shared_at : String → Share → Bool
shared_at uri s = s.capability_uri == uri

abbrev pub related_at : (tenant_id uri : String) → Relationship → Bool
related_at tenant_id uri r = r.tenant_id == tenant_id && r.object == uri

module _ (env : Env) (slugify : String → String)
    (gate_runner : World → PromotionRequest → Option Gates × List PolicyDecision)
    (blocks : Capability → Bool) (principal : Principal) where
  module _ (payload : Payload) (r : Review) (row : PromotionRequest) (w : World) where
    abbrev result : Result PromotionRequest × World
    result = approval env slugify gate_runner blocks principal payload r row w

    abbrev new_uri : String
    new_uri = promoted_uri env slugify gate_runner blocks row w

    approval-stays :
        {out : PromotionRequest}
        → (new_uri == row.capability_uri) ≡ true
        → result.0 ≡ ok out
        → (result.1.shares ≡ w.shares) × (result.1.relationship_tuples ≡ w.relationship_tuples)
    unfolding approval remint settle store_gates log_override audit_event
    approval-stays stays done = (ground arith, ground arith)

    -- the uris of a table
    abbrev uris : List Capability → List String
    uris = map (λ (c : Capability). c.uri)

    approval-uris :
        {out : PromotionRequest}
        → (new_uri == row.capability_uri) ≡ true
        → result.0 ≡ ok out
        → uris result.1.capabilities ≡ uris w.capabilities
    unfolding promote
    approval-uris stays done =
        rw
          (
            approval-capabilities env slugify gate_runner blocks principal payload r row w done,
            stays,
          )
          (map-update (λ (c : Capability). c.uri) (at_uri row.capability_uri)
            (promote (target_store row w) row.target_namespace_id) w.capabilities (λ c. refl))

    abbrev tenant_id : String
    tenant_id = or_else principal.tenant_id env.default_tenant

    module _ (moves : (new_uri == row.capability_uri) ≡ false) {out : PromotionRequest}
        (done : result.0 ≡ ok out) where
      approval-shares :
          result.1.shares
          ≡ update
              (shared_at row.capability_uri)
              (λ (s : Share). record s { capability_uri = new_uri })
              w.shares
      unfolding approval remint settle store_gates log_override audit_event readdress follow
      approval-shares = ground arith

      approval-relationships :
          result.1.relationship_tuples
          ≡ update
              (related_at tenant_id row.capability_uri)
              (λ (t : Relationship). record t { object = new_uri })
              w.relationship_tuples
      unfolding approval remint settle store_gates log_override audit_event readdress follow
      approval-relationships = ground arith

      -- nothing is left under the old uri, and what was there is under that of the returned row
      approval-moves :
          (any (at_uri row.capability_uri) result.1.capabilities ≡ false)
          × (any (shared_at row.capability_uri) result.1.shares ≡ false)
          × (any (related_at tenant_id row.capability_uri) result.1.relationship_tuples ≡ false)
      approval-moves = (
        rw
            (
              approval-capabilities env slugify gate_runner blocks principal payload r row w done,
              moves,
            )
            (any-update_none (at_uri row.capability_uri) _ _ (λ y. moves)),
        rw approval-shares (any-update_none (shared_at row.capability_uri) _ w.shares (λ y. moves)),
        rw approval-relationships (
            any-update_none (related_at tenant_id row.capability_uri) _ w.relationship_tuples
              (λ y. ground (arith, moves))),
      )

      -- the returned row is read from the table
      approval-reread : reread row.id result.1 ≡ ok out
      unfolding approval
      approval-reread = ground arith

      -- the world after the first writes
      abbrev settled : World
      settled = settle env principal row.id "approved" (marked_note r.pending payload) (
          if is_empty (final_gates env slugify gate_runner blocks r row w)
          then w
          else store_gates row.id (final_gates env slugify gate_runner blocks r row w) w)

      approval-requests :
          (before : List PromotionRequest) × (result.1.promotion_requests
            ≡ update
                (is_request row.id)
                (λ (q : PromotionRequest). record q { capability_uri = new_uri })
                before)
      unfolding approval remint log_override audit_event readdress follow
      approval-requests = (settled.promotion_requests, ground (arith))

      -- the returned row has the new uri
      out-moved : out.capability_uri ≡ new_uri
      unfolding reread
      out-moved =
          let rows = result.1.promotion_requests in
          let found : find (is_request row.id) rows ≡ some out =
            elim (Option-cases (find (is_request row.id) rows)) [
              | inl e ↦ absurd (ground (arith, approval-reread, e))
              | inr (q, e) ↦ e ∙ ap some (ground (arith, approval-reread, e))
            ] in
          let (m, own) = Memᴰ-of-find (is_request row.id) rows {x = out} found in
          let (before, e) = approval-requests in
          let (q, _, h) = Memᴰ-update_cases (is_request row.id) _ before {x = out} (rw e at m) in
          elim h [
            | inl (_, same) ↦ ap (λ (q : PromotionRequest). q.capability_uri) same
            | inr (other, same) ↦
                absurd (ground (arith, own, other, ap (λ q. is_request row.id q) same))
          ]

  -- A done approval leaves the uri of every capability as it is, and the shares and relationships
  -- with them; or it moves everything: no capability, no share, and no relationship of the tenant
  -- has the old uri any more, and each share and each relationship of the tenant that had it is
  -- there with the uri of the returned request, the others as they were.
  pub approve_request-follow :
      (payload : Payload)
      → (w : World) → {out : PromotionRequest}
      → decision_of (or_default payload.decision "approve") ≡ some Decision.approve
      → (approve_request env slugify gate_runner blocks principal payload w).0 ≡ ok out
      → (row : PromotionRequest) × Memᴰ row w.promotion_requests
        × (row.id ≡ payload.request_id)
        × ((let end = (approve_request env slugify gate_runner blocks principal payload w).1 in
              (map (λ (c : Capability). c.uri) end.capabilities
                ≡ map (λ (c : Capability). c.uri) w.capabilities)
              × (end.shares ≡ w.shares)
              × (end.relationship_tuples ≡ w.relationship_tuples))
            ⊎ (let end = (approve_request env slugify gate_runner blocks principal payload w).1 in
                let tenant_id = or_else principal.tenant_id env.default_tenant in
                let old = row.capability_uri in
                (any (at_uri old) end.capabilities ≡ false)
                × (any (shared_at old) end.shares ≡ false)
                × (any (related_at tenant_id old) end.relationship_tuples ≡ false)
                × (end.shares
                    ≡ update
                        (shared_at old)
                        (λ (s : Share). record s { capability_uri = out.capability_uri })
                        w.shares)
                × (end.relationship_tuples
                    ≡ update
                        (related_at tenant_id old)
                        (λ (t : Relationship). record t { object = out.capability_uri })
                        w.relationship_tuples)))
  approve_request-follow payload w {out} approving done =
      let (row, r, w', m, own, _, _, same, _, caps, _, shares, tuples) =
        approve_request-approval env slugify gate_runner blocks principal payload w approving
          done in
      let done' = ap (λ p. p.0) (sym same) ∙ done in
      let old = row.capability_uri in
      let tenant = tenant_id payload r row w' in
      (
        row,
        m,
        own,
        elim (Bool-cases (promoted_uri env slugify gate_runner blocks row w' == old)) [
          | inl e ↦
              let (s, t) = approval-stays payload r row w' e done' in
              inl (
                ap (λ p. uris payload r row w' p.1.capabilities) same
                    ∙ approval-uris payload r row w' e done'
                    ∙ ap (uris payload r row w') caps,
                ap (λ p. p.1.shares) same ∙ s ∙ shares,
                ap (λ p. p.1.relationship_tuples) same ∙ t ∙ tuples,
              )
          | inr e ↦
              let (c, s, t) = approval-moves payload r row w' e done' in
              let new = sym (out-moved payload r row w' e done') in
              inr (
                ap (λ p. any (at_uri old) p.1.capabilities) same ∙ c,
                ap (λ p. any (shared_at old) p.1.shares) same ∙ s,
                ap (λ p. any (related_at tenant old) p.1.relationship_tuples) same ∙ t,
                ap (λ p. p.1.shares) same
                    ∙ approval-shares payload r row w' e done'
                    ∙ ap
                        (λ u.
                          update (shared_at old) (λ (s : Share). record s { capability_uri = u })
                            w'.shares)
                        new
                    ∙ ap
                        (update (shared_at old)
                          (λ (s : Share). record s { capability_uri = out.capability_uri }))
                        shares,
                ap (λ p. p.1.relationship_tuples) same
                    ∙ approval-relationships payload r row w' e done'
                    ∙ ap
                        (λ u.
                          update (related_at tenant old)
                            (λ (t : Relationship). record t { object = u }) w'.relationship_tuples)
                        new
                    ∙ ap
                        (update (related_at tenant old)
                          (λ (t : Relationship). record t { object = out.capability_uri }))
                        tuples,
              )
        ],
      )
