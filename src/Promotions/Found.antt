-- ===== src/Promotions/Found.antt =====
-- Where an approval by `approve_request` (capmesh/promotions.py) leaves the capability.
use client_capmesh.Promotions.Writes.{
  remint, settle, store_gates, audit_event, readdress, follow, promote,
}
use client_capmesh.Promotions.Review.{
  Payload, Review, promoted_uri, at_uri, source_capability, is_taken,
}
use client_capmesh.Promotions.Gates.{Gates}
use client_capmesh.Promotions.Approve.{approval, log_override, target_store}
use client_capmesh.Prelude.{
  refl, ap, ◌∙◌, String, Option, List, Bool, ◌≡◌, ok, some, inl, arith, inr, Bool-cases, find, ◌==◌,
  Memᴰ-of-find, eq_iff, Result, update, if◌then◌else◌, find-update, false, any, any-update, ◌∙◌,
  find-rekey, eq_refl,
}
use client_capmesh.Model.{Env, World, PromotionRequest, PolicyDecision, Capability, Principal}

module _ (env : Env) (slugify : String → String)
    (gate_runner : World → PromotionRequest → Option Gates × List PolicyDecision)
    (blocks : Capability → Bool) (principal : Principal) where
  module _ (payload : Payload) (r : Review) (row : PromotionRequest) (w : World) where
    abbrev result : Result PromotionRequest × World
    result = approval env slugify gate_runner blocks principal payload r row w

    abbrev new_uri : String
    new_uri = promoted_uri env slugify gate_runner blocks row w

    -- the capabilities before a new uri is written
    abbrev promoted : List Capability
    promoted =
        update (at_uri row.capability_uri) (promote (target_store row w) row.target_namespace_id)
          w.capabilities

    -- an approval that succeeds was not refused, and no relationship clashed
    pub approval-capabilities :
        {out : PromotionRequest}
        → result.0 ≡ ok out
        → result.1.capabilities ≡ (
            if new_uri == row.capability_uri
            then promoted
            else update
                (at_uri row.capability_uri)
                (λ (c : Capability). record c { uri = new_uri })
                promoted)
    unfolding approval remint settle store_gates log_override audit_event readdress follow
    approval-capabilities h = ground arith

    promoted-found :
        {c : Capability}
        → source_capability row w ≡ some c
        → find (at_uri row.capability_uri) promoted
          ≡ some (promote (target_store row w) row.target_namespace_id c)
    unfolding promote
    promoted-found {c} s =
        find-update (at_uri row.capability_uri) (at_uri row.capability_uri)
          (promote (target_store row w) row.target_namespace_id) w.capabilities {x = c} (λ y. refl)
          (λ y e. e) s

    -- The capability is found under its new uri with the columns that an approval sets.
    pub approval-found :
        {out : PromotionRequest} {c : Capability}
        → result.0 ≡ ok out
        → is_taken env slugify gate_runner blocks row w ≡ false
        → source_capability row w ≡ some c
        → find (at_uri new_uri) result.1.capabilities
          ≡ some (record (promote (target_store row w) row.target_namespace_id c) { uri = new_uri })
    unfolding is_taken promote
    approval-found {out} {c} h free s = elim (Bool-cases (new_uri == row.capability_uri)) [
      | inl e ↦
          let same : new_uri ≡ row.capability_uri = (eq_iff new_uri row.capability_uri).0 e in
          let (_, here) = Memᴰ-of-find (at_uri row.capability_uri) w.capabilities {x = c} s in
          let own : c.uri ≡ row.capability_uri = (eq_iff c.uri row.capability_uri).0 here in
          let found =
            promoted-found {c = c} s
            ∙ ap
                (λ uri.
                  some
                    (record (promote (target_store row w) row.target_namespace_id c) { uri = uri }))
                own in
          rw (approval-capabilities h, e, same) found
      | inr e ↦
          let fresh : any (at_uri new_uri) promoted ≡ false =
            any-update (at_uri new_uri) (at_uri row.capability_uri)
              (promote (target_store row w) row.target_namespace_id) w.capabilities (λ y. refl)
            ∙ ground arith in
          let found =
            find-rekey (at_uri new_uri) (at_uri row.capability_uri)
              (λ (c : Capability). record c { uri = new_uri }) promoted
              {x = promote (target_store row w) row.target_namespace_id c} (λ y e. eq_refl new_uri)
              fresh (promoted-found {c = c} s) in
          rw (approval-capabilities h, e) found
    ]
