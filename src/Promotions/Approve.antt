-- ===== src/Promotions/Approve.antt =====
-- capmesh/promotions.py: `approve_request`, the decision on a promotion request. It reads the gates
-- and the refusals of `Review`. Where it raises, the writes that came before stay in the world.
use client_capmesh.Access.{evaluate_access}
use client_capmesh.Promotions.Writes.{
  settle, store_gates, audit_event, promotion_event, marked_note, reread, override_marker, promote,
  remint,
}
use client_capmesh.Prelude.{
  String, Option, List, if◌then◌else◌, Bool, update, Result, ◌++◌, ◌==◌, some, find, none, ◌+++◌,
  ◌&&◌, or_default, err, value_error, or_else, true, not, permission_error,
}
use client_capmesh.Model.{Env, PromotionRequest, Principal, World, Capability, PolicyDecision}
use client_capmesh.Promotions.Gates.{Gates}
use client_capmesh.Promotions.Review.{
  Payload, is_empty, at_uri, review, Review, final_gates, refusal, promoted_uri, target_namespace,
  source_capability,
}

pub data Decision : Type 0 where
  approve reject recall demote yank : Decision

-- the decisions that are supported
unfoldable pub decision_of : String → Option Decision
decision_of text =
    if text == "approve"
    then some approve
    else if text == "reject"
    then some reject
    else if text == "recall"
    then some recall
    else if text == "demote"
    then some demote
    else if text == "yank"
    then some yank
    else none

-- new_state
abbrev pub new_state : Decision → String
new_state approve = "approved"
new_state reject = "rejected"
new_state recall = "recalled"
new_state demote = "demoted"
new_state yank = "yanked"

-- target_store_id
unfoldable pub target_store : PromotionRequest → World → Option String
target_store row w = elim (target_namespace row w) [
  | some n ↦ some n.store_id
  | none ↦ elim (source_capability row w) [ none ↦ none | some c ↦ c.store_id ]
]

-- the decisions other than approve: `action` is the decision's text
unfoldable pub close_request :
    (env : Env)
    → Principal
    → (action state note : String) → PromotionRequest
    → World
    → Result PromotionRequest × World
close_request env principal action state note row w =
    let w' = settle env principal row.id state note w in
    let w'' =
      audit_event
        (promotion_event env principal ("promotion." +++ state) row.capability_uri action note row)
        (record w' {
          capabilities =
              update (at_uri row.capability_uri)
                (λ (c : Capability). record c { approval_state = state }) w'.capabilities;
        }) in
    (reread row.id w'', w'')

module _ (env : Env) (slugify : String → String)
    (gate_runner : World → PromotionRequest → Option Gates × List PolicyDecision)
    (blocks : Capability → Bool) (principal : Principal) where
  -- what the gate runner leaves: its policy decisions, and its states of the gates
  unfoldable pub reviewed : PromotionRequest → World → World
  unfolding store_gates
  reviewed row w =
      let r = review env slugify gate_runner blocks row w in
      let w' = record w { policy_decisions = w.policy_decisions ++ (gate_runner w row).1 } in
      if r.stored then store_gates row.id r.gates w' else w'

  -- the audit event of an override
  unfoldable pub log_override : Option String → PromotionRequest → World → World
  log_override none row w = w
  log_override (some marker) row w =
      audit_event
        (promotion_event env principal "promotion.gate_override" row.capability_uri "override"
          marker row)
        w

  -- the writes of an approval that is not refused
  unfoldable pub approval :
      Payload → Review → PromotionRequest → World → Result PromotionRequest × World
  approval payload r row w =
      let tenant_id = or_else principal.tenant_id env.default_tenant in
      let gates = final_gates env slugify gate_runner blocks r row w in
      let old = row.capability_uri in
      let new = promoted_uri env slugify gate_runner blocks row w in
      let note = marked_note r.pending payload in
      let w1 =
        settle env principal row.id "approved" note
          (if is_empty gates then w else store_gates row.id gates w) in
      let w2 = log_override (override_marker r.pending) row w1 in
      let w3 = record w2 {
        capabilities =
            update (at_uri old) (promote (target_store row w) row.target_namespace_id)
              w2.capabilities;
      } in
      let (failure, w4) = remint tenant_id row.id old new w3 in
      elim failure [
        | some e ↦ (err e, w4)
        | none ↦
            let w5 =
              audit_event
                (promotion_event env principal "promotion.approved" new "approve" note row) w4 in
            (reread row.id w5, w5)
      ]

  -- the checks, and the writes if none of them refuses
  unfoldable pub approve_row : Payload → PromotionRequest → World → Result PromotionRequest × World
  approve_row payload row w =
      let r = review env slugify gate_runner blocks row w in
      let w' = reviewed row w in
      elim (refusal env slugify gate_runner blocks payload r row w') [
        | some e ↦ (err e, w')
        | none ↦ approval payload r row w'
      ]

  unfoldable pub decide_row :
      Decision → Payload → PromotionRequest → World → Result PromotionRequest × World
  decide_row approve payload row w = approve_row payload row w
  decide_row reject payload row w =
      close_request env principal "reject" "rejected" (or_default payload.note "") row w
  decide_row recall payload row w =
      close_request env principal "recall" "recalled" (or_default payload.note "") row w
  decide_row demote payload row w =
      close_request env principal "demote" "demoted" (or_default payload.note "") row w
  decide_row yank payload row w =
      close_request env principal "yank" "yanked" (or_default payload.note "") row w

  unfoldable pub approve_request : Payload → World → Result PromotionRequest × World
  approve_request payload w = elim (decision_of (or_default payload.decision "approve")) [
    | none ↦ (err value_error, w)
    | some decision ↦
        let (v, w') =
          evaluate_access env w
            (record {
              principal = principal;
              right = "approve";
              capability = none;
              resource_uri = some ("promotion:" +++ payload.request_id);
            })
            true in
        if not v.allowed
        then (err permission_error, w')
        else elim (find
            (λ (r : PromotionRequest).
              r.id == payload.request_id
              && r.tenant_id == or_else principal.tenant_id env.default_tenant)
            w'.promotion_requests) [
              | none ↦ (err value_error, w')
              | some row ↦ decide_row decision payload row w'
            ]
  ]
