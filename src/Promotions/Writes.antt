-- ===== src/Promotions/Writes.antt =====
-- capmesh/promotions.py: the writes of `approve_request`. Of the payload in an audit event, the id
-- and the note are kept.
use client_capmesh.Prelude.{
  String, List, Option, ◌∷◌, if◌then◌else◌, Bool, update, Error, ◌++◌, Result, or_else, ◌==◌, some,
  elem, any, [], find, ◌+++◌, none, ◌&&◌, or_default, integrity_error, err, present, value_error,
  ok,
}
use client_capmesh.Model.{
  Env, PromotionRequest, Principal, World, AuditEvent, Capability, Relationship, ApprovalStep,
  Share,
}
use client_capmesh.Promotions.Gates.{Gates}
use client_capmesh.Promotions.Review.{Payload, is_empty, at_uri}

-- ", ".join(names)
unfoldable pub join_names : List String → String
join_names [] = ""
join_names (name ∷ names) = if is_empty names then name else name +++ (", " +++ join_names names)

-- gate_override_marker
unfoldable pub override_marker : List String → Option String
unfolding join_names
override_marker pending =
    if is_empty pending
    then none
    else some ("[OVERRIDE: approved with pending gates: " +++ (join_names pending +++ "]"))

-- payload["note"] after the override
unfoldable pub marked_note : (pending : List String) → Payload → String
unfolding override_marker
marked_note pending payload = elim (override_marker pending) [
  | none ↦ or_default payload.note ""
  | some marker ↦
      if present payload.note then or_default payload.note "" +++ (" " +++ marker) else marker
]

abbrev pub is_request : String → PromotionRequest → Bool
is_request request_id row = row.id == request_id

-- The UPDATE of approval_steps, the state of the request and the time of the decision.
unfoldable pub settle : (env : Env) → Principal → (request_id state note : String) → World → World
settle env principal request_id state note w = record w {
  promotion_requests =
      update (is_request request_id)
        (λ (r : PromotionRequest). record r { state = state; decided_at = some env.now })
        w.promotion_requests;
  approval_steps =
      update (λ (s : ApprovalStep). s.request_id == request_id && s.state == "pending")
        (λ (s : ApprovalStep). record s {
          state = state;
          decision_by = some principal.subject;
          decision_note = some note;
          decided_at = some env.now;
        })
        w.approval_steps;
}

-- UPDATE promotion_requests SET gates_json
unfoldable pub store_gates : (request_id : String) → Gates → World → World
store_gates request_id gates w = record w {
  promotion_requests =
      update (is_request request_id) (λ (r : PromotionRequest). record r { gates = some gates })
        w.promotion_requests;
}

-- the columns of a capability that an approval sets
unfoldable pub promote : (store_id namespace_id : Option String) → Capability → Capability
promote store_id namespace_id c = record c {
  approval_state = "approved";
  lifecycle = if elem c.lifecycle ("draft" ∷ "published" ∷ []) then "published" else c.lifecycle;
  store_id = store_id;
  namespace_id = namespace_id;
  promoted_from_uri = elim c.promoted_from_uri [ none ↦ some c.uri | some uri ↦ some uri ];
  signature_status = if c.signature_status == "unchecked" then "pending" else c.signature_status;
  provenance_status = if c.provenance_status == "unchecked" then "pending" else c.provenance_status;
  risk_review_status =
      if c.risk_review_status == "pending" then "approved" else c.risk_review_status;
}

-- UNIQUE(tenant_id, object, relation, user) on the relationships that move to the new uri
unfoldable pub has_tuple_clash : (tenant_id old new : String) → World → Bool
has_tuple_clash tenant_id old new w =
    any
      (λ (r : Relationship).
        r.tenant_id == tenant_id
        && (r.object == old
            && any
                (λ (s : Relationship).
                  s.tenant_id == tenant_id
                  && (s.object == new && (s.relation == r.relation && s.user == r.user)))
                w.relationship_tuples))
      w.relationship_tuples

-- the new uri in the capability and the request
unfoldable pub readdress : (request_id old new : String) → World → World
readdress request_id old new w = record w {
  capabilities = update (at_uri old) (λ (c : Capability). record c { uri = new }) w.capabilities;
  promotion_requests =
      update (is_request request_id) (λ (r : PromotionRequest). record r { capability_uri = new })
        w.promotion_requests;
}

-- the new uri in the relationships and the shares
unfoldable pub follow : (tenant_id old new : String) → World → World
follow tenant_id old new w = record w {
  relationship_tuples =
      update (λ (r : Relationship). r.tenant_id == tenant_id && r.object == old)
        (λ (r : Relationship). record r { object = new }) w.relationship_tuples;
  shares =
      update (λ (s : Share). s.capability_uri == old)
        (λ (s : Share). record s { capability_uri = new }) w.shares;
}

-- the re-minting of the uri
unfoldable pub remint : (tenant_id request_id old new : String) → World → Option Error × World
remint tenant_id request_id old new w =
    if new == old
    then (none, w)
    else if has_tuple_clash tenant_id old new w
    then (some integrity_error, readdress request_id old new w)
    else (none, follow tenant_id old new (readdress request_id old new w))

unfoldable pub audit_event : AuditEvent → World → World
audit_event event w = record w { audit_events = w.audit_events ++ (event ∷ []) }

-- `promotion_record` of the row of the request
unfoldable pub reread : (request_id : String) → World → Result PromotionRequest
reread request_id w = elim (find (is_request request_id) w.promotion_requests) [
  | none ↦ err value_error
  | some row ↦ ok row
]

abbrev pub promotion_event :
    (env : Env)
    → Principal
    → (event_type target action note : String) → PromotionRequest
    → AuditEvent
promotion_event env principal event_type target action note row = record {
  tenant_id = or_else principal.tenant_id env.default_tenant;
  event_type = event_type;
  actor = principal.subject;
  target = target;
  action = action;
  decision = "allow";
  payload = ("requestId", row.id) ∷ ("note", note) ∷ [];
}
