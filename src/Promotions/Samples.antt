-- ===== src/Promotions/Samples.antt =====
-- A capability of alice on its way to the namespace of an organization, and one on its way to
-- everyone, for the tests and the witnesses.
use client_capmesh.Promotions.Submit.{Submission}
use client_capmesh.Promotions.Gates.{default_promotion_gates, Gates}
use client_capmesh.Access.Samples.{tool, world, env}
use client_capmesh.Promotions.Review.{Payload}
use client_capmesh.Prelude.{String, [], Bool, some, none, Option, ◌∷◌, false, List}
use client_capmesh.Model.{Capability, Namespace, PromotionRequest, Store, World, PolicyDecision}

abbrev pub draft : Capability
draft = record tool {
  uri = "cap://user/asg/alice/tool@1";
  lifecycle = "draft";
  risk_tier = "high";
  store_id = some "store_alice";
  promoted_from_uri = none;
  approval_state = "pending";
  version = "1";
}

abbrev pub place : (id store_id uri_prefix : String) → Namespace
place id store_id uri_prefix = record {
  id = id;
  tenant_id = "asg";
  store_id = store_id;
  name = id;
  owner = "asg";
  lifecycle = "active";
  uri_prefix = uri_prefix;
  visibility = "internal";
  updated_at = "2026-07-01T00:00:00Z";
}

abbrev pub pending_request : (id namespace_id : String) → PromotionRequest
pending_request id namespace_id = record {
  id = id;
  tenant_id = "asg";
  capability_uri = draft.uri;
  source_store_id = some "store_alice";
  target_namespace_id = some namespace_id;
  requested_by = some "alice";
  state = "pending";
  gates = some default_promotion_gates;
  decided_at = none;
}

abbrev pub everyone : Store
everyone = record {
  id = "store_all";
  tenant_id = "asg";
  kind = "all_users";
  owner_identity_id = none;
  owner_app_id = none;
  uri_prefix = "cap://all";
  disabled_at = none;
}

abbrev pub board : World
board = record world {
  capabilities = draft ∷ [];
  stores = everyone ∷ world.stores;
  namespaces =
      place "ns_1" "store_acme" "cap://org/acme/" ∷ place "ns_all" "store_all" "cap://all" ∷ [];
  promotion_requests = pending_request "prq_1" "ns_1" ∷ pending_request "prq_2" "ns_all" ∷ [];
}

-- a gate runner that finds no fault
abbrev pub all_passed : World → PromotionRequest → Option Gates × List PolicyDecision
all_passed w row = (
  some (
      ("sourceIntegrity", "passed")
      ∷ ("tests", "passed")
      ∷ ("retrievalEvals", "passed")
      ∷ ("signature", "passed")
      ∷ ("provenance", "passed")
      ∷ ("promptInjectionScan", "passed")
      ∷ ("riskTierPolicy", "passed")
      ∷ []),
  [],
)

abbrev pub same_text : String → String
same_text s = s

abbrev pub harmless : Capability → Bool
harmless c = false

abbrev pub decision : (id text : String) → Payload
decision id text = record {
  request_id = id;
  decision = some text;
  override_pending_gates = false;
  note = none;
}

-- the request that the approval of prq_1 returns
abbrev pub approved_request : PromotionRequest
approved_request = record (pending_request "prq_1" "ns_1") {
  capability_uri = "cap://org/acme/tool/global.tool@1";
  state = "approved";
  decided_at = some env.now;
  gates = some (
      ("sourceIntegrity", "passed")
      ∷ ("tests", "passed")
      ∷ ("retrievalEvals", "passed")
      ∷ ("signature", "passed")
      ∷ ("provenance", "passed")
      ∷ ("promptInjectionScan", "passed")
      ∷ ("riskTierPolicy", "passed")
      ∷ []);
}

abbrev pub rejected_request : PromotionRequest
rejected_request = record (pending_request "prq_1" "ns_1") {
  state = "rejected";
  decided_at = some env.now;
}

abbrev pub rejected_draft : Capability
rejected_draft = record draft { approval_state = "rejected" }

abbrev pub submission : Submission
submission = record {
  capability_uri = some draft.uri;
  uri = none;
  target_namespace_id = some "ns_1";
}
