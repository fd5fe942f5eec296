-- ===== src/Namespaces/Tests.antt =====
-- A namespace of the sample tenant that goes to another owner.
use client_capmesh.Prelude.{◌≡◌, refl, some, [], ◌∷◌, err, value_error, find, String}
use client_capmesh.Model.{Capability, Namespace, World}
use client_capmesh.Access.Samples.{tool, world}
use client_capmesh.Namespaces.Transfer.{
  give_namespace, give_capability, transfer_event, transfer_namespace,
}

abbrev now : String
now = "2026-08-01T00:00:00Z"

abbrev space : Namespace
space = record {
  id = "ns_1";
  tenant_id = "asg";
  store_id = "store_acme";
  name = "acme";
  owner = "alice";
  lifecycle = "active";
  uri_prefix = "cap://org/asg/acme/shared";
  visibility = "internal";
  updated_at = "2026-07-01T00:00:00Z";
}

abbrev kept : Capability
kept = record tool { namespace_id = some "ns_1" }

abbrev before : World
before = record world { namespaces = space ∷ []; capabilities = kept ∷ tool ∷ [] }

abbrev after : World
after = record before {
  namespaces = give_namespace now "bob" space ∷ [];
  capabilities = give_capability now "bob" kept ∷ tool ∷ [];
  audit_events = transfer_event "ns_1" "bob" "root" "asg" "left" space ∷ [];
}

same_owner : transfer_namespace now "ns_1" "alice" "root" "asg" "" before ≡ err value_error
unfolding transfer_namespace find
same_owner = refl
