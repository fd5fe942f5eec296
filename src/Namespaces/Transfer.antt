-- ===== src/Namespaces/Transfer.antt =====
-- capmesh/namespace_owners.py: `transfer_namespace`. An operation that raises has written nothing. `now` is SQLite's
-- CURRENT_TIMESTAMP.
use client_capmesh.Prelude.{
  String, Bool, ◌&&◌, none, some, [], ◌∷◌, ◌++◌, ◌==◌, is_some_eq, find, update, Result, ok, err,
  value_error, if◌then◌else◌,
}
use client_capmesh.Model.{Capability, Namespace, AuditEvent, World}

-- WHERE id = ? AND tenant_id = ?
abbrev pub is_namespace : (namespace_id tenant_id : String) → Namespace → Bool
is_namespace namespace_id tenant_id n = n.id == namespace_id && n.tenant_id == tenant_id

-- WHERE namespace_id = ? AND tenant_id = ?
abbrev pub is_within : (namespace_id tenant_id : String) → Capability → Bool
is_within namespace_id tenant_id c =
    is_some_eq c.namespace_id namespace_id && c.tenant_id == tenant_id

abbrev pub give_namespace : (now new_owner : String) → Namespace → Namespace
give_namespace now new_owner n = record n { owner = new_owner; updated_at = now }

abbrev pub give_capability : (now new_owner : String) → Capability → Capability
give_capability now new_owner c = record c { owner = new_owner; updated_at = now }

abbrev pub transfer_event :
    (namespace_id new_owner actor tenant_id reason : String) → Namespace → AuditEvent
transfer_event namespace_id new_owner actor tenant_id reason row = record {
  tenant_id = tenant_id;
  event_type = "namespace.transfer";
  actor = actor;
  target = namespace_id;
  action = "transfer";
  decision = "allow";
  payload =
      ("namespaceName", row.name)
      ∷ ("fromOwner", row.owner)
      ∷ ("toOwner", new_owner)
      ∷ ("reason", reason)
      ∷ [];
}

unfoldable pub transfer_namespace :
    (now namespace_id new_owner actor tenant_id reason : String) → World → Result World
transfer_namespace now namespace_id new_owner actor tenant_id reason w =
    elim (find (is_namespace namespace_id tenant_id) w.namespaces) [
      | none ↦ err value_error
      | some row ↦
          if row.owner == new_owner
          then err value_error
          else ok (record w {
            namespaces =
                update (λ (n : Namespace). n.id == namespace_id) (give_namespace now new_owner)
                  w.namespaces;
            capabilities =
                update (is_within namespace_id tenant_id) (give_capability now new_owner)
                  w.capabilities;
            audit_events =
                w.audit_events
                ++ (transfer_event namespace_id new_owner actor tenant_id reason row ∷ []);
          })
    ]
