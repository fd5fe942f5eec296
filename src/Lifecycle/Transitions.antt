-- ===== src/Lifecycle/Transitions.antt =====
-- capmesh/lifecycle_transitions.py: the lifecycles, the transitions between them, and the operations
-- that make them. `commit` is that of the connection and is left out; an operation that raises has
-- written nothing. `now` is SQLite's CURRENT_TIMESTAMP.
use client_capmesh.Prelude.{
  String, Bool, true, not, ◌&&◌, none, some, List, [], ◌∷◌, ◌++◌, ◌==◌, elem, find, update, Result,
  ok, err, value_error, if◌then◌else◌,
}
use client_capmesh.Model.{Capability, Namespace, AuditEvent, World}

abbrev pub capability_lifecycle_states : List String
capability_lifecycle_states =
    "draft" ∷ "active" ∷ "deprecated" ∷ "retired" ∷ "published" ∷ "disabled" ∷ "deleted"
    ∷ "recalled" ∷ "yanked" ∷ []

abbrev pub namespace_lifecycle_states : List String
namespace_lifecycle_states = "draft" ∷ "active" ∷ "deprecated" ∷ "retired" ∷ []

-- a table of transitions: the states that each state may go to
abbrev pub Table : Type 0
Table = List (String × List String)

abbrev pub capability_transitions : Table
capability_transitions =
    ("draft", "active" ∷ "deprecated" ∷ "retired" ∷ "published" ∷ [])
    ∷ ("active", "deprecated" ∷ "retired" ∷ "draft" ∷ [])
    ∷ ("published", "deprecated" ∷ "retired" ∷ "active" ∷ [])
    ∷ ("deprecated", "active" ∷ "retired" ∷ [])
    ∷ ("retired", "active" ∷ "deprecated" ∷ [])
    ∷ ("disabled", "active" ∷ "deleted" ∷ [])
    ∷ ("deleted", [])
    ∷ ("recalled", "active" ∷ "draft" ∷ [])
    ∷ ("yanked", "active" ∷ [])
    ∷ []

abbrev pub namespace_transitions : Table
namespace_transitions =
    ("draft", "active" ∷ "deprecated" ∷ "retired" ∷ [])
    ∷ ("active", "deprecated" ∷ "retired" ∷ "draft" ∷ [])
    ∷ ("deprecated", "active" ∷ "retired" ∷ [])
    ∷ ("retired", "active" ∷ [])
    ∷ []

-- table.get(current, frozenset())
unfoldable pub targets : String → Table → List String
targets current [] = []
targets current (entry ∷ table) = if entry.0 == current then entry.1 else targets current table

unfoldable pub is_valid_transition : (current target : String) → Table → Bool
is_valid_transition current target table =
    if current == target then true else elem target (targets current table)

abbrev pub lifecycle_event :
    (tenant_id event_type actor target current target_lifecycle reason : String) → AuditEvent
lifecycle_event tenant_id event_type actor target current target_lifecycle reason = record {
  tenant_id = tenant_id;
  event_type = event_type;
  actor = actor;
  target = target;
  action = "transition";
  decision = "allow";
  payload = ("from", current) ∷ ("to", target_lifecycle) ∷ ("reason", reason) ∷ [];
}

abbrev pub set_lifecycle : (now target_lifecycle : String) → Capability → Capability
set_lifecycle now target_lifecycle c = record c { lifecycle = target_lifecycle; updated_at = now }

-- the writes of `transition_capability`
abbrev pub move_capability :
    (now uri target_lifecycle actor tenant_id reason current : String) → World → World
move_capability now uri target_lifecycle actor tenant_id reason current w = record w {
  capabilities =
      update (λ (c : Capability). c.uri == uri) (set_lifecycle now target_lifecycle) w.capabilities;
  audit_events =
      w.audit_events
      ++ (lifecycle_event tenant_id "capability.lifecycle.transition" actor uri current
            target_lifecycle reason
          ∷ []);
}

unfoldable pub transition_capability :
    (now uri target_lifecycle actor tenant_id reason : String) → World → Result World
transition_capability now uri target_lifecycle actor tenant_id reason w =
    if not (elem target_lifecycle capability_lifecycle_states)
    then err value_error
    else elim (find (λ (c : Capability). c.uri == uri && c.tenant_id == tenant_id) w.capabilities) [
      | none ↦ err value_error
      | some row ↦
          if not (is_valid_transition row.lifecycle target_lifecycle capability_transitions)
          then err value_error
          else ok (move_capability now uri target_lifecycle actor tenant_id reason row.lifecycle w)
    ]

abbrev pub set_namespace_lifecycle : (now target_lifecycle : String) → Namespace → Namespace
set_namespace_lifecycle now target_lifecycle n = record n {
  lifecycle = target_lifecycle;
  updated_at = now;
}

-- the writes of `transition_namespace`
abbrev pub move_namespace :
    (now namespace_id target_lifecycle actor tenant_id reason current : String) → World → World
move_namespace now namespace_id target_lifecycle actor tenant_id reason current w = record w {
  namespaces =
      update (λ (n : Namespace). n.id == namespace_id)
        (set_namespace_lifecycle now target_lifecycle) w.namespaces;
  audit_events =
      w.audit_events
      ++ (lifecycle_event tenant_id "namespace.lifecycle.transition" actor namespace_id current
            target_lifecycle reason
          ∷ []);
}

unfoldable pub transition_namespace :
    (now namespace_id target_lifecycle actor tenant_id reason : String) → World → Result World
transition_namespace now namespace_id target_lifecycle actor tenant_id reason w =
    if not (elem target_lifecycle namespace_lifecycle_states)
    then err value_error
    else elim (find (λ (n : Namespace). n.id == namespace_id && n.tenant_id == tenant_id)
        w.namespaces) [
          | none ↦ err value_error
          | some row ↦
              if not (is_valid_transition row.lifecycle target_lifecycle namespace_transitions)
              then err value_error
              else ok (
                  move_namespace now namespace_id target_lifecycle actor tenant_id reason
                    row.lifecycle w)
        ]
