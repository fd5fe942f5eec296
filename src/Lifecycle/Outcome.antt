-- ===== src/Lifecycle/Outcome.antt =====
-- What one call of `transition_capability` or `transition_namespace`
-- (capmesh/lifecycle_transitions.py) does.
use client_capmesh.Prelude.{
  String, ◌≡◌, refl, true, ◌&&◌, Option, some, Memᴰ, arith, ◌==◌, elem, find, ok, inl, inr,
  Bool-cases, Option-cases, find-update, elem-Memᴰ, and-true_iff, update, ◌⊎◌, ◌++◌, err, ◌∷◌,
  value_error, [], false, none,
}
use client_capmesh.Model.{Capability, Namespace, World}
use client_capmesh.Lifecycle.Transitions.{
  capability_lifecycle_states, capability_transitions, is_valid_transition, set_lifecycle,
  transition_capability, transition_namespace, namespace_lifecycle_states, namespace_transitions,
  move_capability, set_namespace_lifecycle, move_namespace,
}

-- the row of a uri in a tenant
abbrev pub stored : (uri tenant_id : String) → World → Option Capability
stored uri tenant_id w =
    find (λ (c : Capability). c.uri == uri && c.tenant_id == tenant_id) w.capabilities

-- the row of a namespace in a tenant
abbrev pub stored_namespace : (namespace_id tenant_id : String) → World → Option Namespace
stored_namespace namespace_id tenant_id w =
    find (λ (n : Namespace). n.id == namespace_id && n.tenant_id == tenant_id) w.namespaces

module _ (now uri target actor tenant_id reason : String) (w : World) where
  -- The transition of a stored capability along the table, to a known lifecycle, and its writes.
  pub record IsTransition (after : World) : Type 0 where
    pub row : Capability
    pub found : stored uri tenant_id w ≡ some row
    pub known : elem target capability_lifecycle_states ≡ true
    pub valid : is_valid_transition row.lifecycle target capability_transitions ≡ true
    pub moved :
        stored uri tenant_id after ≡ some (record row { lifecycle = target; updated_at = now })
    pub only : after ≡ record w {
      capabilities =
          update
            (λ (c : Capability). c.uri == uri)
            (λ (c : Capability). record c { lifecycle = target; updated_at = now })
            w.capabilities;
      audit_events =
          w.audit_events
          ++ record {
            tenant_id = tenant_id;
            event_type = "capability.lifecycle.transition";
            actor = actor;
            target = uri;
            action = "transition";
            decision = "allow";
            payload = ("from", row.lifecycle) ∷ ("to", target) ∷ ("reason", reason) ∷ [];
          }
            ∷ [];
    }

  accepted :
      (after : World)
      → transition_capability now uri target actor tenant_id reason w ≡ ok after
      → (row : Capability) × (stored uri tenant_id w ≡ some row)
        × (elem target capability_lifecycle_states ≡ true)
        × (is_valid_transition row.lifecycle target capability_transitions ≡ true)
        × (after ≡ move_capability now uri target actor tenant_id reason row.lifecycle w)
  unfolding transition_capability
  accepted after h = elim (Option-cases (stored uri tenant_id w)) [
    | inl e ↦ absurd (ground (arith, h, e))
    | inr (row, e) ↦ (
      row,
      e,
      ground (arith, h, e),
      ground (arith, h, e),
      elim (Bool-cases (is_valid_transition row.lifecycle target capability_transitions)) [
        | inl v ↦ ground (arith, h, e, v)
        | inr v ↦ absurd (ground (arith, h, e, v))
      ],
    )
  ]

  pub transition_capability-moved :
      (after : World)
      → transition_capability now uri target actor tenant_id reason w ≡ ok after
      → IsTransition after
  transition_capability-moved after h =
      let (row, found, known, valid, only) = accepted after h in
      record {
        row = row;
        found = found;
        known = known;
        valid = valid;
        moved = rw only (
            find-update _ (λ (c : Capability). c.uri == uri) (set_lifecycle now target)
              w.capabilities (λ c. refl) (λ c e. ((and-true_iff _ _).0 e).0) found);
        only = only;
      }

  -- A call of `transition_capability` either returns or raises. If it returns, the capability of the
  -- tenant was stored, and could go to the target, a known lifecycle; its row then reads with that
  -- lifecycle and the time of the call in `updated_at`, its other columns as before, and all that
  -- was written is this on the rows of the uri, and one audit event that names the actor, both
  -- lifecycles and the reason. It raises only where the lifecycle is not known, no capability is
  -- stored, or the table has no such transition for it.
  pub transition_capability-cases :
      ((after : World) × (transition_capability now uri target actor tenant_id reason w ≡ ok after)
        × IsTransition after)
      ⊎ ((transition_capability now uri target actor tenant_id reason w ≡ err value_error)
          × ((elem target capability_lifecycle_states ≡ false)
              ⊎ ((stored uri tenant_id w ≡ none)
                  ⊎ ((row : Capability) × (stored uri tenant_id w ≡ some row)
                      × (is_valid_transition row.lifecycle target capability_transitions
                          ≡ false)))))
  unfolding transition_capability
  transition_capability-cases = elim (Bool-cases (elem target capability_lifecycle_states)) [
    | inr u ↦ inr (ground (arith, u), inl u)
    | inl k ↦ elim (Option-cases (stored uri tenant_id w)) [
      | inl e ↦ inr (ground (arith, k, e), inr (inl e))
      | inr (row, e) ↦
          elim (Bool-cases (is_valid_transition row.lifecycle target capability_transitions)) [
            | inr v ↦ inr (ground (arith, k, e, v), inr (inr (row, e, v)))
            | inl v ↦
                let after = move_capability now uri target actor tenant_id reason row.lifecycle w in
                let done : transition_capability now uri target actor tenant_id reason w
                    ≡ ok after =
                  ground (arith, k, e, v) in
                inl (after, done, transition_capability-moved after done)
          ]
    ]
  ]

  -- `transition_capability` returns on every stored capability whose lifecycle may go to a known
  -- target.
  pub transition_capability-total :
      (row : Capability)
      → stored uri tenant_id w ≡ some row
      → Memᴰ target capability_lifecycle_states
      → is_valid_transition row.lifecycle target capability_transitions ≡ true
      → (after : World) × (transition_capability now uri target actor tenant_id reason w ≡ ok after)
  unfolding transition_capability
  transition_capability-total row found known valid = (
    move_capability now uri target actor tenant_id reason row.lifecycle w,
    rw (elem-Memᴰ _ known, found, valid),
  )

module _ (now namespace_id target actor tenant_id reason : String) (w : World) where
  -- The transition of a stored namespace along its table, to a known lifecycle, and its writes.
  pub record IsNamespaceTransition (after : World) : Type 0 where
    pub row : Namespace
    pub found : stored_namespace namespace_id tenant_id w ≡ some row
    pub known : elem target namespace_lifecycle_states ≡ true
    pub valid : is_valid_transition row.lifecycle target namespace_transitions ≡ true
    pub moved :
        stored_namespace namespace_id tenant_id after
        ≡ some (set_namespace_lifecycle now target row)
    pub only : after ≡ move_namespace now namespace_id target actor tenant_id reason row.lifecycle w

  accepted_namespace :
      (after : World)
      → transition_namespace now namespace_id target actor tenant_id reason w ≡ ok after
      → (row : Namespace) × (stored_namespace namespace_id tenant_id w ≡ some row)
        × (elem target namespace_lifecycle_states ≡ true)
        × (is_valid_transition row.lifecycle target namespace_transitions ≡ true)
        × (after ≡ move_namespace now namespace_id target actor tenant_id reason row.lifecycle w)
  unfolding transition_namespace
  accepted_namespace after h = elim (Option-cases (stored_namespace namespace_id tenant_id w)) [
    | inl e ↦ absurd (ground (arith, h, e))
    | inr (row, e) ↦ (
      row,
      e,
      ground (arith, h, e),
      ground (arith, h, e),
      elim (Bool-cases (is_valid_transition row.lifecycle target namespace_transitions)) [
        | inl v ↦ ground (arith, h, e, v)
        | inr v ↦ absurd (ground (arith, h, e, v))
      ],
    )
  ]

  -- A call of `transition_namespace` that returns has moved the namespace of the tenant along a valid
  -- transition of the namespaces' table to one of their four lifecycles: it then reads so with its
  -- other columns as before, and the whole of what was written is that lifecycle, on the rows of
  -- the id, and one audit event that names the actor, both lifecycles and the reason.
  pub transition_namespace-IsNamespaceTransition :
      (after : World)
      → transition_namespace now namespace_id target actor tenant_id reason w ≡ ok after
      → IsNamespaceTransition after
  transition_namespace-IsNamespaceTransition after h =
      let (row, found, known, valid, only) = accepted_namespace after h in
      record {
        row = row;
        found = found;
        known = known;
        valid = valid;
        moved = rw only (
            find-update _ (λ (n : Namespace). n.id == namespace_id)
              (set_namespace_lifecycle now target) w.namespaces (λ n. refl)
              (λ n e. ((and-true_iff _ _).0 e).0) found);
        only = only;
      }
