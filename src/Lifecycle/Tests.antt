-- ===== src/Lifecycle/Tests.antt =====
-- The theorems about transitions at the sample tenant, and single transitions.
use client_capmesh.Prelude.{
  ◌≡◌, ◌≢◌, refl, sym, ◌∙◌, true, false, some, [], ◌∷◌, Memᴰ, arith, ok, err, value_error, find,
  update, elem, ◌==◌, eq_iff, String, ◌⊎◌, none,
}
use client_capmesh.Model.{Capability, Namespace, World}
use client_capmesh.Access.{evaluate_access}
use client_capmesh.Access.Samples.{env, alice, tool, world, ask}
use client_capmesh.Lifecycle.Transitions.{
  transition_capability, transition_namespace, is_valid_transition, targets, move_capability,
  move_namespace, capability_lifecycle_states, capability_transitions,
}
use client_capmesh.Lifecycle.Outcome.{
  IsTransition, IsNamespaceTransition, transition_capability-cases, stored,
  transition_namespace-IsNamespaceTransition,
}
use client_capmesh.Lifecycle.Deleted.{Request, after_calls, deleted_stays, revivable}
use client_capmesh.Lifecycle.Closed.{closed_lifecycle-denies}

abbrev now : String
now = "2026-08-01T00:00:00Z"

-- the sample capability after its retirement
abbrev retired : World
retired = move_capability now tool.uri "retired" "root" "asg" "old" "published" world

retires : transition_capability now tool.uri "retired" "root" "asg" "old" world ≡ ok retired
unfolding transition_capability is_valid_transition targets find elem
retires = refl

no_such_lifecycle :
    transition_capability now tool.uri "gone" "root" "asg" "" world ≡ err value_error
unfolding transition_capability elem
no_such_lifecycle = refl

not_to_deleted :
    transition_capability now tool.uri "deleted" "root" "asg" "" world ≡ err value_error
unfolding transition_capability is_valid_transition targets find elem
not_to_deleted = refl

transition_capability-cases_example :
    ((after : World) × (transition_capability now tool.uri "retired" "root" "asg" "old" world
        ≡ ok after)
      × IsTransition now tool.uri "retired" "root" "asg" "old" world after)
    ⊎ ((transition_capability now tool.uri "retired" "root" "asg" "old" world ≡ err value_error)
        × ((elem "retired" capability_lifecycle_states ≡ false)
            ⊎ ((stored tool.uri "asg" world ≡ none)
                ⊎ ((row : Capability) × (stored tool.uri "asg" world ≡ some row)
                    × (is_valid_transition row.lifecycle "retired" capability_transitions
                        ≡ false)))))
transition_capability-cases_example =
    transition_capability-cases now tool.uri "retired" "root" "asg" "old" world

abbrev space : Namespace
space = record {
  id = "ns_1";
  tenant_id = "asg";
  store_id = "store_acme";
  name = "acme";
  owner = "alice";
  lifecycle = "active";
  uri_prefix = "cap://org/asg/acme/shared";
  visibility = "internal";
  updated_at = "2026-07-01T00:00:00Z";
}

abbrev with_space : World
with_space = record world { namespaces = space ∷ [] }

abbrev space_retired : World
space_retired = move_namespace now "ns_1" "retired" "root" "asg" "old" "active" with_space

space_retires :
    transition_namespace now "ns_1" "retired" "root" "asg" "old" with_space ≡ ok space_retired
unfolding transition_namespace is_valid_transition targets find elem
space_retires = refl

transition_namespace-IsNamespaceTransition_example :
    IsNamespaceTransition now "ns_1" "retired" "root" "asg" "old" with_space space_retired
transition_namespace-IsNamespaceTransition_example =
    transition_namespace-IsNamespaceTransition now "ns_1" "retired" "root" "asg" "old" with_space
      space_retired space_retires

abbrev gone : Capability
gone = record tool { lifecycle = "deleted" }

abbrev with_gone : World
with_gone = record world { capabilities = gone ∷ [] }

gone_only : (c : Capability) → Memᴰ c with_gone.capabilities → c ≡ gone
gone_only c m = elim m [ Memᴰ.head e ↦ e | Memᴰ.tail m' ↦ elim m' [ ] ]

abbrev revive : Request
revive = record {
  now = now;
  uri = tool.uri;
  target = "active";
  actor = "root";
  tenant_id = "asg";
  reason = "";
}

deleted_stays_example :
    (time : String) × Memᴰ
      (record gone { updated_at = time })
      (after_calls (revive ∷ revive ∷ []) with_gone).capabilities
deleted_stays_example =
    deleted_stays (revive ∷ revive ∷ []) with_gone gone
      (λ c d mc md e. gone_only c mc ∙ sym (gone_only d md)) (Memᴰ.head refl) refl

revivable_example :
    (after : World) × (transition_capability now tool.uri "active" "root" "asg" "" world ≡ ok after)
unfolding find
revivable_example =
    revivable now tool.uri "root" "asg" "" world tool refl
      (Memᴰ.tail (Memᴰ.tail (Memᴰ.tail (Memᴰ.tail (Memᴰ.head refl))))) not_deleted
  where
    not_deleted : tool.lifecycle ≢ "deleted"
    not_deleted e =
        let same : (tool.lifecycle == "deleted") ≡ true = (eq_iff tool.lifecycle "deleted").1 e in
        ground (arith, same)

closed_lifecycle-denies_example :
    (evaluate_access env retired
      (record (ask alice "load") {
        capability = some (record tool { lifecycle = "retired"; updated_at = now });
      })
      true).0.allowed
    ≡ false
unfolding find update
closed_lifecycle-denies_example =
    closed_lifecycle-denies env now tool.uri "retired" "root" "asg" "old" world retired
      (record (ask alice "load") {
        capability = some (record tool { lifecycle = "retired"; updated_at = now });
      })
      true retires (Memᴰ.tail (Memᴰ.tail (Memᴰ.head refl))) refl
