-- ===== src/Lifecycle/Closed.antt =====
-- `transition_capability` (capmesh/lifecycle_transitions.py) and `evaluate_access`
-- (capmesh/access_control.py).
use client_capmesh.Prelude.{◌∙◌, String, Bool, ◌≡◌, false, Memᴰ, inl, inr, Bool-cases, ok}
use client_capmesh.Model.{Env, World}
use client_capmesh.Access.{Request, evaluate_access, blocked_lifecycles}
use client_capmesh.Access.Denial.{allowed-live}
use client_capmesh.Lifecycle.Transitions.{transition_capability, set_lifecycle}
use client_capmesh.Lifecycle.Outcome.{stored, transition_capability-moved}

-- A capability that `transition_capability` has moved to `disabled`, `deleted`, `retired`,
-- `recalled` or `yanked` is closed at once: `evaluate_access` on the row as it is then stored denies
-- every request, whoever asks and for whatever right.
pub closed_lifecycle-denies :
    (env : Env) (now uri target actor tenant_id reason : String) (w after : World) (q : Request)
    (audit : Bool)
    → transition_capability now uri target actor tenant_id reason w ≡ ok after
    → Memᴰ target blocked_lifecycles
    → q.capability ≡ stored uri tenant_id after
    → (evaluate_access env after q audit).0.allowed ≡ false
closed_lifecycle-denies env now uri target actor tenant_id reason w after q audit h blocked about =
    let t = transition_capability-moved now uri target actor tenant_id reason w after h in
    elim (Bool-cases (evaluate_access env after q audit).0.allowed) [
      | inr e ↦ e
      | inl e ↦ absurd (
          (allowed-live env after q audit (set_lifecycle now target t.row) (about ∙ t.moved) e).1
            blocked)
    ]
