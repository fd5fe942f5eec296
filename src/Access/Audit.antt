-- ===== src/Access/Audit.antt =====
-- What `evaluate_access` (capmesh/access_control.py) writes.
use client_capmesh.Prelude.{Bool, ◌≡◌, true, false, ◌++◌, [], ◌∷◌, elem, if◌then◌else◌, arith, ◌&&◌}
use mathlib.Core.List.{append-nil}
use client_capmesh.Model.{Env, World, PolicyDecision}
use client_capmesh.Access.Rights.{rights}
use client_capmesh.Access.Evaluate.{
  Request, Verdict, request_tenant, request_uri, evaluate_access, record_policy_decision,
}

-- the row that describes a verdict
abbrev pub decision_row : Env → Request → Verdict → PolicyDecision
decision_row env q v = record {
  tenant_id = request_tenant env q;
  principal = q.principal.subject;
  action = q.right;
  resource_uri = request_uri q;
  allowed = v.allowed;
  reason = v.reason;
}

module _ (env : Env) (w : World) (q : Request) where
  -- With audit, a request for one of the ten rights appends exactly one policy decision, and that
  -- row carries the verdict returned; a request for another right, or one without audit, appends
  -- none. No other table changes: the new world is the old one up to that row and the cache.
  pub evaluate_access-decisions :
      (audit : Bool)
      → (evaluate_access env w q audit).1 ≡ record w {
        policy_decisions =
            w.policy_decisions
            ++ (if audit && elem q.right rights
                then decision_row env q (evaluate_access env w q audit).0 ∷ []
                else []);
        org_cache = (evaluate_access env w q audit).1.org_cache;
      }
  unfolding evaluate_access record_policy_decision
  evaluate_access-decisions audit = ground (arith, append-nil w.policy_decisions)

  -- Auditing a request does not change its verdict, nor the cache that it leaves.
  pub audit-irrelevant :
      ((evaluate_access env w q true).0 ≡ (evaluate_access env w q false).0)
      × ((evaluate_access env w q true).1.org_cache ≡ (evaluate_access env w q false).1.org_cache)
  unfolding evaluate_access record_policy_decision
  audit-irrelevant = ground arith
