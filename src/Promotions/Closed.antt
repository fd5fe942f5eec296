-- ===== src/Promotions/Closed.antt =====
-- The decisions of `approve_request` (capmesh/promotions.py) that close a request, with
-- `evaluate_access` of capmesh/access_control.py.
use client_capmesh.Promotions.Approved.{requested, approve_request-ok, asked-tables, asked}
use client_capmesh.Access.{blocked_states, Request, evaluate_access}
use client_capmesh.Promotions.Review.{at_uri, Payload}
use client_capmesh.Promotions.Gates.{Gates}
use client_capmesh.Promotions.Writes.{settle, audit_event}
use client_capmesh.Promotions.Approve.{
  close_request, decide_row, Decision, decision_of, approve_request,
}
use client_capmesh.Prelude.{
  refl, String, ◌≡◌, Option, update, Memᴰ, Memᴰ-update_cases, List, inl, refl, ap, Bool, inr, arith,
  false, true, eq_iff, or_default, some, find, ok, ◌∙◌, sym, Bool-cases,
}
use client_capmesh.Access.Denial.{allowed-live}
use client_capmesh.Model.{Env, Principal, World, PromotionRequest, Capability, PolicyDecision}

module _ (env : Env) (principal : Principal) (action state note : String) (row : PromotionRequest)
    (w : World) where
  close_request-capabilities :
      (close_request env principal action state note row w).1.capabilities
      ≡ update
          (at_uri row.capability_uri)
          (λ (c : Capability). record c { approval_state = state })
          w.capabilities
  unfolding close_request settle audit_event
  close_request-capabilities = refl

  -- A capability of the request has the state of the decision afterwards.
  close_request-state :
      {c : Capability}
      → Memᴰ c (close_request env principal action state note row w).1.capabilities
      → c.uri ≡ row.capability_uri
      → c.approval_state ≡ state
  close_request-state {c} m own =
      let m' = rw close_request-capabilities at m in
      let (y, _, h) = Memᴰ-update_cases (at_uri row.capability_uri) _ w.capabilities {x = c} m' in
      elim h [
        | inl (_, same) ↦ ap (λ (c : Capability). c.approval_state) same
        | inr (other, same) ↦ absurd (
            ground (
              arith,
              eq_iff c.uri row.capability_uri,
              other,
              ap (λ c. at_uri row.capability_uri c) same,
            ))
      ]

  close_request-blocked :
      Memᴰ state blocked_states
      → {c : Capability}
      → Memᴰ c (close_request env principal action state note row w).1.capabilities
      → c.uri ≡ row.capability_uri
      → Memᴰ c.approval_state blocked_states
  close_request-blocked k m own = rw (close_request-state m own) k

module _ (env : Env) (slugify : String → String)
    (gate_runner : World → PromotionRequest → Option Gates × List PolicyDecision)
    (blocks : Capability → Bool) (principal : Principal) where
  -- the texts of the decisions that close a request
  abbrev pub closing : Decision → Bool
  closing Decision.approve = false
  closing Decision.reject = true
  closing Decision.recall = true
  closing Decision.demote = true
  closing Decision.yank = true

  decide_row-state :
      (d : Decision)
      → closing d ≡ true
      → (payload : Payload) → (row : PromotionRequest) → (w : World) → {c : Capability}
      → Memᴰ c (decide_row env slugify gate_runner blocks principal d payload row w).1.capabilities
      → c.uri ≡ row.capability_uri
      → Memᴰ c.approval_state blocked_states
  unfolding decide_row
  decide_row-state Decision.approve k payload row w m own = absurd (ground (arith, k))
  decide_row-state Decision.reject k payload row w m own =
      close_request-blocked env principal "reject" "rejected" (or_default payload.note "") row w
        (Memᴰ.head refl) m own
  decide_row-state Decision.recall k payload row w m own =
      close_request-blocked env principal "recall" "recalled" (or_default payload.note "") row w
        (Memᴰ.tail (Memᴰ.head refl)) m own
  decide_row-state Decision.demote k payload row w m own =
      close_request-blocked env principal "demote" "demoted" (or_default payload.note "") row w
        (Memᴰ.tail (Memᴰ.tail (Memᴰ.head refl))) m own
  decide_row-state Decision.yank k payload row w m own =
      close_request-blocked env principal "yank" "yanked" (or_default payload.note "") row w
        (Memᴰ.tail (Memᴰ.tail (Memᴰ.tail (Memᴰ.head refl)))) m own

  -- After a decision to reject, recall, demote or yank that is done, nobody has any right on the
  -- capability of the request: `evaluate_access` denies every request about a row of the capability
  -- table with that uri, at any time and in any state of the other tables.
  pub approve_request-denies :
      (payload : Payload)
      → (w : World) → {d : Decision} → {row out : PromotionRequest}
      → decision_of (or_default payload.decision "approve") ≡ some d
      → closing d ≡ true
      → find (requested env slugify gate_runner blocks principal payload) w.promotion_requests
        ≡ some row
      → (approve_request env slugify gate_runner blocks principal payload w).0 ≡ ok out
      → {c : Capability}
      → Memᴰ c (approve_request env slugify gate_runner blocks principal payload w).1.capabilities
      → c.uri ≡ row.capability_uri
      → (later : Env) → (w' : World) → (q : Request) → q.capability ≡ some c
      → (audit : Bool) → (evaluate_access later w' q audit).0.allowed ≡ false
  approve_request-denies payload w {d} {row} chosen closes found done {c} m own later w' q about
        audit =
      let (d', row', chosen', _, _, _, _, found', same) =
        approve_request-ok env slugify gate_runner blocks principal payload w done in
      let (_, rows, _, _, _, _) = asked-tables env slugify gate_runner blocks principal payload w in
      let same_d : d' ≡ d = ground (arith, chosen, chosen') in
      let same_row : row' ≡ row = ground (
        arith,
        found,
        found',
        ap (find (requested env slugify gate_runner blocks principal payload)) rows,
      ) in
      let blocked =
        decide_row-state d' (rw same_d closes) payload row'
          (asked env slugify gate_runner blocks principal payload w).1 {c = c} (rw same at m)
          (own ∙ ap (λ (r : PromotionRequest). r.capability_uri) (sym same_row)) in
      elim (Bool-cases (evaluate_access later w' q audit).0.allowed) [
        | inr e ↦ e
        | inl e ↦ absurd ((allowed-live later w' q audit c about e).0 blocked)
      ]
