-- ===== src/Access/Scopes.antt =====
-- The scope of a role assignment that `scope_matches` (capmesh/access_control.py) accepts.
use client_capmesh.Prelude.{
  ◌≡◌, true, List, ◌⊎◌, inl, inr, arith, some, eq_iff, ◌+++◌, ◌||◌, Bool-cases, ◌==◌,
  is_some_eq-some, Option-cases, is_some_eq,
}
use client_capmesh.Model.{Env, Capability, World, CacheEntry, RoleAssignment}
use client_capmesh.Access.Grants.{scope_of_capability, role_assignment_scope_matches, scope_matches}
use client_capmesh.Access.Evaluate.{Request, request_tenant}

-- What the scope of a role assignment takes in: an organization, the tenant of the request or every
-- tenant, what the request names by its uri, or the store, the namespace or the uri of its capability.
abbrev pub IsScopedTo : Env → Request → RoleAssignment → Type 0
IsScopedTo env q row =
    (row.scope_type ≡ "org")
    ⊎ ((row.scope_type ≡ "tenant") × ((row.scope_id ≡ request_tenant env q) ⊎ (row.scope_id ≡ "*"))
        ⊎ ((q.resource_uri ≡ some (row.scope_type +++ (":" +++ row.scope_id)))
            ⊎ ((q.resource_uri ≡ some row.scope_id)
                ⊎ ((c : Capability) × (q.capability ≡ some c)
                    × (((row.scope_type ≡ "store") × (c.store_id ≡ some row.scope_id))
                        ⊎ ((row.scope_type ≡ "namespace") × (c.namespace_id ≡ some row.scope_id)
                            ⊎ (row.scope_id ≡ c.uri)))))))

module _ (env : Env) (w : World) (q : Request) where
  -- by the branches on the type of the scope
  capability-IsScopedTo :
      (c : Capability) (row : RoleAssignment)
      → q.capability ≡ some c
      → scope_of_capability row c q.resource_uri ≡ true
      → IsScopedTo env q row
  unfolding scope_of_capability
  capability-IsScopedTo c row about g = elim (Bool-cases (row.scope_type == "store")) [
    | inl e ↦
        let held = is_some_eq-some c.store_id row.scope_id (ground arith) in
        inr (inr (inr (inr (c, about, inl ((eq_iff row.scope_type "store").0 e, held)))))
    | inr not_store ↦ elim (Bool-cases (row.scope_type == "namespace")) [
      | inl e ↦
          let held = is_some_eq-some c.namespace_id row.scope_id (ground arith) in
          inr
            (inr (inr (inr (c, about, inr (inl ((eq_iff row.scope_type "namespace").0 e, held))))))
      | inr not_namespace ↦ elim (Bool-cases (row.scope_id == c.uri)) [
        | inl e ↦ inr (inr (inr (inr (c, about, inr (inr ((eq_iff row.scope_id c.uri).0 e))))))
        | inr not_uri ↦
            inr (inr (inr (inl (is_some_eq-some q.resource_uri row.scope_id (ground arith)))))
      ]
    ]
  ]

  pub matched-IsScopedTo :
      (row : RoleAssignment) (cache : List CacheEntry)
      → (scope_matches w row (request_tenant env q) q.capability q.resource_uri cache).0 ≡ true
      → IsScopedTo env q row
  unfolding scope_matches role_assignment_scope_matches
  matched-IsScopedTo row cache g = elim (Bool-cases (row.scope_type == "org")) [
    | inl e ↦ inl ((eq_iff row.scope_type "org").0 e)
    | inr not_org ↦ elim (Bool-cases (row.scope_type == "tenant")) [
      | inl e ↦
          let named : (row.scope_id == request_tenant env q || row.scope_id == "*") ≡ true =
            ground arith in
          inr (
            inl (
              (eq_iff row.scope_type "tenant").0 e,
              ground (
                arith,
                named,
                eq_iff row.scope_id (request_tenant env q),
                eq_iff row.scope_id "*",
              ),
            ))
      | inr not_tenant ↦ elim (Option-cases q.capability) [
        | inr (c, e) ↦ capability-IsScopedTo c row e (ground (arith, e))
        | inl e ↦
            let full = row.scope_type +++ (":" +++ row.scope_id) in
            elim (Bool-cases (is_some_eq q.resource_uri full)) [
              | inl f ↦ inr (inr (inl (is_some_eq-some q.resource_uri full f)))
              | inr f ↦ inr (
                  inr (
                    inr (inl (is_some_eq-some q.resource_uri row.scope_id (ground (arith, e, f))))))
            ]
      ]
    ]
  ]
