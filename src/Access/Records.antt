-- ===== src/Access/Records.antt =====
-- The rows that stand behind the grants of `evaluate_access` (capmesh/access_control.py).
use client_capmesh.Prelude.{
  String, ◌≡◌, true, false, Memᴰ, List, [], ◌∷◌, ◌⊎◌, inl, inr, refl, arith, elem, some, none,
  Option, eq_iff, ◌∙◌, Memᴰ-of-elem, ◌+++◌, ◌&&◌, ◌||◌, ap, sym, any, Memᴰ-of-any, Memᴰ-of-select,
  Bool-cases, ◌==◌,
}
use client_capmesh.Model.{
  Env, Capability, World, CacheEntry, Reason, by_principal_role, by_role_assignment, by_share,
  by_relationship, by_namespace_member, RoleAssignment, Share, Relationship, NamespaceMember,
}
use client_capmesh.Access.Rights.{role_has_right, global_role_has_right}
use client_capmesh.Access.Refs.{subject_refs, resource_refs}
use client_capmesh.Access.Grants.{
  active_role_grant, role_loop, is_current, is_over, is_null, names_subject, share_grant,
  share_has_right, tuple_match, namespace_member_grant, member_has_right, scope_matches,
  is_live_share,
}
use client_capmesh.Access.Scopes.{IsScopedTo, matched-IsScopedTo}
use client_capmesh.Access.Evaluate.{Request, request_tenant, request_uri, grant_relations}

-- A grant that rests on a role of the principal or on a row of the database, by its reason.
pub data IsRecorded (env : Env) (w : World) (q : Request) : Reason → Type 0 where
  principal_role :
      (role : String)
      → Memᴰ role q.principal.roles
      → global_role_has_right role q.right ≡ true
      → IsRecorded env w q by_principal_role
  role_assignment :
      (row : RoleAssignment)
      → Memᴰ row w.role_assignments
      → row.tenant_id ≡ request_tenant env q
      → is_null row.revoked_at ≡ true
      → is_over env.now row.expires_at ≡ false
      → names_subject row.subject_type row.subject_id (subject_refs env q.principal) ≡ true
      → role_has_right row.role q.right ≡ true
      → IsScopedTo env q row
      → IsRecorded env w q by_role_assignment
  share :
      (row : Share)
      → Memᴰ row w.shares
      → row.tenant_id ≡ request_tenant env q
      → row.capability_uri ≡ request_uri q
      → row.state ≡ "active"
      → is_null row.revoked_at ≡ true
      → is_over env.now row.expires_at ≡ false
      → Memᴰ (row.subject_type +++ (":" +++ row.subject_id)) (subject_refs env q.principal)
      → Memᴰ q.right row.rights ⊎ Memᴰ "manage" row.rights
      → IsRecorded env w q by_share
  relationship :
      (row : Relationship)
      → Memᴰ row w.relationship_tuples
      → row.tenant_id ≡ request_tenant env q
      → Memᴰ row.object (resource_refs env q.capability q.resource_uri)
      → Memᴰ row.relation (q.right ∷ ("grant_" +++ q.right) ∷ "owner" ∷ [])
      → Memᴰ row.user (subject_refs env q.principal)
      → IsRecorded env w q by_relationship
  namespace_member :
      (c : Capability) (row : NamespaceMember)
      → q.capability ≡ some c
      → Memᴰ row w.namespace_members
      → c.namespace_id ≡ some row.namespace_id
      → is_null row.revoked_at ≡ true
      → Memᴰ (row.subject_type +++ (":" +++ row.subject_id)) (subject_refs env q.principal)
      → Memᴰ q.right row.rights
        ⊎ (Memᴰ "manage" row.rights ⊎ (role_has_right row.role q.right ≡ true))
      → IsRecorded env w q by_namespace_member

-- a right that a row lists, by name or with all others
listed_right :
    (right : String) (listed : List String)
    → (elem right listed || elem "manage" listed) ≡ true
    → Memᴰ right listed ⊎ Memᴰ "manage" listed
listed_right right listed h = elim (Bool-cases (elem right listed)) [
  | inl e ↦ inl (Memᴰ-of-elem right listed e)
  | inr e ↦ inr (Memᴰ-of-elem "manage" listed (ground arith))
]

module _ (env : Env) (w : World) (q : Request) where
  pub principal_role-IsRecorded :
      any (λ role. global_role_has_right role q.right) q.principal.roles ≡ true
      → IsRecorded env w q by_principal_role
  principal_role-IsRecorded h =
      let (role, m, e) =
        Memᴰ-of-any (λ role. global_role_has_right role q.right) q.principal.roles h in
      IsRecorded.principal_role role m e

  -- a loop that grants has met a row that is current and has the right
  role_loop-row :
      (rows : List RoleAssignment) (cache : List CacheEntry)
      → (role_loop env w
          (request_tenant env q)
          (subject_refs env q.principal)
          q.right
          q.capability
          q.resource_uri
          rows
          cache).0
        ≡ true
      → (row : RoleAssignment) × Memᴰ row rows
        × (is_current env.now (subject_refs env q.principal) row ≡ true)
        × (role_has_right row.role q.right ≡ true)
        × IsScopedTo env q row
  unfolding role_loop
  role_loop-row [] cache h = absurd (ground arith)
  role_loop-row (row ∷ rows) cache h =
      let subjects = subject_refs env q.principal in
      let matched = scope_matches w row (request_tenant env q) q.capability q.resource_uri cache in
      let later : (cache' : List CacheEntry)
          → (role_loop env w (request_tenant env q) subjects q.right q.capability q.resource_uri
              rows cache').0
            ≡ true
          → (x : RoleAssignment) × Memᴰ x (row ∷ rows)
            × (is_current env.now subjects x ≡ true)
            × (role_has_right x.role q.right ≡ true)
            × IsScopedTo env q x =
        λ cache' g.
          let (x, m, e, f, aimed) = role_loop-row rows cache' g in (x, Memᴰ.tail m, e, f, aimed) in
      elim (Bool-cases (is_current env.now subjects row)) [
        | inr e ↦ later cache (ground arith)
        | inl e ↦ elim (Bool-cases (matched.0 && role_has_right row.role q.right)) [
          | inl f ↦ (
            row,
            Memᴰ.head refl,
            e,
            ground arith,
            matched-IsScopedTo env w q row cache (ground arith),
          )
          | inr f ↦ later matched.1 (ground arith)
        ]
      ]

  pub role_assignment-IsRecorded :
      (cache : List CacheEntry)
      → (active_role_grant env w
          (request_tenant env q)
          (subject_refs env q.principal)
          q.right
          q.capability
          q.resource_uri
          cache).0
        ≡ true
      → IsRecorded env w q by_role_assignment
  unfolding active_role_grant is_current
  role_assignment-IsRecorded cache h =
      let (row, selected, current, right, aimed) = role_loop-row _ cache h in
      let (stored, live) = Memᴰ-of-select _ w.role_assignments selected in
      IsRecorded.role_assignment row stored
        (ground (arith, live, eq_iff row.tenant_id (request_tenant env q))) (ground arith)
        (ground arith) (ground arith) right aimed

  pub share-IsRecorded :
      share_grant env w
          (request_tenant env q)
          (subject_refs env q.principal)
          (request_uri q)
          q.right
        ≡ true
      → IsRecorded env w q by_share
  unfolding share_grant share_has_right
  share-IsRecorded h =
      let (row, m, e) =
        Memᴰ-of-any
          (λ (row : Share).
            is_live_share (request_tenant env q) (request_uri q) row
            && share_has_right env.now (subject_refs env q.principal) q.right row)
          w.shares (ground arith) in
      IsRecorded.share row m (ground (arith, eq_iff row.tenant_id (request_tenant env q)))
        (ground (arith, eq_iff row.capability_uri (request_uri q)))
        (ground (arith, eq_iff row.state "active")) (ground arith) (ground arith)
        (Memᴰ-of-elem _ (subject_refs env q.principal) (ground arith))
        (listed_right q.right row.rights (ground arith))

  pub relationship-IsRecorded :
      tuple_match w
          (request_tenant env q)
          (resource_refs env q.capability q.resource_uri)
          (grant_relations q.right)
          (subject_refs env q.principal)
        ≡ true
      → IsRecorded env w q by_relationship
  unfolding tuple_match
  relationship-IsRecorded h =
      let (row, m, e) = Memᴰ-of-any _ w.relationship_tuples h in
      IsRecorded.relationship row m (ground (arith, eq_iff row.tenant_id (request_tenant env q)))
        (Memᴰ-of-elem row.object (resource_refs env q.capability q.resource_uri) (ground arith))
        (Memᴰ-of-elem row.relation (grant_relations q.right) (ground arith))
        (Memᴰ-of-elem row.user (subject_refs env q.principal) (ground arith))

  pub namespace_member-IsRecorded :
      (c : Capability) (ns : Option String)
      → q.capability ≡ some c
      → c.namespace_id ≡ ns
      → namespace_member_grant w ns (subject_refs env q.principal) q.right ≡ true
      → IsRecorded env w q by_namespace_member
  unfolding namespace_member_grant member_has_right
  namespace_member-IsRecorded c none about same h = absurd (ground arith)
  namespace_member-IsRecorded c (some ns) about same h =
      let (row, m, e) =
        Memᴰ-of-any
          (λ (row : NamespaceMember).
            row.namespace_id == ns
            && is_null row.revoked_at
            && member_has_right (subject_refs env q.principal) q.right row)
          w.namespace_members (ground arith) in
      let named : row.namespace_id ≡ ns = ground (arith, eq_iff row.namespace_id ns) in
      let known =
        Memᴰ-of-elem (row.subject_type +++ (":" +++ row.subject_id)) (subject_refs env q.principal)
          (ground arith) in
      let held : (row.namespace_id == ns) ≡ true = ground arith in
      IsRecorded.namespace_member c row about m (same ∙ ap some (sym named)) (ground arith) known
        (elim (Bool-cases (elem q.right row.rights || elem "manage" row.rights)) [
          | inl f ↦ elim (listed_right q.right row.rights f) [ inl n ↦ inl n | inr n ↦ inr (inl n) ]
          | inr f ↦ inr (inr (ground arith))
        ])
