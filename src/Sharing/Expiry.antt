-- ===== src/Sharing/Expiry.antt =====
-- How long a share lasts: `create_share` (capmesh/stores.py) with `evaluate_access` of
-- capmesh/access_control.py.
use client_capmesh.Sharing.Escalation.{create_share-found, share_rights-done}
use client_capmesh.Sharing.Shares.{
  insert_rights, sharing_tenant, shared, ShareRequest, create_share, shared_rights, shared_uri,
  shared_with, about, check_rights,
}
use client_capmesh.Roles.Operations.{insert_relationship}
use client_capmesh.Access.{
  evaluate_access, decide, grant_verdict, later_verdict, Request, matches_tuple, rights, barrier,
  tuple_match, request_tenant, resource_refs, grant_relations, subject_refs,
}
use client_capmesh.Model.{Env, Principal, World, Relationship, Share}
use client_capmesh.Prelude.{
  String, [], List, Bool, Memᴰ, any, ◌≡◌, elem, true, arith, ◌∷◌, eq_refl, none, ap, ◌==◌, any-snoc,
  Bool-cases, ◌&&◌, inl, any-implied, eq_iff, inr, ok, sym, ◌∙◌, elem-Memᴰ, subset-Memᴰ,
}

-- the key of a relationship
abbrev same_relationship : Relationship → Relationship → Bool
same_relationship new r =
    r.tenant_id == new.tenant_id
    && (r.object == new.object && (r.relation == new.relation && r.user == new.user))

module _ (env : Env) (principal : Principal) where
  -- an insertion keeps what is there
  any-insert :
      (p : Relationship → Bool) (new : Relationship) (rows : List Relationship)
      → any p rows ≡ true
      → any p (insert_relationship env principal new rows) ≡ true
  unfolding insert_relationship
  any-insert p new rows h = ground (arith, any-snoc p rows new)

  -- a row with the key of the new one is there afterwards
  any-insert_new :
      (tenant : String) (objects relations users : List String) (new : Relationship)
      (rows : List Relationship)
      → matches_tuple tenant objects relations users new ≡ true
      → any
          (matches_tuple tenant objects relations users)
          (insert_relationship env principal new rows)
        ≡ true
  unfolding insert_relationship
  any-insert_new tenant objects relations users new rows h =
      elim (Bool-cases (any (same_relationship new) rows)) [
        | inl there ↦ ground (
          arith,
          there,
          any-implied (same_relationship new) (matches_tuple tenant objects relations users) rows
              (λ r k. ground (
                arith,
                h,
                k,
                ap (λ z. z == tenant) ((eq_iff r.tenant_id new.tenant_id).0 (ground (arith, k))),
                ap (λ z. elem z objects) ((eq_iff r.object new.object).0 (ground (arith, k))),
                ap (λ z. elem z relations) ((eq_iff r.relation new.relation).0 (ground (arith, k))),
                ap (λ z. elem z users) ((eq_iff r.user new.user).0 (ground (arith, k))),
              ))
              there,
        )
        | inr fresh ↦
            ground
              (arith, fresh, h, any-snoc (matches_tuple tenant objects relations users) rows new)
      ]

  any-insert_rights :
      (p : Relationship → Bool) (uri user : String) (rights : List String)
      (rows : List Relationship)
      → any p rows ≡ true
      → any p (insert_rights env principal uri user rights rows) ≡ true
  unfolding insert_rights
  any-insert_rights p uri user [] rows h = h
  any-insert_rights p uri user (r ∷ rights) rows h =
      any-insert_rights p uri user rights _ (any-insert p _ rows h)

  -- each right of the share has its relationship
  insert_rights-matches :
      (uri user : String) (rights : List String) (rows : List Relationship)
      (objects relations users : List String) {right : String}
      → Memᴰ right rights
      → elem right relations ≡ true
      → elem uri objects ≡ true
      → elem user users ≡ true
      → any
          (matches_tuple (sharing_tenant env principal) objects relations users)
          (insert_rights env principal uri user rights rows)
        ≡ true
  unfolding insert_rights
  insert_rights-matches uri user [] rows objects relations users m r o u = elim m [ ]
  insert_rights-matches uri user (x ∷ rights) rows objects relations users {right} (Memᴰ.head e) r o
        u =
      any-insert_rights (matches_tuple (sharing_tenant env principal) objects relations users) uri
        user rights _
        (any-insert_new (sharing_tenant env principal) objects relations users _ rows (
          ground
            (arith, eq_refl (sharing_tenant env principal), r, o, u, ap (λ z. elem z relations) e)))
  insert_rights-matches uri user (x ∷ rights) rows objects relations users (Memᴰ.tail m) r o u =
      insert_rights-matches uri user rights _ objects relations users m r o u

-- A relationship of the database grants a request that nothing bars.
tuple_match-grants :
    (env : Env) (w : World) (q : Request) (audit : Bool)
    → elem q.right rights ≡ true
    → barrier env w q ≡ none
    → tuple_match w
        (request_tenant env q)
        (resource_refs env q.capability q.resource_uri)
        (grant_relations q.right)
        (subject_refs env q.principal)
      ≡ true
    → (evaluate_access env w q audit).0.allowed ≡ true
unfolding evaluate_access decide grant_verdict later_verdict
tuple_match-grants env w q audit known free h = ground arith

-- A share that is done gives its rights to its subject for good: at any later time, also after the
-- expiry of the share, a request that nothing bars, by a principal with that subject and about a
-- resource with that uri, in the tenant of the share and for a right of the share, is allowed in the
-- database that the share leaves.
pub create_share-outlives :
    (env : Env)
    → (principal : Principal) → (ensure_identity : World → String × World) → (share_id : String)
    → (p : ShareRequest) → (w : World) → {out : Share}
    → (create_share env principal ensure_identity share_id p w).0 ≡ ok out
    → (later : Env) → (q : Request) → Memᴰ q.right (shared_rights p)
    → request_tenant later q ≡ sharing_tenant env principal
    → Memᴰ (shared_uri p) (resource_refs later q.capability q.resource_uri)
    → Memᴰ (shared_with p) (subject_refs later q.principal)
    → barrier later (create_share env principal ensure_identity share_id p w).1 q ≡ none
    → (audit : Bool)
    → (evaluate_access later
        (create_share env principal ensure_identity share_id p w).1
        q
        audit).0.allowed
      ≡ true
unfolding shared elem tuple_match
create_share-outlives env principal ensure_identity share_id p w done later q right tenant uri user
      free audit =
    let (c, _, _, same) = create_share-found env principal ensure_identity share_id p w done in
    let asked = (evaluate_access env w (about principal c "share") true).1 in
    let (known, _, same') =
      share_rights-done env principal ensure_identity share_id p c asked
        (ap (λ r. r.0) (sym same) ∙ done) in
    let w' = (ensure_identity (check_rights env principal c (shared_rights p) asked).1).1 in
    let end = (create_share env principal ensure_identity share_id p w).1 in
    let rows : end.relationship_tuples
        ≡ insert_rights env principal (shared_uri p) (shared_with p) (shared_rights p)
            w'.relationship_tuples =
      ap (λ r. r.1.relationship_tuples) (same ∙ same') ∙ ground arith in
    let there =
      insert_rights-matches env principal (shared_uri p) (shared_with p) (shared_rights p)
        w'.relationship_tuples (resource_refs later q.capability q.resource_uri)
        (grant_relations q.right) (subject_refs later q.principal) {right = q.right} right
        (ground (arith, eq_refl q.right)) (elem-Memᴰ _ uri) (elem-Memᴰ _ user) in
    tuple_match-grants later end q audit
      (elem-Memᴰ rights (subset-Memᴰ (shared_rights p) rights known right)) free
      (rw (rows, tenant) there)
