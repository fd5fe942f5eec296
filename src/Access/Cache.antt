-- ===== src/Access/Cache.antt =====
-- The process-wide cache of `org_id_for_store` (capmesh/access_control.py): while it agrees with the
-- table of organizations it changes no verdict, and evaluating requests keeps it in agreement.
use client_capmesh.Access.Evaluate.{
  Request, capability_verdict, later_verdict, Verdict, grant_verdict, decide, evaluate_access,
  request_tenant, barrier, record_policy_decision, visibility_verdict, request_uri, deny, allow,
  grant_relations, capability_verdicts,
}
use client_capmesh.Prelude.{
  String, Bool, true, false, not, any, ◌≡◌, refl, ◌&&◌, Option, none, some, List, [], ◌∷◌, arith,
  ◌==◌, eq_iff, find, any, if◌then◌else◌, truthy, or_else, is_some_eq, Option-cases, Bool-cases,
  inl, inr, select, ◌∙◌, sym, elem, false, Memᴰ, elem-Memᴰ,
}
use client_capmesh.Model.{
  Env, Capability, Organization, RoleAssignment, CacheEntry, World, by_principal_role,
  no_matching_grant,
}
use client_capmesh.Access.Rights.{role_has_right, read_rights, global_role_has_right, rights}
use client_capmesh.Access.Refs.{subject_refs, resource_refs}
use client_capmesh.Access.Grants.{
  is_entry_of, stored_org, cached_org, org_id_for_store, addresses, org_scope_matches,
  scope_matches, role_assignment_scope_matches, is_current, role_loop, active_role_grant,
  is_live_assignment, org_membership_grant, tenant_for, namespace_member_grant, store_owner_grant,
  manifest_grant, store_is_org, owner_grant, all_users_store_grant, share_grant, tuple_match,
}

-- Every entry of the cache holds what the table says.
pub record IsCoherent (orgs : List Organization) (cache : List CacheEntry) : Type 0 where
  pub entry :
      (tenant store : String) (e : CacheEntry)
      → find (is_entry_of tenant store) cache ≡ some e
      → e.org_id ≡ stored_org orgs tenant store

pub nil-IsCoherent : (orgs : List Organization) → IsCoherent orgs []
unfolding find
nil-IsCoherent orgs = record { entry = λ t s e h. absurd (ground arith) }

-- `org_id_for_store` without the cache
unfoldable pub org_of : World → Option String → String → Option String
org_of w none tenant = none
org_of w (some store) tenant =
    if truthy store then stored_org w.organizations tenant store else none

-- the scope test of one assignment, without the cache
unfoldable pub stored_scope_matches :
    World → RoleAssignment → String → Option Capability → Option String → Bool
stored_scope_matches w row tenant capability resource_uri =
    if row.scope_type == "org"
    then (elim capability [
      | none ↦ addresses "org" row.scope_id resource_uri
      | some c ↦ is_some_eq (org_of w c.store_id (or_else c.tenant_id tenant)) row.scope_id
    ])
    else role_assignment_scope_matches row tenant capability resource_uri

module _ (w : World) where
  extend-IsCoherent :
      (tenant store : String) (cache : List CacheEntry)
      → IsCoherent w.organizations cache
      → IsCoherent w.organizations (
          record {
            tenant_id = tenant;
            store_id = store;
            org_id = stored_org w.organizations tenant store;
          }
          ∷ cache)
  unfolding find
  extend-IsCoherent tenant store cache h = record {
    entry = λ t s e found. ground (arith, h.entry t s e, eq_iff tenant t, eq_iff store s);
  }

  cached_org_lem :
      (tenant store : String) (cache : List CacheEntry)
      → IsCoherent w.organizations cache
      → ((cached_org w tenant store cache).0 ≡ stored_org w.organizations tenant store)
        × IsCoherent w.organizations (cached_org w tenant store cache).1
  unfolding cached_org
  cached_org_lem tenant store cache h =
      elim (Option-cases (find (is_entry_of tenant store) cache)) [
        | inl e ↦ rw (e, cached_org) (refl, extend-IsCoherent tenant store cache h)
        | inr (entry, e) ↦ rw (e, cached_org) (h.entry tenant store entry e, h)
      ]

  org_id_for_store_lem :
      (store : Option String) (tenant : String) (cache : List CacheEntry)
      → IsCoherent w.organizations cache
      → ((org_id_for_store w store tenant cache).0 ≡ org_of w store tenant)
        × IsCoherent w.organizations (org_id_for_store w store tenant cache).1
  unfolding org_id_for_store org_of
  org_id_for_store_lem none tenant cache h = (refl, h)
  org_id_for_store_lem (some store) tenant cache h = elim (Bool-cases (truthy store)) [
    | inl e ↦ rw e (cached_org_lem tenant store cache h)
    | inr e ↦ rw e (refl, h)
  ]

  scope_matches_lem :
      (row : RoleAssignment) (tenant : String) (capability : Option Capability)
      (resource_uri : Option String) (cache : List CacheEntry)
      → IsCoherent w.organizations cache
      → ((scope_matches w row tenant capability resource_uri cache).0
          ≡ stored_scope_matches w row tenant capability resource_uri)
        × IsCoherent w.organizations (scope_matches w row tenant capability resource_uri cache).1
  unfolding scope_matches stored_scope_matches org_scope_matches
  scope_matches_lem row tenant none uri cache h = elim (Bool-cases (row.scope_type == "org")) [
    | inl e ↦ rw e (refl, h)
    | inr e ↦ rw e (refl, h)
  ]
  scope_matches_lem row tenant (some c) uri cache h =
      let (same, kept) = org_id_for_store_lem c.store_id (or_else c.tenant_id tenant) cache h in
      elim (Bool-cases (row.scope_type == "org")) [
        | inl e ↦ rw e (rw same refl, kept)
        | inr e ↦ rw e (refl, h)
      ]

module _ (env : Env) (w : World) (tenant : String) (subjects : List String) (right : String)
    (capability : Option Capability) (resource_uri : Option String) where
  -- the assignment gives the right to one of the subjects, for what is requested
  abbrev pub assignment_grants : RoleAssignment → Bool
  assignment_grants row =
      is_current env.now subjects row
      && (stored_scope_matches w row tenant capability resource_uri
          && role_has_right row.role right)

  role_loop_lem :
      (rows : List RoleAssignment) (cache : List CacheEntry)
      → IsCoherent w.organizations cache
      → ((role_loop env w tenant subjects right capability resource_uri rows cache).0
          ≡ any assignment_grants rows)
        × IsCoherent w.organizations
            (role_loop env w tenant subjects right capability resource_uri rows cache).1
  unfolding role_loop any
  role_loop_lem [] cache h = (refl, h)
  role_loop_lem (row ∷ rows) cache h =
      let (same, kept) = scope_matches_lem w row tenant capability resource_uri cache h in
      let cache' = (scope_matches w row tenant capability resource_uri cache).1 in
      let (rest, rest_kept) = role_loop_lem rows cache h in
      let (rest', rest_kept') = role_loop_lem rows cache' kept in
      elim (Bool-cases (is_current env.now subjects row)) [
        | inr e ↦ rw e (rest, rest_kept)
        | inl e ↦
            elim (Bool-cases (
              stored_scope_matches w row tenant capability resource_uri
              && role_has_right row.role right)) [
                | inl g ↦ rw (e, same, g) (refl, kept)
                | inr g ↦ rw (e, same, g) (rest', rest_kept')
              ]
      ]

  pub active_role_grant_lem :
      (cache : List CacheEntry)
      → IsCoherent w.organizations cache
      → ((active_role_grant env w tenant subjects right capability resource_uri cache).0
          ≡ any assignment_grants (
              select
                (is_live_assignment env w tenant subjects right capability resource_uri)
                w.role_assignments))
        × IsCoherent w.organizations
            (active_role_grant env w tenant subjects right capability resource_uri cache).1
  unfolding active_role_grant
  active_role_grant_lem cache h = role_loop_lem _ cache h

-- Two runs from coherent caches: the same result, and the first leaves a coherent cache.
record Same {A : Type 0} (orgs : List Organization) (x y : A × List CacheEntry) : Type 0 where
  result : x.0 ≡ y.0
  kept : IsCoherent orgs x.1

module _ {A : Type 0} (orgs : List Organization) where
  Same-if :
      (b : Bool) (x x' y y' : A × List CacheEntry)
      → Same orgs x x'
      → Same orgs y y'
      → Same orgs (if b then x else y) (if b then x' else y')
  Same-if true x x' y y' s t = s
  Same-if false x x' y y' s t = t

  -- A grant that uses the cache, and the branches after it.
  Same-then :
      (r r' : Bool × List CacheEntry) (v : A) (later : List CacheEntry → A × List CacheEntry)
      → Same orgs r r'
      → IsCoherent orgs r'.1
      → ((c c' : List CacheEntry)
          → IsCoherent orgs c
          → IsCoherent orgs c'
          → Same orgs (later c) (later c'))
      → Same orgs (if r.0 then (v, r.1) else later r.1) (if r'.0 then (v, r'.1) else later r'.1)
  Same-then r r' v later s h f = rw s.result (
      Same-if r'.0 (v, r.1) (v, r'.1) (later r.1) (later r'.1)
        (record { result = refl; kept = s.kept }) (f r.1 r'.1 s.kept h))

module _ (env : Env) (w : World) (q : Request) where
  abbrev Agrees : {A : Type 0} → (List CacheEntry → A × List CacheEntry) → Type 0
  Agrees f =
      (c c' : List CacheEntry)
      → IsCoherent w.organizations c
      → IsCoherent w.organizations c'
      → Same w.organizations (f c) (f c')

  role_grant-Agrees :
      (tenant : String) (subjects : List String) (capability : Option Capability)
      (uri : Option String)
      → Agrees (active_role_grant env w tenant subjects q.right capability uri)
  role_grant-Agrees tenant subjects capability uri c c' h h' =
      let (same, kept) = active_role_grant_lem env w tenant subjects q.right capability uri c h in
      let (same', _) = active_role_grant_lem env w tenant subjects q.right capability uri c' h' in
      record { result = same ∙ sym same'; kept = kept }

  unchanged-Agrees : {A : Type 0} (v : A) → Agrees (λ c. (v, c))
  unchanged-Agrees v c c' h h' = record { result = refl; kept = h }

  membership-Agrees : (k : Capability) → Agrees (org_membership_grant env w k q.principal q.right)
  unfolding org_membership_grant
  membership-Agrees k c c' h h' =
      let same = unchanged-Agrees false c c' h h' in
      let tenant = tenant_for env k q.principal in
      let subjects = subject_refs env q.principal in
      Same-if _ (not (elem q.right read_rights)) _ _ _ _ same (
        Same-if _ (not q.principal.authenticated) _ _ _ _ same (
          Same-if _ (not (store_is_org w k.store_id tenant)) _ _ _ _ same
            (role_grant-Agrees tenant subjects (some k) none c c' h h')))

  capability-Agrees : (k : Capability) → Agrees (capability_verdict env w q k)
  unfolding capability_verdict
  capability-Agrees k c c' h h' =
      let p = q.principal in
      let same = λ (v : Verdict). unchanged-Agrees v c c' h h' in
      let m = membership-Agrees k c c' h h' in
      Same-if _ (namespace_member_grant w k.namespace_id (subject_refs env p) q.right) _ _ _ _
        (same _)
        (Same-if _ (store_owner_grant env w k p q.right) _ _ _ _ (same _) (
          Same-if _ (manifest_grant k p q.right) _ _ _ _ (same _) (
            Same-if _ (owner_grant k p q.right) _ _ _ _ (same _) (
              Same-if _ (all_users_store_grant env w k p q.right) _ _ _ _ (same _) (
                Same-then _ _ _ _ (λ x. (visibility_verdict env w q k, x)) m
                  (membership-Agrees k c' c h' h).kept
                  (unchanged-Agrees (visibility_verdict env w q k)))))))

  later-Agrees : Agrees (later_verdict env w q)
  unfolding later_verdict
  later-Agrees c c' h h' =
      let same = λ (v : Verdict). unchanged-Agrees v c c' h h' in
      let subjects = subject_refs env q.principal in
      Same-if _ (share_grant env w (request_tenant env q) subjects (request_uri q) q.right) _ _ _ _
        (same _)
        (Same-if _
          (tuple_match w (request_tenant env q) (resource_refs env q.capability q.resource_uri)
            (grant_relations q.right) subjects)
          _ _ _ _ (same _)
          (elim q.capability
            as (λ o.
              Same w.organizations (capability_verdicts env w q o c)
                (capability_verdicts env w q o c')) [
                  | none ↦ same (deny no_matching_grant)
                  | some k ↦ capability-Agrees k c c' h h'
                ]))

  grant-Agrees : Agrees (grant_verdict env w q)
  unfolding grant_verdict
  grant-Agrees c c' h h' =
      let given =
        role_grant-Agrees (request_tenant env q) (subject_refs env q.principal) q.capability
          q.resource_uri in
      Same-if _ (any (λ role. global_role_has_right role q.right) q.principal.roles) _ _ _ _
        (unchanged-Agrees (allow by_principal_role) c c' h h')
        (Same-then _ _ _ _ (later_verdict env w q) (given c c' h h') (given c' c h' h).kept
          later-Agrees)

  decide-Agrees : Agrees (decide env w q)
  unfolding decide
  decide-Agrees c c' h h' =
      elim (barrier env w q)
        as (λ b.
          Same {A = Verdict} w.organizations
            (elim b [ some reason ↦ (deny reason, c) | none ↦ grant_verdict env w q c ])
            (elim b [ some reason ↦ (deny reason, c') | none ↦ grant_verdict env w q c' ])) [
              | none ↦ grant-Agrees c c' h h'
              | some reason ↦ unchanged-Agrees (deny reason) c c' h h'
            ]

  -- If the cache agrees with the table of organizations, the verdict on a request for one of the
  -- ten rights is the one that an empty cache gives, and the cache agrees with the table afterwards.
  pub cache_transparent :
      (audit : Bool)
      → IsCoherent w.organizations w.org_cache
      → Memᴰ q.right rights
      → ((evaluate_access env w q audit).0 ≡ (decide env w q []).0)
        × IsCoherent
            (evaluate_access env w q audit).1.organizations
            (evaluate_access env w q audit).1.org_cache
  unfolding evaluate_access record_policy_decision
  cache_transparent audit h m =
      let e = elem-Memᴰ rights m in
      let same = decide-Agrees w.org_cache [] h (nil-IsCoherent w.organizations) in
      elim (Bool-cases audit) [
        | inl a ↦ rw (e, a) (same.result, same.kept)
        | inr a ↦ rw (e, a) (same.result, same.kept)
      ]
