-- ===== src/Access/Grants.antt =====
-- capmesh/access_control.py: the single grants that `evaluate_access` tries in turn. A function that
-- may write `_ORG_FOR_STORE_CACHE` returns the cache beside its result.
use client_capmesh.Prelude.{
  String, Bool, true, false, ◌&&◌, ◌||◌, not, Option, none, some, List, [], ◌∷◌, ◌==◌, ◌+++◌,
  str_le, truthy, present, or_else, or_default, is_some_eq, opt_eq, elem, meets, subset, partition,
  if◌then◌else◌, any, select, find,
}
use client_capmesh.Model.{
  Env, Principal, Capability, Store, Organization, NamespaceMember, RoleAssignment, Relationship,
  Share, CacheEntry, World,
}
use client_capmesh.Access.Rights.{read_rights, use_rights, owner_rights, role_has_right}
use client_capmesh.Access.Refs.{identity_of, subject_refs}

-- capability.tenant_id or DEFAULT_TENANT
abbrev pub tenant_of : Env → Capability → String
tenant_of env c = or_else c.tenant_id env.default_tenant

-- capability.tenant_id or principal.tenant_id or DEFAULT_TENANT
abbrev pub tenant_for : Env → Capability → Principal → String
tenant_for env c p = or_else c.tenant_id (or_else p.tenant_id env.default_tenant)

-- A row that an `expires_at` column ends: `row["expires_at"] and row["expires_at"] <= now`.
abbrev pub is_over : String → Option String → Bool
is_over now none = false
is_over now (some t) = truthy t && str_le t now

-- A column that is NULL: `revoked_at IS NULL`.
abbrev pub is_null : Option String → Bool
is_null none = true
is_null (some t) = false

unfoldable pub manifest_grant : Capability → Principal → String → Bool
manifest_grant c p right =
    if not (elem right use_rights)
    then false
    else if elem p.subject c.allow_users
    then true
    else if meets p.groups c.allow_groups
    then true
    else elim c.required_scopes [ [] ↦ false | s ∷ ss ↦ subset (s ∷ ss) p.scopes ]

-- the WHERE clause of `tuple_match`
abbrev pub matches_tuple : String → List String → List String → List String → Relationship → Bool
matches_tuple tenant objects relations users row =
    row.tenant_id == tenant
    && (elem row.object objects && (elem row.relation relations && elem row.user users))

-- Where a list is empty no row matches, so the early return needs no test.
unfoldable pub tuple_match : World → String → List String → List String → List String → Bool
tuple_match w tenant objects relations users =
    any (matches_tuple tenant objects relations users) w.relationship_tuples

-- the lookup of `_ORG_FOR_STORE_CACHE`
abbrev pub is_entry_of : String → String → CacheEntry → Bool
is_entry_of tenant store entry = entry.tenant_id == tenant && entry.store_id == store

-- SELECT id FROM organizations WHERE store_id = ? AND tenant_id = ?
abbrev pub is_org_of : String → String → Organization → Bool
is_org_of tenant store o = is_some_eq o.store_id store && o.tenant_id == tenant

org_id : Option Organization → Option String
org_id none = none
org_id (some o) = some o.id

-- what the table says, without the cache
unfoldable pub stored_org : List Organization → String → String → Option String
unfolding org_id
stored_org orgs tenant store = org_id (find (is_org_of tenant store) orgs)

unfoldable pub cached_org :
    World → String → String → List CacheEntry → Option String × List CacheEntry
cached_org w tenant store cache = elim (find (is_entry_of tenant store) cache) [
  | some entry ↦ (entry.org_id, cache)
  | none ↦
      let org = stored_org w.organizations tenant store in
      (org, record { tenant_id = tenant; store_id = store; org_id = org } ∷ cache)
]

unfoldable pub org_id_for_store :
    World → Option String → String → List CacheEntry → Option String × List CacheEntry
org_id_for_store w none tenant cache = (none, cache)
org_id_for_store w (some store) tenant cache =
    if truthy store then cached_org w tenant store cache else (none, cache)

-- resource_uri in {f"{scope_type}:{scope_id}", scope_id}
abbrev pub addresses : String → String → Option String → Bool
addresses scope_type scope_id resource_uri =
    is_some_eq resource_uri (scope_type +++ (":" +++ scope_id)) || is_some_eq resource_uri scope_id

unfoldable pub org_scope_matches :
    World
    → RoleAssignment
    → String
    → Option Capability
    → Option String
    → List CacheEntry
    → Bool × List CacheEntry
org_scope_matches w row tenant none resource_uri cache =
    (addresses "org" row.scope_id resource_uri, cache)
org_scope_matches w row tenant (some c) resource_uri cache =
    let (org, cache') = org_id_for_store w c.store_id (or_else c.tenant_id tenant) cache in
    (is_some_eq org row.scope_id, cache')

unfoldable pub scope_of_capability : RoleAssignment → Capability → Option String → Bool
scope_of_capability row c resource_uri =
    if row.scope_type == "store"
    then is_some_eq c.store_id row.scope_id
    else if row.scope_type == "namespace"
    then is_some_eq c.namespace_id row.scope_id
    else if elem row.scope_type ("capability" ∷ "resource" ∷ "object" ∷ [])
    then row.scope_id == c.uri || is_some_eq resource_uri row.scope_id
    else false

unfoldable pub role_assignment_scope_matches :
    RoleAssignment → String → Option Capability → Option String → Bool
unfolding scope_of_capability
role_assignment_scope_matches row tenant capability resource_uri =
    if row.scope_type == "tenant"
    then row.scope_id == tenant || row.scope_id == "*"
    else elim capability [
      | none ↦ addresses row.scope_type row.scope_id resource_uri
      | some c ↦ scope_of_capability row c resource_uri
    ]

-- (row["subject_type"], row["subject_id"]) in subject_pairs
unfoldable pub names_subject : String → String → List String → Bool
names_subject type id [] = false
names_subject type id (ref ∷ refs) =
    (partition ref).0 == type && (partition ref).1 == id || names_subject type id refs

-- the branch on `scope_type`
unfoldable pub scope_matches :
    World
    → RoleAssignment
    → String
    → Option Capability
    → Option String
    → List CacheEntry
    → Bool × List CacheEntry
scope_matches w row tenant capability resource_uri cache =
    if row.scope_type == "org"
    then org_scope_matches w row tenant capability resource_uri cache
    else (role_assignment_scope_matches row tenant capability resource_uri, cache)

-- the row is about one of the subjects and has not expired
unfoldable pub is_current : String → List String → RoleAssignment → Bool
is_current now subjects row =
    names_subject row.subject_type row.subject_id subjects && not (is_over now row.expires_at)

module _ (env : Env) (w : World) (tenant : String) (subjects : List String) (right : String)
    (capability : Option Capability) (resource_uri : Option String) where
  -- the `for` loop of `active_role_grant`
  unfoldable pub role_loop : List RoleAssignment → List CacheEntry → Bool × List CacheEntry
  role_loop [] cache = (false, cache)
  role_loop (row ∷ rows) cache =
      let rest = role_loop rows cache in
      if not (is_current env.now subjects row)
      then rest
      else (let (matched, cache') = scope_matches w row tenant capability resource_uri cache in
          let rest' = role_loop rows cache' in
          if matched && role_has_right row.role right then (true, cache') else rest')

  -- WHERE tenant_id = ? AND revoked_at IS NULL
  abbrev pub is_live_assignment : RoleAssignment → Bool
  is_live_assignment row = row.tenant_id == tenant && is_null row.revoked_at

  unfoldable pub active_role_grant : List CacheEntry → Bool × List CacheEntry
  active_role_grant cache = role_loop (select is_live_assignment w.role_assignments) cache

-- the row is a membership of one of the subjects that has the right
unfoldable pub member_has_right : List String → String → NamespaceMember → Bool
member_has_right subjects right row =
    elem (row.subject_type +++ (":" +++ row.subject_id)) subjects
    && (elem right row.rights || elem "manage" row.rights || role_has_right row.role right)

unfoldable pub namespace_member_grant : World → Option String → List String → String → Bool
namespace_member_grant w none subjects right = false
namespace_member_grant w (some ns) subjects right =
    truthy ns
    && any
        (λ (row : NamespaceMember).
          row.namespace_id == ns && is_null row.revoked_at && member_has_right subjects right row)
        w.namespace_members

-- SELECT ... FROM stores WHERE id = ? AND tenant_id = ?
abbrev pub is_store : String → String → Store → Bool
is_store id tenant s = s.id == id && s.tenant_id == tenant

owns_store : Env → Principal → Option Store → Bool
owns_store env p none = false
owns_store env p (some s) =
    elem s.kind ("user_private" ∷ "user_shared" ∷ [])
      && is_some_eq s.owner_identity_id (identity_of env p)
    || (s.kind == "app" && (present p.app_id && opt_eq s.owner_app_id p.app_id))

unfoldable pub store_owner_grant : Env → World → Capability → Principal → String → Bool
unfolding owns_store
store_owner_grant env w c p right =
    if not (elem right owner_rights) then false else elim c.store_id [
      | none ↦ false
      | some store ↦
          truthy store && owns_store env p (find (is_store store (tenant_of env c)) w.stores)
    ]

has_kind : String → Option Store → Bool
has_kind kind none = false
has_kind kind (some s) = s.kind == kind

unfoldable pub all_users_store_grant : Env → World → Capability → Principal → String → Bool
unfolding has_kind
all_users_store_grant env w c p right =
    if not (elem right read_rights)
    then false
    else if not p.authenticated
    then false
    else elim c.store_id [
      | none ↦ false
      | some store ↦
          if not (truthy store)
          then false
          else if not (tenant_of env c == or_else p.tenant_id env.default_tenant)
          then false
          else has_kind "all_users" (find (is_store store (tenant_of env c)) w.stores)
    ]

-- WHERE tenant_id = ? AND capability_uri = ? AND state = 'active' AND revoked_at IS NULL
abbrev pub is_live_share : String → String → Share → Bool
is_live_share tenant uri row =
    row.tenant_id == tenant
    && (row.capability_uri == uri && (row.state == "active" && is_null row.revoked_at))

-- the row is a share with one of the subjects, is not over, and has the right
unfoldable pub share_has_right : String → List String → String → Share → Bool
share_has_right now subjects right row =
    elem (row.subject_type +++ (":" +++ row.subject_id)) subjects
    && (not (is_over now row.expires_at) && (elem right row.rights || elem "manage" row.rights))

unfoldable pub share_grant : Env → World → String → List String → String → String → Bool
share_grant env w tenant subjects uri right =
    truthy uri
    && any
        (λ (row : Share).
          is_live_share tenant uri row && share_has_right env.now subjects right row)
        w.shares

-- capability.created_by or capability.owner
abbrev pub owner_of : Capability → String
owner_of c = or_default c.created_by c.owner

unfoldable pub owner_grant : Capability → Principal → String → Bool
owner_grant c p right =
    if not (elem right owner_rights)
    then false
    else (p.subject == owner_of c || is_some_eq p.identity_id (owner_of c))
      || elem (owner_of c) p.groups

unfoldable pub store_is_org : World → Option String → String → Bool
store_is_org w none tenant = false
store_is_org w (some store) tenant =
    truthy store && any (λ (s : Store). is_store store tenant s && s.kind == "org") w.stores

unfoldable pub org_membership_grant :
    Env → World → Capability → Principal → String → List CacheEntry → Bool × List CacheEntry
org_membership_grant env w c p right cache =
    let tenant = tenant_for env c p in
    if not (elem right read_rights)
    then (false, cache)
    else if not p.authenticated
    then (false, cache)
    else if not (store_is_org w c.store_id tenant)
    then (false, cache)
    else active_role_grant env w tenant (subject_refs env p) right (some c) none cache

unfoldable pub default_visibility_grant : Env → World → Capability → Principal → String → Bool
default_visibility_grant env w c p right =
    if not (elem right read_rights)
    then false
    else if c.visibility == "public"
    then true
    else if store_is_org w c.store_id (tenant_for env c p)
    then false
    else c.visibility == "internal" && p.authenticated
