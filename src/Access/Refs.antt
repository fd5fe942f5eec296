-- ===== src/Access/Refs.antt =====
-- capmesh/access_control.py: the references by which a principal and a resource are found in the
-- tables, and the check that a principal is disabled. A set of references is a list.
use client_capmesh.Prelude.{
  String, Bool, true, false, ◌&&◌, ◌||◌, not, Option, none, some, List, [], ◌∷◌, ◌++◌, map, ◌==◌,
  ◌+++◌, str_lt, truthy, present, or_else, or_default, is_some_eq, opt_eq, if◌then◌else◌, select,
  any,
}
use client_capmesh.Model.{Env, Principal, Capability, Identity, PromotionRequest, World}

-- principal.identity_id or stable_id("idn", principal.tenant_id or DEFAULT_TENANT, principal.subject)
unfoldable pub identity_of : Env → Principal → String
identity_of env p =
    or_default p.identity_id
      (env.stable_id "idn" (or_else p.tenant_id env.default_tenant ∷ p.subject ∷ []))

-- if principal.email and principal.email != principal.subject
email_refs : Option String → String → List String
email_refs none subject = []
email_refs (some email) subject =
    if truthy email && not (email == subject) then ("user:" +++ email) ∷ [] else []

app_refs : Option String → List String
app_refs none = []
app_refs (some app) = if truthy app then ("app:" +++ app) ∷ [] else []

unfoldable pub subject_refs : Env → Principal → List String
unfolding email_refs app_refs
subject_refs env p =
    ("user:" +++ p.subject)
    ∷ ("identity:" +++ identity_of env p)
    ∷ (email_refs p.email p.subject
        ++ (app_refs p.app_id
            ++ (map (λ g. "group:" +++ g) p.groups ++ map (λ r. "role:" +++ r) p.roles)))

namespace_refs : Option String → List String
namespace_refs none = []
namespace_refs (some n) = if truthy n then ("namespace:" +++ n) ∷ [] else []

store_refs : Option String → List String
store_refs none = []
store_refs (some s) = if truthy s then ("store:" +++ s) ∷ [] else []

uri_refs : Option String → List String
uri_refs none = []
uri_refs (some uri) = if truthy uri then uri ∷ [] else []

unfoldable pub resource_refs : Env → Option Capability → Option String → List String
unfolding namespace_refs store_refs uri_refs
resource_refs env none resource_uri = uri_refs resource_uri
resource_refs env (some c) resource_uri =
    c.uri
    ∷ (namespace_refs c.namespace_id
        ++ (store_refs c.store_id ++ ("tenant:" +++ or_else c.tenant_id env.default_tenant) ∷ []))

-- the OR of the clauses that `is_disabled` builds
unfoldable pub names_principal : Env → Principal → Identity → Bool
names_principal env p row =
    row.tenant_id == or_else p.tenant_id env.default_tenant
    && (row.user_name == p.subject
        || (present p.identity_id && is_some_eq p.identity_id row.id)
        || (present p.email && opt_eq row.email p.email))

-- ORDER BY updated_at DESC LIMIT 1; SQL leaves open which of two rows of one second comes first
unfoldable pub latest : List Identity → Option Identity
latest [] = none
latest (row ∷ rows) = elim (latest rows) [
  | none ↦ some row
  | some best ↦ if str_lt row.updated_at best.updated_at then some best else some row
]

inactive : Option Identity → Bool
inactive none = false
inactive (some row) = not row.active

unfoldable pub is_disabled : Env → World → Principal → Bool
unfolding inactive
is_disabled env w p =
    if p.disabled || not p.authenticated
    then true
    else inactive (latest (select (names_principal env p) w.identities))

unfoldable pub has_formal_promotion_record : Env → World → Capability → Bool
has_formal_promotion_record env w c =
    any
      (λ (r : PromotionRequest).
        r.tenant_id == or_else c.tenant_id env.default_tenant && r.capability_uri == c.uri)
      w.promotion_requests
