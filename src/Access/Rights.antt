-- ===== src/Access/Rights.antt =====
-- capmesh/access_control.py: rights, the rights of each role, and the step-up rule.
use client_capmesh.Prelude.{
  String, Bool, false, ◌&&◌, ◌||◌, Option, none, some, List, [], ◌∷◌, ◌==◌, elem, if◌then◌else◌,
}
use client_capmesh.Model.{Capability}

abbrev pub rights : List String
rights =
    "discover" ∷ "load" ∷ "call" ∷ "delegate" ∷ "share" ∷ "submit" ∷ "publish" ∷ "approve"
    ∷ "manage" ∷ "audit" ∷ []

-- {"discover", "load", "call"}
abbrev pub read_rights : List String
read_rights = "discover" ∷ "load" ∷ "call" ∷ []

-- {"discover", "load", "call", "delegate"}
abbrev pub use_rights : List String
use_rights = "discover" ∷ "load" ∷ "call" ∷ "delegate" ∷ []

-- the rights that owners of a store or of a capability have
abbrev pub owner_rights : List String
owner_rights = "discover" ∷ "load" ∷ "call" ∷ "delegate" ∷ "share" ∷ "submit" ∷ "manage" ∷ []

abbrev pub step_up_rights : List String
step_up_rights = "manage" ∷ "approve" ∷ "publish" ∷ []

abbrev pub step_up_risk_tiers : List String
step_up_risk_tiers = "high" ∷ "critical" ∷ []

unfoldable pub requires_step_up : String → Option Capability → Bool
requires_step_up right none = false
requires_step_up right (some capability) =
    if elem right step_up_rights then elem capability.risk_tier step_up_risk_tiers else false

-- ROLE_RIGHTS.get(role, set())
unfoldable pub role_rights : String → List String
role_rights role =
    if role == "member"
    then read_rights
    else if role == "vibe_coder"
    then "discover" ∷ "load" ∷ "call" ∷ "delegate" ∷ "share" ∷ "submit" ∷ []
    else if role == "publisher"
    then "discover" ∷ "load" ∷ "call" ∷ "submit" ∷ "publish" ∷ []
    else if role == "namespace_admin"
    then rights
    else if role == "org_admin"
    then rights
    else if role == "platform_admin"
    then rights
    else if role == "auditor"
    then "discover" ∷ "load" ∷ "audit" ∷ []
    else if role == "app_service"
    then use_rights
    else []

abbrev pub global_role_grant_roles : List String
global_role_grant_roles = "platform_admin" ∷ "org_admin" ∷ []

unfoldable pub role_has_right : String → String → Bool
unfolding role_rights
role_has_right role right =
    let granted = role_rights role in elem right granted || elem "manage" granted

unfoldable pub global_role_has_right : String → String → Bool
global_role_has_right role right =
    if elem role global_role_grant_roles
    then role_has_right role right
    else role == "auditor" && elem right ("discover" ∷ "load" ∷ "audit" ∷ [])
