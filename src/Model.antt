-- ===== src/Model.antt =====
-- capmesh/models.py and the tables of the governance database that the modelled code reads and
-- writes. A table is the list of its rows in insertion order; a column that no modelled code reads is
-- left out (`updated_at` of shares and role assignments too, though a revocation sets it; that of
-- capabilities and namespaces is there), as are the random primary keys (`uuid4`) of tables whose rows no code looks up by key.
-- A nullable column is an `Option`. A column `rights_json` holds the list that was dumped into it.
use client_capmesh.Prelude.{String, Bool, Option, List}

-- What the process is given: the environment, the clock and the hash of capmesh/utils.py. One call
-- of a modelled function reads the clock once.
pub record Env : Type 0 where
  -- DEFAULT_TENANT
  pub default_tenant : String
  -- _production_environment()
  pub production : Bool
  -- stable_id(prefix, *parts): SHA-256 is not code of the repository
  pub stable_id : String → List String → String
  -- utc_now(): an ISO text, which the code compares as a string
  pub now : String

pub record Principal : Type 0 where
  pub subject : String
  pub tenant_id : String
  pub identity_id : Option String
  pub email : Option String
  pub app_id : Option String
  pub groups : List String
  pub roles : List String
  pub scopes : List String
  pub authenticated : Bool
  pub disabled : Bool
  pub step_up_authenticated : Bool

pub record Capability : Type 0 where
  pub uri : String
  pub visibility : String
  pub discovery_mode : String
  pub owner : String
  pub required_scopes : List String
  pub allow_groups : List String
  pub allow_users : List String
  pub risk_tier : String
  pub lifecycle : String
  pub tenant_id : String
  pub store_id : Option String
  pub namespace_id : Option String
  pub created_by : Option String
  pub submitted_by : Option String
  pub promoted_from_uri : Option String
  pub approval_state : String
  pub share_state : String
  pub signature_status : String
  pub provenance_status : String
  pub risk_review_status : String
  pub capability_type : String
  pub name : String
  pub version : String
  pub plugin : Option String
  pub updated_at : String

pub record Identity : Type 0 where
  pub id : String
  pub tenant_id : String
  pub user_name : String
  pub email : Option String
  pub active : Bool
  pub updated_at : String

pub record Store : Type 0 where
  pub id : String
  pub tenant_id : String
  pub kind : String
  pub owner_identity_id : Option String
  pub owner_app_id : Option String
  pub uri_prefix : String
  pub disabled_at : Option String

pub record Organization : Type 0 where
  pub id : String
  pub tenant_id : String
  pub slug : String
  pub store_id : Option String
  pub status : String

pub record Namespace : Type 0 where
  pub id : String
  pub tenant_id : String
  pub store_id : String
  pub name : String
  pub owner : String
  pub lifecycle : String
  pub uri_prefix : String
  pub visibility : String
  pub updated_at : String

pub record NamespaceMember : Type 0 where
  pub namespace_id : String
  pub subject_type : String
  pub subject_id : String
  pub role : String
  pub rights : List String
  pub revoked_at : Option String

pub record RoleAssignment : Type 0 where
  pub id : String
  pub tenant_id : String
  pub subject_type : String
  pub subject_id : String
  pub role : String
  pub scope_type : String
  pub scope_id : String
  pub source : String
  pub created_by : String
  pub expires_at : Option String
  pub revoked_at : Option String

pub record Relationship : Type 0 where
  pub tenant_id : String
  pub object : String
  pub relation : String
  pub user : String
  pub source : String

pub record Share : Type 0 where
  pub id : String
  pub tenant_id : String
  pub capability_uri : String
  pub from_identity_id : String
  pub subject_type : String
  pub subject_id : String
  pub rights : List String
  pub state : String
  pub expires_at : Option String
  pub revoked_at : Option String

pub record PromotionRequest : Type 0 where
  pub id : String
  pub tenant_id : String
  pub capability_uri : String
  pub source_store_id : Option String
  pub target_namespace_id : Option String
  pub requested_by : Option String
  pub state : String
  -- the states of the gates in `gates_json`; none where the text is no JSON
  pub gates : Option (List (String × String))
  pub decided_at : Option String

pub record ApprovalStep : Type 0 where
  pub request_id : String
  pub step_name : String
  -- assigned_to_type, a colon and assigned_to_id
  pub assigned_to : String
  pub state : String
  pub decision_by : Option String
  pub decision_note : Option String
  pub decided_at : Option String

-- The reasons of `evaluate_access`, one constructor for each text.
pub data Reason : Type 0 where
  unsupported_right no_matching_grant principal_disabled capability_inactive : Reason
  step_up_required integrity_invalid explicit_deny : Reason
  by_principal_role by_role_assignment by_share by_relationship by_namespace_member : Reason
  by_store_owner by_manifest by_owner by_all_users_store by_org_membership by_visibility : Reason

pub record PolicyDecision : Type 0 where
  pub tenant_id : String
  pub principal : String
  pub action : String
  pub resource_uri : String
  pub allowed : Bool
  pub reason : Reason

pub record AuditEvent : Type 0 where
  pub tenant_id : String
  pub event_type : String
  pub actor : String
  pub target : String
  pub action : String
  pub decision : String
  -- the entries of the dict in `payload_json`
  pub payload : List (String × String)

-- An entry of `_ORG_FOR_STORE_CACHE`, which maps (tenant, store) to an organization or to None.
pub record CacheEntry : Type 0 where
  pub tenant_id : String
  pub store_id : String
  pub org_id : Option String

-- The rows that the connection sees, and the process-wide cache.
pub record World : Type 0 where
  pub capabilities : List Capability
  pub identities : List Identity
  pub stores : List Store
  pub organizations : List Organization
  pub namespaces : List Namespace
  pub namespace_members : List NamespaceMember
  pub role_assignments : List RoleAssignment
  pub relationship_tuples : List Relationship
  pub shares : List Share
  pub promotion_requests : List PromotionRequest
  pub approval_steps : List ApprovalStep
  pub policy_decisions : List PolicyDecision
  pub audit_events : List AuditEvent
  pub org_cache : List CacheEntry
