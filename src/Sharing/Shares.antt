-- ===== src/Sharing/Shares.antt =====
-- capmesh/stores.py: `create_share` and `revoke_share`. The key of a share (`new_id`) is an argument;
-- `ensure_identity_for_principal` of capmesh/governance.py, which writes the rows of an identity and its
-- stores, is a parameter that gives the identity's key and the world after it. Where the code raises,
-- the policy decisions of the checks before stay in the world.
use client_capmesh.Promotions.Review.{is_empty}
use client_capmesh.Roles.Operations.{insert_relationship}
use client_capmesh.Access.{Request, evaluate_access, identity_of, rights}
use client_capmesh.Model.{Share, Principal, Env, Capability, Relationship, AuditEvent, World}
use client_capmesh.Prelude.{
  String, [], true, Option, or_default, List, ◌+++◌, Bool, or_else, none, ◌∷◌, ◌==◌, Error, Result,
  update, some, ◌++◌, if◌then◌else◌, select, find, not, err, ◌&&◌, permission_error, value_error,
  ◌||◌, truthy, ok, subset,
}

-- the dict of a share; a key that is missing is none
pub record ShareRequest : Type 0 where
  pub capability_uri : Option String
  pub uri : Option String
  pub rights : Option (List String)
  pub subject_type : Option String
  pub subject_id : Option String
  pub expires_at : Option String

abbrev pub shared_uri : ShareRequest → String
shared_uri p = or_default p.capability_uri (or_default p.uri "")

abbrev pub shared_rights : ShareRequest → List String
shared_rights p = elim p.rights [ none ↦ "discover" ∷ "load" ∷ "call" ∷ [] | some rs ↦ rs ]

-- f"{subject_type}:{subject_id}"
abbrev pub shared_with : ShareRequest → String
shared_with p = or_default p.subject_type "user" +++ (":" +++ or_default p.subject_id "")

abbrev pub is_share : String → Share → Bool
is_share share_id s = s.id == share_id

-- a request about a capability
abbrev pub about : Principal → Capability → String → Request
about principal c right = record {
  principal = principal;
  right = right;
  capability = some c;
  resource_uri = none;
}

module _ (env : Env) (principal : Principal) where
  -- principal.tenant_id or DEFAULT_TENANT
  abbrev pub sharing_tenant : String
  sharing_tenant = or_else principal.tenant_id env.default_tenant

  -- the loop that checks each right
  unfoldable pub check_rights : Capability → List String → World → Option Error × World
  check_rights c [] w = (none, w)
  check_rights c (right ∷ rights) w =
      let (v, w') = evaluate_access env w (about principal c right) true in
      let rest = check_rights c rights w' in
      if not v.allowed then (some permission_error, w') else rest

  abbrev pub new_share : (share_id identity_id : String) → ShareRequest → Share
  new_share share_id identity_id p = record {
    id = share_id;
    tenant_id = sharing_tenant;
    capability_uri = shared_uri p;
    from_identity_id = identity_id;
    subject_type = or_default p.subject_type "user";
    subject_id = or_default p.subject_id "";
    rights = shared_rights p;
    state = "active";
    expires_at = p.expires_at;
    revoked_at = none;
  }

  -- the loop that inserts a relationship for each right
  unfoldable pub insert_rights :
      (uri user : String) → (rights : List String) → List Relationship → List Relationship
  insert_rights uri user [] rows = rows
  insert_rights uri user (right ∷ rights) rows = insert_rights uri user rights (
      insert_relationship env principal
        (record {
          tenant_id = sharing_tenant;
          object = uri;
          relation = right;
          user = user;
          source = "share";
        })
        rows)

  abbrev pub share_event : (event_type target action : String) → AuditEvent
  share_event event_type target action = record {
    tenant_id = sharing_tenant;
    event_type = event_type;
    actor = principal.subject;
    target = target;
    action = action;
    decision = "allow";
    payload = [];
  }

  -- the writes of a share
  unfoldable pub shared :
      (share_id identity_id : String) → ShareRequest → World → Result Share × World
  shared share_id identity_id p w =
      let w' = record w {
        shares = w.shares ++ (new_share share_id identity_id p ∷ []);
        relationship_tuples =
            insert_rights (shared_uri p) (shared_with p) (shared_rights p) w.relationship_tuples;
        capabilities =
            update (λ (c : Capability). c.uri == shared_uri p)
              (λ (c : Capability). record c { share_state = "shared" }) w.capabilities;
        audit_events = w.audit_events ++ (share_event "share.created" (shared_uri p) "share" ∷ []);
      } in
      elim (find (is_share share_id) w'.shares) [
        | none ↦ (err value_error, w')
        | some row ↦ (ok row, w')
      ]

  -- `create_share` after the first check
  unfoldable pub share_rights :
      (ensure_identity : World → String × World)
      → (share_id : String) → ShareRequest
      → Capability
      → World
      → Result Share × World
  share_rights ensure_identity share_id p c w =
      if is_empty (shared_rights p) || not (subset (shared_rights p) rights)
      then (err value_error, w)
      else (let (failure, w') = check_rights c (shared_rights p) w in
          elim failure as (λ _. Result Share × World) [
            | some e ↦ (err e, w')
            | none ↦
                if not (truthy (or_default p.subject_id ""))
                then (err value_error, w')
                else (let (identity_id, w'') = ensure_identity w' in
                    shared share_id identity_id p w'')
          ])

  unfoldable pub create_share :
      (ensure_identity : World → String × World)
      → (share_id : String) → ShareRequest
      → World
      → Result Share × World
  create_share ensure_identity share_id p w =
      if not (truthy (shared_uri p))
      then (err value_error, w)
      else elim (find (λ (c : Capability). c.uri == shared_uri p && c.tenant_id == sharing_tenant)
          w.capabilities) [
            | none ↦ (err value_error, w)
            | some c ↦
                let (v, w') = evaluate_access env w (about principal c "share") true in
                if not v.allowed
                then (err permission_error, w')
                else share_rights ensure_identity share_id p c w'
          ]

  -- DELETE FROM relationship_tuples, for each right of the share
  unfoldable pub delete_rights :
      Share → (rights : List String) → List Relationship → List Relationship
  delete_rights s [] rows = rows
  delete_rights s (right ∷ rights) rows = delete_rights s rights (
      select
        (λ (r : Relationship). not (
          r.tenant_id == principal.tenant_id
          && (r.object == s.capability_uri
              && (r.relation == right
                  && (r.user == (s.subject_type +++ (":" +++ s.subject_id))
                      && r.source == "share")))))
        rows)

  -- the writes of a revocation; the audit event has the tenant of the principal
  unfoldable pub withdraw : Share → World → World
  withdraw s w = record w {
    shares =
        update (is_share s.id)
          (λ (s : Share). record s { state = "revoked"; revoked_at = some env.now }) w.shares;
    relationship_tuples = delete_rights s s.rights w.relationship_tuples;
    audit_events =
        w.audit_events
        ++ (record (share_event "share.revoked" s.capability_uri "revoke") {
          tenant_id = principal.tenant_id;
        }
            ∷ []);
  }

  unfoldable pub revoke_share : (share_id : String) → World → Result String × World
  revoke_share share_id w =
      elim (find (λ (s : Share). s.id == share_id && s.tenant_id == principal.tenant_id) w.shares) [
        | none ↦ (err value_error, w)
        | some s ↦
            elim (find
              (λ (c : Capability). c.uri == s.capability_uri && c.tenant_id == principal.tenant_id)
              w.capabilities) [
                | none ↦ (err value_error, w)
                | some c ↦
                    let (v, w') = evaluate_access env w (about principal c "share") true in
                    if not v.allowed && not (s.from_identity_id == identity_of env principal)
                    then (err permission_error, w')
                    else (ok share_id, withdraw s w')
              ]
      ]
