-- ===== src/BreakGlass/Sessions.antt =====
-- capmesh/break_glass.py: the table `break_glass_sessions` and the operations on it. `new_id` is an
-- argument. An instant is a number of microseconds, and one call reads the clock once;
-- `isoformat` of the standard library and the text of `utc_now` are parameters. The number
-- `ttlMinutes` of an event's payload is left out.
use client_capmesh.Prelude.{
  ℕ, ◌+◌, ◌*◌, String, Bool, true, false, not, ◌&&◌, ◌||◌, Option, none, some, List, [], ◌∷◌, ◌++◌,
  ◌==◌, str_lt, str_le, codes, strip, find, select, update, order_by, ltb, Result, ok, err,
  value_error, if◌then◌else◌,
}
use client_capmesh.Model.{AuditEvent}

abbrev pub max_break_glass_ttl_minutes : ℕ
max_break_glass_ttl_minutes = 120

pub record Session : Type 0 where
  pub id : String
  pub tenant_id : String
  pub principal : String
  pub reason : String
  pub granted_by : String
  pub expires_at : String
  pub created_at : String
  pub revoked_at : Option String

-- the two tables that the operations write
pub record Db : Type 0 where
  pub sessions : List Session
  pub audit_events : List AuditEvent

abbrev pub is_session : (session_id tenant_id : String) → Session → Bool
is_session session_id tenant_id s = s.id == session_id && s.tenant_id == tenant_id

-- bool(reason.strip()), which is false of the empty reason too
unfoldable pub is_blank : String → Bool
is_blank reason = elim (strip (codes reason)) [ [] ↦ true | _ ↦ false ]

abbrev pub is_revoked : Session → Bool
is_revoked s = elim s.revoked_at [ none ↦ false | some t ↦ true ]

abbrev pub microseconds : ℕ → ℕ
microseconds minutes = minutes * 60000000

abbrev pub revoke_event : (session_id revoked_by tenant_id : String) → Session → AuditEvent
revoke_event session_id revoked_by tenant_id row = record {
  tenant_id = tenant_id;
  event_type = "break_glass.revoke";
  actor = revoked_by;
  target = session_id;
  action = "revoke";
  decision = "allow";
  payload = ("principal", row.principal) ∷ ("reason", row.reason) ∷ [];
}

-- ORDER BY created_at DESC
unfoldable pub list_break_glass_sessions :
    (tenant_id : String) (active_only : Bool) → Db → List Session
list_break_glass_sessions tenant_id active_only db =
    order_by (λ s t. str_le t.created_at s.created_at)
      (select (λ (s : Session). s.tenant_id == tenant_id && (not active_only || not (is_revoked s)))
        db.sessions)

module _ (isoformat utc_now : ℕ → String) where
  -- the row that a grant inserts
  abbrev pub session_of :
      (new_id principal reason granted_by tenant_id : String) (ttl_minutes now : ℕ) → Session
  session_of new_id principal reason granted_by tenant_id ttl_minutes now = record {
    id = new_id;
    tenant_id = tenant_id;
    principal = principal;
    reason = reason;
    granted_by = granted_by;
    expires_at = isoformat (now + microseconds ttl_minutes);
    created_at = utc_now now;
    revoked_at = none;
  }

  abbrev pub grant_event :
      (new_id principal reason granted_by tenant_id : String) (ttl_minutes now : ℕ) → AuditEvent
  grant_event new_id principal reason granted_by tenant_id ttl_minutes now = record {
    tenant_id = tenant_id;
    event_type = "break_glass.grant";
    actor = granted_by;
    target = principal;
    action = "grant";
    decision = "allow";
    payload =
        ("sessionId", new_id)
        ∷ ("reason", reason)
        ∷ ("expiresAt", isoformat (now + microseconds ttl_minutes))
        ∷ [];
  }

  unfoldable pub grant_break_glass :
      (new_id principal reason granted_by tenant_id : String) (ttl_minutes now : ℕ) → Db → Result Db
  grant_break_glass new_id principal reason granted_by tenant_id ttl_minutes now db =
      if is_blank reason
      then err value_error
      else if ltb ttl_minutes 1 || ltb max_break_glass_ttl_minutes ttl_minutes
      then err value_error
      else ok (record {
        sessions =
            db.sessions
            ++ (session_of new_id principal reason granted_by tenant_id ttl_minutes now ∷ []);
        audit_events =
            db.audit_events
            ++ (grant_event new_id principal reason granted_by tenant_id ttl_minutes now ∷ []);
      })

  abbrev pub revoke : (now : ℕ) → Session → Session
  revoke now s = record s { revoked_at = some (utc_now now) }

  unfoldable pub revoke_break_glass :
      (session_id revoked_by tenant_id : String) (now : ℕ) → Db → Result Db
  revoke_break_glass session_id revoked_by tenant_id now db =
      elim (find (is_session session_id tenant_id) db.sessions) [
        | none ↦ err value_error
        | some row ↦
            if is_revoked row
            then err value_error
            else ok (record {
              sessions = update (λ (s : Session). s.id == session_id) (revoke now) db.sessions;
              audit_events =
                  db.audit_events ++ (revoke_event session_id revoked_by tenant_id row ∷ []);
            })
      ]

  unfoldable pub is_break_glass_active : (session_id tenant_id : String) (now : ℕ) → Db → Bool
  is_break_glass_active session_id tenant_id now db =
      elim (find (is_session session_id tenant_id) db.sessions) [
        | none ↦ false
        | some row ↦ if is_revoked row then false else str_lt (isoformat now) row.expires_at
      ]
