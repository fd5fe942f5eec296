-- ===== src/BreakGlass/Revoked.antt =====
-- What a revocation of capmesh/break_glass.py ends.
use client_capmesh.Prelude.{
  ℕ, String, Bool, ◌≡◌, refl, true, false, none, some, List, [], ◌∷◌, ◌++◌, arith, ◌==◌, eq_iff,
  find, update, find-update, find-update_other, find-snoc, Result, ok, err, and-true_iff, inl, inr,
  Option-cases, Bool-cases, Result-cases, ◌∙◌,
}
use client_capmesh.BreakGlass.Expiry.{grant-recorded}
use client_capmesh.BreakGlass.Sessions.{
  Session, Db, is_session, revoke, revoke_event, grant_break_glass, revoke_break_glass,
  is_break_glass_active, is_revoked,
}

module _ (isoformat utc_now : ℕ → String) where
  accepted :
      (session_id revoked_by tenant_id : String) (now : ℕ) (db after : Db)
      → revoke_break_glass isoformat utc_now session_id revoked_by tenant_id now db ≡ ok after
      → (row : Session) × (find (is_session session_id tenant_id) db.sessions ≡ some row)
        × (row.revoked_at ≡ none)
        × (after ≡ record {
          sessions =
              update
                (λ (s : Session). s.id == session_id)
                (revoke isoformat utc_now now)
                db.sessions;
          audit_events = db.audit_events ++ (revoke_event session_id revoked_by tenant_id row ∷ []);
        })
  unfolding revoke_break_glass
  accepted session_id revoked_by tenant_id now db after h =
      elim (Option-cases (find (is_session session_id tenant_id) db.sessions)) [
        | inl e ↦ absurd (ground (arith, h, e))
        | inr (row, e) ↦ elim (Option-cases row.revoked_at) [
          | inl live ↦ (row, e, live, ground (arith, h, e, live))
          | inr (t, shut) ↦ absurd (ground (arith, h, e, shut))
        ]
      ]

  revoked_found :
      (session_id tenant_id : String) (now : ℕ) (db : Db) (row : Session)
      → find (is_session session_id tenant_id) db.sessions ≡ some row
      → find
          (is_session session_id tenant_id)
          (update (λ (s : Session). s.id == session_id) (revoke isoformat utc_now now) db.sessions)
        ≡ some (revoke isoformat utc_now now row)
  revoked_found session_id tenant_id now db row found =
      find-update (is_session session_id tenant_id) (λ (s : Session). s.id == session_id)
        (revoke isoformat utc_now now) db.sessions (λ s. refl) (λ s e. ((and-true_iff _ _).0 e).0)
        found

  revoked-inactive :
      (session_id tenant_id : String) (u : ℕ) (db : Db) {row : Session}
      → find (is_session session_id tenant_id) db.sessions ≡ some row
      → is_revoked row ≡ true
      → is_break_glass_active isoformat utc_now session_id tenant_id u db ≡ false
  unfolding is_break_glass_active
  revoked-inactive session_id tenant_id u db found r = rw (is_break_glass_active, found, r)

  -- A revocation that returns was of a session of the tenant that was not revoked; that session then
  -- reads as revoked with its other columns as before, and one audit event names who revoked it and
  -- for whom and why it was granted. From then on it is not active at any instant.
  pub revoke-ends :
      (session_id revoked_by tenant_id : String) (now : ℕ) (db after : Db)
      → revoke_break_glass isoformat utc_now session_id revoked_by tenant_id now db ≡ ok after
      → (row : Session) × (find (is_session session_id tenant_id) db.sessions ≡ some row)
        × (row.revoked_at ≡ none)
        × (find (is_session session_id tenant_id) after.sessions
            ≡ some (revoke isoformat utc_now now row))
        × (after.audit_events
            ≡ db.audit_events ++ (revoke_event session_id revoked_by tenant_id row ∷ []))
        × ((u : ℕ) → is_break_glass_active isoformat utc_now session_id tenant_id u after ≡ false)
  revoke-ends session_id revoked_by tenant_id now db after h =
      let (row, found, live, only) = accepted session_id revoked_by tenant_id now db after h in
      let kept = revoked_found session_id tenant_id now db row found in
      (
        row,
        found,
        live,
        rw only kept,
        rw only,
        λ u. rw only (revoked-inactive session_id tenant_id u _ kept refl),
      )

  -- the calls that change the table
  pub data Call : Type 0 where
    to_grant : (new_id principal reason granted_by tenant_id : String) (ttl_minutes now : ℕ) → Call
    to_revoke : (session_id revoked_by tenant_id : String) (now : ℕ) → Call

  abbrev pub call : Call → Db → Result Db
  call (to_grant new_id principal reason granted_by tenant_id ttl_minutes now) =
      grant_break_glass isoformat utc_now new_id principal reason granted_by tenant_id ttl_minutes
        now
  call (to_revoke session_id revoked_by tenant_id now) =
      revoke_break_glass isoformat utc_now session_id revoked_by tenant_id now

  -- the database after a call: one that raises has written nothing
  abbrev pub after_call : Call → Db → Db
  after_call c db = elim (call c db) [ ok after ↦ after | err e ↦ db ]

  abbrev pub after_calls : List Call → Db → Db
  after_calls [] db = db
  after_calls (c ∷ cs) db = after_calls cs (after_call c db)

  -- a revoked session through one call
  grant_step :
      (new_id principal reason granted_by tenant : String) (ttl_minutes now : ℕ) (db after : Db)
      → grant_break_glass isoformat utc_now new_id principal reason granted_by tenant ttl_minutes
          now db
        ≡ ok after
      → (p : Session → Bool) {row : Session} → find p db.sessions ≡ some row
      → find p after.sessions ≡ some row
  grant_step new_id principal reason granted_by tenant ttl_minutes now db after h p found =
      rw
        (grant-recorded isoformat utc_now new_id principal reason granted_by tenant ttl_minutes now
          db after h).3
        (find-snoc p db.sessions _ found)

  revoke_step :
      (other revoked_by tenant : String) (now : ℕ) (db after : Db)
      → revoke_break_glass isoformat utc_now other revoked_by tenant now db ≡ ok after
      → (session_id tenant_id : String) {row : Session}
      → find (is_session session_id tenant_id) db.sessions ≡ some row
      → is_revoked row ≡ true
      → (row' : Session) × (find (is_session session_id tenant_id) after.sessions ≡ some row')
        × (is_revoked row' ≡ true)
  revoke_step other revoked_by tenant now db after h session_id tenant_id {row} found r =
      let (_, _, _, only) = accepted other revoked_by tenant now db after h in
      elim (Bool-cases (other == session_id)) [
        | inl same ↦
            let eq : other ≡ session_id = (eq_iff other session_id).0 same in
            (
              revoke isoformat utc_now now row,
              rw (only, eq) (revoked_found session_id tenant_id now db row found),
              refl,
            )
        | inr differ ↦ (
          row,
          rw only (
              find-update_other (is_session session_id tenant_id) (λ (s : Session). s.id == other)
                (revoke isoformat utc_now now) db.sessions (λ s. refl)
                (λ s e. ground (
                  arith,
                  eq_iff s.id session_id,
                  eq_iff s.id other,
                  eq_iff other session_id,
                  differ,
                  e,
                ))
              ∙ found),
          r,
        )
      ]

  revoked_step :
      (c : Call) (session_id tenant_id : String) (db : Db) {row : Session}
      → find (is_session session_id tenant_id) db.sessions ≡ some row
      → is_revoked row ≡ true
      → (row' : Session) × (find (is_session session_id tenant_id) (after_call c db).sessions
          ≡ some row')
        × (is_revoked row' ≡ true)
  revoked_step (to_grant new_id principal reason granted_by tenant ttl_minutes now) session_id
        tenant_id db {row} found r =
      elim (Result-cases (
        grant_break_glass isoformat utc_now new_id principal reason granted_by tenant ttl_minutes
          now db)) [
            | inr (e, raised) ↦ rw (after_call, raised) (row, found, r)
            | inl (after, returned) ↦
                rw (after_call, returned)
                  (
                    row,
                    grant_step new_id principal reason granted_by tenant ttl_minutes now db after
                        returned _ found,
                    r,
                  )
          ]
  revoked_step (to_revoke other revoked_by tenant now) session_id tenant_id db {row} found r =
      elim (Result-cases (revoke_break_glass isoformat utc_now other revoked_by tenant now db)) [
        | inr (e, raised) ↦ rw (after_call, raised) (row, found, r)
        | inl (after, returned) ↦
            rw (after_call, returned)
              (revoke_step other revoked_by tenant now db after returned session_id tenant_id found
                r)
      ]

  -- A revoked session is never active again, at any instant and after any sequence of grants and
  -- revocations, those that raise included.
  pub revoked_stays :
      (cs : List Call) (session_id tenant_id : String) (u : ℕ) (db : Db) (row : Session)
      → find (is_session session_id tenant_id) db.sessions ≡ some row
      → is_revoked row ≡ true
      → is_break_glass_active isoformat utc_now session_id tenant_id u (after_calls cs db) ≡ false
  revoked_stays [] session_id tenant_id u db row found r =
      revoked-inactive session_id tenant_id u db found r
  revoked_stays (c ∷ cs) session_id tenant_id u db row found r =
      let (row', found', r') = revoked_step c session_id tenant_id db found r in
      revoked_stays cs session_id tenant_id u (after_call c db) row' found' r'
