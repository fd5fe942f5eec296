-- ===== src/BreakGlass/Expiry.antt =====
-- How long a session of capmesh/break_glass.py is active.
use client_capmesh.Prelude.{
  ℕ, ◌+◌, ◌≤◌, ◌<◌, String, ◌≡◌, ◌≢◌, ◌↔◌, true, false, [], ◌∷◌, ◌++◌, Memᴰ, arith, eq_iff, eq_refl,
  find-snoc_new, str_lt, ltb, ok, ◌∙◌,
}
use client_capmesh.BreakGlass.Sessions.{
  Session, Db, is_session, is_blank, microseconds, session_of, grant_event, grant_break_glass,
  is_break_glass_active,
}

module _ (isoformat utc_now : ℕ → String) (new_id principal reason granted_by tenant_id : String)
    (ttl_minutes now : ℕ) (db after : Db)
    (granted : grant_break_glass isoformat utc_now new_id principal reason granted_by tenant_id
        ttl_minutes now db
      ≡ ok after) where
  -- A grant that returns has a reason that is not blank and lasts from 1 to 120 minutes; it has
  -- added one session, not revoked, and one audit event that names who granted it, to whom and why,
  -- and has written nothing else.
  pub grant-recorded :
      (is_blank reason ≡ false)
      × (1 ≤ ttl_minutes)
      × (ttl_minutes ≤ 120)
      × (after ≡ record {
        sessions =
            db.sessions
            ++ (session_of isoformat utc_now new_id principal reason granted_by tenant_id
                  ttl_minutes now
                ∷ []);
        audit_events =
            db.audit_events
            ++ (grant_event isoformat utc_now new_id principal reason granted_by tenant_id
                  ttl_minutes now
                ∷ []);
      })
  unfolding grant_break_glass
  grant-recorded = (ground arith, ground arith, ground arith, ground arith)

  -- whether the new session is active is a comparison of texts
  active_text :
      (u : ℕ)
      → ((s : Session) → Memᴰ s db.sessions → s.id ≢ new_id)
      → is_break_glass_active isoformat utc_now new_id tenant_id u after
        ≡ str_lt (isoformat u) (isoformat (now + microseconds ttl_minutes))
  unfolding is_break_glass_active
  active_text u fresh =
      let found =
        find-snoc_new (is_session new_id tenant_id) db.sessions
          (session_of isoformat utc_now new_id principal reason granted_by tenant_id ttl_minutes
            now)
          (λ s m. ground (arith, fresh s m, eq_iff s.id new_id))
          (rw (eq_refl new_id, eq_refl tenant_id)) in
      rw (grant-recorded.3, is_break_glass_active, found)

  -- A session under a new id is active at every instant before its time to live has passed and at
  -- none after, so never later than two hours after the grant, where the texts of the two instants
  -- compare as the instants do.
  pub grant-active :
      (u : ℕ)
      → ((s : Session) → Memᴰ s db.sessions → s.id ≢ new_id)
      → str_lt (isoformat u) (isoformat (now + microseconds ttl_minutes))
        ≡ ltb u (now + microseconds ttl_minutes)
      → ((is_break_glass_active isoformat utc_now new_id tenant_id u after ≡ true)
          ↔ (u < now + microseconds ttl_minutes))
        × (is_break_glass_active isoformat utc_now new_id tenant_id u after ≡ true
            → u < now + 7200000000)
  grant-active u fresh order =
      let act = active_text u fresh ∙ order in
      let high = grant-recorded.2 in
      (
        (λ a. ground (arith, act, a), λ l. ground (arith, act, l)),
        λ a. ground (arith, act, a, high),
      )
