-- ===== src/BreakGlass/Tests.antt =====
-- A session of half an hour, and the theorems about it.
use client_capmesh.Prelude.{
  ℕ, ◌+◌, ◌≤◌, ◌<◌, String, ◌≡◌, ◌↔◌, refl, true, false, none, some, List, [], ◌∷◌, ◌++◌, ok, err,
  value_error, find, update, ltb, if◌then◌else◌, strip, select,
}
use client_capmesh.BreakGlass.Sessions.{
  Session, Db, is_session, is_blank, microseconds, session_of, grant_event, revoke, revoke_event,
  grant_break_glass, revoke_break_glass, is_break_glass_active, list_break_glass_sessions,
}
use client_capmesh.BreakGlass.Expiry.{grant-recorded, grant-active}
use client_capmesh.BreakGlass.Revoked.{
  revoke-ends, revoked_stays, Call, to_grant, to_revoke, after_calls,
}

-- texts of the instants before and from the end of the half hour that starts at 1000
abbrev iso : ℕ → String
iso n = if ltb n 1800001000 then "2026-08-01T00:00:00" else "2026-08-01T00:30:00"

abbrev clock : ℕ → String
clock n = "2026-08-01T00:00:00Z"

abbrev nothing : Db
nothing = record { sessions = []; audit_events = [] }

abbrev session : Session
session = session_of iso clock "bg_1" "alice" "outage" "root" "asg" 30 1000

abbrev granted : Db
granted = record {
  sessions = session ∷ [];
  audit_events = grant_event iso clock "bg_1" "alice" "outage" "root" "asg" 30 1000 ∷ [];
}

grants :
    grant_break_glass iso clock "bg_1" "alice" "outage" "root" "asg" 30 1000 nothing ≡ ok granted
unfolding grant_break_glass is_blank strip
grants = refl

blank_reason :
    grant_break_glass iso clock "bg_1" "alice" "  " "root" "asg" 30 1000 nothing ≡ err value_error
unfolding grant_break_glass is_blank strip
blank_reason = refl

too_long :
    grant_break_glass iso clock "bg_1" "alice" "outage" "root" "asg" 121 1000 nothing
    ≡ err value_error
unfolding grant_break_glass is_blank strip
too_long = refl

-- a session that has expired is still listed among the active ones
expired_listed :
    (list_break_glass_sessions "asg" true granted ≡ session ∷ [])
    × (is_break_glass_active iso clock "bg_1" "asg" 1800001000 granted ≡ false)
unfolding list_break_glass_sessions is_break_glass_active find select
expired_listed = (refl, refl)

grant-recorded_example :
    (is_blank "outage" ≡ false)
    × (1 ≤ 30)
    × (30 ≤ 120)
    × (granted ≡ record {
      sessions = [] ++ (session ∷ []);
      audit_events =
          [] ++ (grant_event iso clock "bg_1" "alice" "outage" "root" "asg" 30 1000 ∷ []);
    })
grant-recorded_example =
    grant-recorded iso clock "bg_1" "alice" "outage" "root" "asg" 30 1000 nothing granted grants

grant-active_example :
    ((is_break_glass_active iso clock "bg_1" "asg" 5000 granted ≡ true)
      ↔ (5000 < 1000 + microseconds 30))
    × (is_break_glass_active iso clock "bg_1" "asg" 5000 granted ≡ true → 5000 < 1000 + 7200000000)
grant-active_example =
    grant-active iso clock "bg_1" "alice" "outage" "root" "asg" 30 1000 nothing granted grants 5000
      (λ s m. elim m [ ]) refl

abbrev revoked : Session
revoked = revoke iso clock 2000 session

abbrev after_revocation : Db
after_revocation = record {
  sessions = revoked ∷ [];
  audit_events = granted.audit_events ++ (revoke_event "bg_1" "root" "asg" session ∷ []);
}

revokes : revoke_break_glass iso clock "bg_1" "root" "asg" 2000 granted ≡ ok after_revocation
unfolding revoke_break_glass find update
revokes = refl

revoke-ends_example :
    (row : Session) × (find (is_session "bg_1" "asg") granted.sessions ≡ some row)
    × (row.revoked_at ≡ none)
    × (find (is_session "bg_1" "asg") after_revocation.sessions ≡ some (revoke iso clock 2000 row))
    × (after_revocation.audit_events
        ≡ granted.audit_events ++ (revoke_event "bg_1" "root" "asg" row ∷ []))
    × ((u : ℕ) → is_break_glass_active iso clock "bg_1" "asg" u after_revocation ≡ false)
revoke-ends_example =
    revoke-ends iso clock "bg_1" "root" "asg" 2000 granted after_revocation revokes

abbrev later : List (Call iso clock)
later =
    to_grant "bg_2" "alice" "again" "root" "asg" 30 3000 ∷ to_revoke "bg_1" "root" "asg" 4000 ∷ []

revoked_stays_example :
    is_break_glass_active iso clock "bg_1" "asg" 5000 (after_calls iso clock later after_revocation)
    ≡ false
unfolding find
revoked_stays_example =
    revoked_stays iso clock later "bg_1" "asg" 5000 after_revocation revoked refl refl
