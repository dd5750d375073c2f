-- ===== src/Sessions/Lockout.antt =====
-- A password reset and the portal sessions: internal/auth/users.go with internal/portal/session.go.
use nass.Common.{text_eq_test, nat_eq_test}
use nass.Db.{Db}
