-- ===== src/Access.antt =====
-- Who may do what: backend/internal/auth, backend/internal/biz/tenancy, the handlers of
-- backend/internal/service/authsvc.go and the feeds of backend/internal/ingest/feedauth.
pub mod Tenancy
pub mod Tokens
pub mod Sessions
pub mod Limiter
pub mod Feeds
pub mod Gate
use siem_v.Prelude.{ℕ}

-- `errors.Kind`, and the status a response with it has.
pub data Kind : Type 0 where
  invalid_input unauthorized forbidden not_found conflict unavailable internal : Kind

unfoldable pub http_status : Kind → ℕ
http_status invalid_input = 400
http_status unauthorized = 401
http_status forbidden = 404
http_status not_found = 404
http_status conflict = 409
http_status unavailable = 503
http_status internal = 500
